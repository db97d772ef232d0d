-- ===== src/Pool/Growth.antt =====
-- About the pools that calls of `add_worker` make (src/worker_pool_implementation.h): their lists of cores,
-- and where a call is undefined.
use twine.Prelude.{ℕ, zero, suc, ◌≡◌, refl, ap, Option, some, List, [], ◌∷◌, ℤ, length}
use twine.Cores.{CpuInfo, add_usage}
use twine.Pool.{Platform, Pool, Reply, add_worker}

-- Calls of `add_worker`, one after the other; the platform can answer differently each time.
pub data Grows (p : Pool) : Pool → Type 0 where
  same : Grows p p
  grows :
      {q : Pool} {r : Reply} (env : Platform) (priority : ℤ) (cpu_id : Option ℤ)
      → Grows p q
      → add_worker env q priority cpu_id ≡ some r
      → Grows p r.pool

pub length-add_usage : (cs : List CpuInfo) (i : ℕ) → length (add_usage cs i) ≡ length cs
unfolding add_usage
length-add_usage [] i = refl
length-add_usage (c ∷ cs) zero = refl
length-add_usage (c ∷ cs) (suc i) = ap suc (length-add_usage cs i)
