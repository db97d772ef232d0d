-- ===== src/Pool/NewPool.antt =====
-- The constructor of WorkerPoolImpl (src/worker_pool_implementation.h): the cores of a new pool.
use twine.Prelude.{
  ℕ, zero, suc, ◌≡◌, ◌<◌, ◌⊎◌, inl, inr, refl, sym, subst, Option, List, [], ◌∷◌, ℤ, pos, pos_part,
  length, arith, All, ◌+ℤ◌,
}
use twine.Cores.{CpuInfo, core_list_from, build_core_list}
use twine.Cores.Lists.{length-build_core_list}
use twine.CondVar.{Build, with_evl}
use twine.Realtime.{ThreadType, evl_thread}
use twine.IsolatedCpus.{first_cores, evl_cores}
use twine.IsolatedCpus.Pools.{evl_cores-cases}
use twine.Pool.{pool_cores}

-- There is a core in the list exactly if `n`, how many were asked for, is not 0.
abbrev pub Fits : List CpuInfo → ℕ → Type 0
Fits xs n = ((n ≡ 0) × (xs ≡ [])) ⊎ ((0 < n) × (c : CpuInfo) × (cs : List CpuInfo) × (xs ≡ c ∷ cs))

length-Fits : (xs : List CpuInfo) (n : ℕ) → length xs ≡ n → Fits xs n
length-Fits [] n e = inl (sym e, refl)
length-Fits (c ∷ cs) n e = inr (omega arith, c, cs, refl)

first_cores-Fits : (n : ℕ) (id : ℤ) (ids : List ℤ) → Fits (first_cores n (id ∷ ids)) n
unfolding first_cores
first_cores-Fits zero id ids = inl (refl, refl)
first_cores-Fits (suc n) id ids = inr (omega arith, _, _, refl)

build_core_list-Fits : (cores : ℤ) → Fits (build_core_list (pos 0) cores) (pos_part cores)
build_core_list-Fits cores = length-Fits _ (pos_part cores) (length-build_core_list (pos 0) cores)

evl_cores-Fits : (line : Option (List ℕ)) (cores : ℤ) → Fits (evl_cores line cores) (pos_part cores)
evl_cores-Fits line cores = elim (evl_cores-cases line cores) [
  | inl e ↦ subst (λ xs. Fits xs (pos_part cores)) (sym e) (build_core_list-Fits cores)
  | inr (id, ids, e) ↦
      subst (λ xs. Fits xs (pos_part cores)) (sym e) (first_cores-Fits (pos_part cores) id ids)
]

pub pool_cores-Fits :
    (build : Build) (type : ThreadType) (line : Option (List ℕ)) (cores : ℤ)
    → Fits (pool_cores build type line cores) (pos_part cores)
unfolding pool_cores
pool_cores-Fits with_evl evl_thread line cores = evl_cores-Fits line cores
pool_cores-Fits _ _ line cores = build_core_list-Fits cores

pub Fits-length : (cs : List CpuInfo) (n : ℕ) → Fits cs n → 0 < n → 0 < length cs
Fits-length cs n (inl (zero_cores, e)) h = absurd (omega (arith, zero_cores))
Fits-length cs n (inr (lt, c, rest, e)) h = rw e (omega arith)

-- No worker is on any core of a new pool.
abbrev pub Unused : List CpuInfo → Type 0
Unused = All (λ c. c.workers ≡ 0)

core_list_from-Unused : (i : ℤ) (n : ℕ) → Unused (core_list_from i n)
unfolding core_list_from
core_list_from-Unused i zero = tt
core_list_from-Unused i (suc n) = (refl, core_list_from-Unused (i +ℤ pos 1) n)

build_core_list-Unused : (cores : ℤ) → Unused (build_core_list (pos 0) cores)
unfolding build_core_list
build_core_list-Unused cores = core_list_from-Unused (pos 0) (pos_part cores)

first_cores-Unused : (n : ℕ) (ids : List ℤ) → Unused (first_cores n ids)
unfolding first_cores
first_cores-Unused zero ids = tt
first_cores-Unused (suc n) [] = tt
first_cores-Unused (suc n) (id ∷ ids) = (refl, first_cores-Unused n ids)

pub pool_cores-Unused :
    (build : Build) (type : ThreadType) (line : Option (List ℕ)) (cores : ℤ)
    → Unused (pool_cores build type line cores)
unfolding pool_cores
pool_cores-Unused with_evl evl_thread line cores = elim (evl_cores-cases line cores) [
  | inl e ↦ subst Unused (sym e) (build_core_list-Unused cores)
  | inr (id, ids, e) ↦ subst Unused (sym e) (first_cores-Unused (pos_part cores) (id ∷ ids))
]
pool_cores-Unused _ _ line cores = build_core_list-Unused cores
