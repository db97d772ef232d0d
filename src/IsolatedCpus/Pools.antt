-- ===== src/IsolatedCpus/Pools.antt =====
-- `evl_cores` of src/worker_pool_implementation.h: which cores a pool of EVL threads starts with.
use twine.Prelude.{◌≡◌, ◌⊎◌, ℕ, inl, inr, refl, Option, none, some, List, [], ◌∷◌, ℤ, pos, pos_part}
use twine.Cores.{build_core_list}
use twine.IsolatedCpus.{read_isolated_cores, get_isolated_cpus, first_cores, evl_cores}

pub evl_cores-cons :
    (line : List ℕ) (cores : ℤ) (id : ℤ) (ids : List ℤ)
    → read_isolated_cores line ≡ id ∷ ids
    → evl_cores (some line) cores ≡ first_cores (pos_part cores) (id ∷ ids)
unfolding evl_cores get_isolated_cpus
evl_cores-cons line cores id ids e = rw (e, evl_cores, get_isolated_cpus) refl

evl_cores-nil :
    (line : List ℕ) (cores : ℤ)
    → read_isolated_cores line ≡ []
    → evl_cores (some line) cores ≡ build_core_list (pos 0) cores
unfolding evl_cores get_isolated_cpus
evl_cores-nil line cores e = rw (e, evl_cores, get_isolated_cpus) refl

-- They are counted from 0, or they are the first of the isolated ones.
pub evl_cores-cases :
    (line : Option (List ℕ)) (cores : ℤ)
    → (evl_cores line cores ≡ build_core_list (pos 0) cores)
      ⊎ ((id : ℤ) × (ids : List ℤ) × (evl_cores line cores
            ≡ first_cores (pos_part cores) (id ∷ ids)))
unfolding evl_cores get_isolated_cpus
evl_cores-cases none cores = inl refl
evl_cores-cases (some line) cores = found (read_isolated_cores line) refl
  where
    found :
        (ids : List ℤ)
        → read_isolated_cores line ≡ ids
        → (evl_cores (some line) cores ≡ build_core_list (pos 0) cores)
          ⊎ ((id : ℤ) × (ids : List ℤ) × (evl_cores (some line) cores
                ≡ first_cores (pos_part cores) (id ∷ ids)))
    found [] e = inl (evl_cores-nil line cores e)
    found (id ∷ ids) e = inr (id, ids, evl_cores-cons line cores id ids e)
