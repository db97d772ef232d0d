-- ===== src/Cores.antt =====
-- src/worker_pool_implementation.h: the list of cores of a pool, and the choice of a core for a new
-- worker in `add_worker`.
pub mod Lists
pub mod Usage
pub mod Turns
use twine.Prelude.{
  ℕ, zero, suc, ◌+◌, ◌-◌, ◌≡◌, ◌<◌, ◌≤◌, Bool, true, false, Option, none, some, List, [], ◌∷◌, ltb,
  if◌then◌else◌, ℤ, pos, negsuc, pos_part, ◌+ℤ◌, eqb_ℤ, length, get_elem?, arith,
}

-- include/twine/twine.h
pub record CpuInfo : Type 0 where
  pub id : ℤ
  pub workers : ℕ

unfoldable pub core_list_from : ℤ → ℕ → List CpuInfo
core_list_from i zero = []
core_list_from i (suc rounds) = record { id = i; workers = 0 } ∷ core_list_from (i +ℤ pos 1) rounds

-- The loop runs while `i < cores + start_core`: `cores` times, or never if that is negative.
unfoldable pub build_core_list : ℤ → ℤ → List CpuInfo
unfolding core_list_from
build_core_list start_core cores = core_list_from start_core (pos_part cores)

-- `std::find_if` for the core with an id; the index of the core, or `none` for `end()`.
unfoldable pub find_core : ℤ → List CpuInfo → Option ℕ
find_core id [] = none
find_core id (c ∷ cs) = elim (eqb_ℤ c.id id) [
  | true ↦ some 0
  | false ↦ elim (find_core id cs) [ none ↦ none | some i ↦ some (suc i) ]
]

-- `std::min_element` from index `i` on: the best index so far, and the usage there.
unfoldable pub least_from : ℕ → ℕ → ℕ → List CpuInfo → ℕ
least_from best least i [] = best
least_from best least i (c ∷ cs) =
    least_from (if ltb c.workers least then i else best)
      (if ltb c.workers least then c.workers else least) (i + 1) cs

-- The first core with the least usage: `none` for `end()`.
unfoldable pub least_used : List CpuInfo → Option ℕ
unfolding least_from
least_used [] = none
least_used (c ∷ cs) = some (least_from 0 c.workers 1 cs)

-- `core_info->workers++` and `core_info->workers--`
unfoldable pub add_usage : List CpuInfo → ℕ → List CpuInfo
add_usage [] i = []
add_usage (c ∷ cs) zero = record c { workers = c.workers + 1 } ∷ cs
add_usage (c ∷ cs) (suc i) = c ∷ add_usage cs i

unfoldable pub drop_usage : List CpuInfo → ℕ → List CpuInfo
drop_usage [] i = []
drop_usage (c ∷ cs) zero = record c { workers = c.workers - 1 } ∷ cs
drop_usage (c ∷ cs) (suc i) = c ∷ drop_usage cs i
