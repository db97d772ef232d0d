-- ===== src/Cores/Lists.antt =====
-- About `build_core_list` of src/worker_pool_implementation.h.
use twine.Prelude.{
  ℕ, zero, suc, ◌≡◌, ◌<◌, refl, ap, some, arith, length, get_elem?, ℤ, pos, pos_part, ◌+ℤ◌, ◌∙◌,
}
use twine.Cores.{core_list_from, build_core_list}

length-core_list_from : (i : ℤ) (n : ℕ) → length (core_list_from i n) ≡ n
unfolding core_list_from
length-core_list_from i zero = refl
length-core_list_from i (suc n) = ap suc (length-core_list_from (i +ℤ pos 1) n)

pub length-build_core_list :
    (start_core cores : ℤ) → length (build_core_list start_core cores) ≡ pos_part cores
unfolding build_core_list
length-build_core_list start_core cores = length-core_list_from start_core (pos_part cores)

-- i + (k + 1) as (i + 1) + k
shift : (i : ℤ) (k : ℕ) → i +ℤ pos 1 +ℤ pos k ≡ i +ℤ pos (suc k)
shift i k = ground arith

shift_zero : (i : ℤ) → i ≡ i +ℤ pos 0
shift_zero i = ground arith

core_list_from-get :
    (i : ℤ) (n k : ℕ)
    → k < n
    → get_elem? (core_list_from i n) k ≡ some (record { id = i +ℤ pos k; workers = 0 })
unfolding core_list_from
core_list_from-get i zero k h = absurd (omega arith)
core_list_from-get i (suc n) zero h = ap (λ j. some (record { id = j; workers = 0 })) (shift_zero i)
core_list_from-get i (suc n) (suc k) h =
    core_list_from-get (i +ℤ pos 1) n k (omega arith)
    ∙ ap (λ j. some (record { id = j; workers = 0 })) (shift i k)

-- The list has one entry for each core, and none for a negative number of them: the k-th core has the
-- id `start_core + k`, and no worker yet.
pub build_core_list_entries :
    (start_core cores : ℤ) (k : ℕ)
    → k < pos_part cores
    → (length (build_core_list start_core cores) ≡ pos_part cores)
      × (get_elem? (build_core_list start_core cores) k
          ≡ some (record { id = start_core +ℤ pos k; workers = 0 }))
unfolding build_core_list
build_core_list_entries start_core cores k h = (
  length-core_list_from start_core (pos_part cores),
  core_list_from-get start_core (pos_part cores) k h,
)
