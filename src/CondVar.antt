-- ===== src/CondVar.antt =====
-- src/condition_variable_implementation.h, the registry of ids; `create_rt_condition_variable` of
-- src/twine.cpp, which takes an id from it, and the destructors of the condition variables.
pub mod Ids
pub mod Race
pub mod Owners
pub mod Destroyed
pub mod Reachable
pub mod Release
pub mod Std
pub mod Semaphore
pub mod Channels
pub mod Xenomai
pub mod Evl
mod Contract
mod Examples
use twine.Prelude.{
  ℕ, zero, suc, ◌+◌, Bool, true, false, Option, none, some, List, [], ◌∷◌, get_elem?, set, length,
  ltb, if◌then◌else◌, ◌≡◌,
}

-- An id, and the registry with it taken.
pub record Taken : Type 0 where
  pub id : ℕ
  pub active_ids : List Bool

-- The first id that is not active: `none` is the exception that all are.
unfoldable pub get_next_id : List Bool → Option Taken
get_next_id [] = none
get_next_id (false ∷ ids) = some (record { id = 0; active_ids = true ∷ ids })
get_next_id (true ∷ ids) = elim (get_next_id ids) [
  | none ↦ none
  | some t ↦ some (record { id = suc t.id; active_ids = true ∷ t.active_ids })
]

-- `none` if the assertion on the id fails.
unfoldable pub deregister_id : List Bool → ℕ → Option (List Bool)
deregister_id ids id = if ltb id (length ids) then some (set ids id false) else none

-- What the build has: TWINE_BUILD_WITH_XENOMAI, TWINE_BUILD_WITH_EVL, TWINE_WINDOWS_THREADING, or none
-- of them.
pub data Build : Type 0 where
  with_xenomai with_evl on_windows plain : Build

pub data CondVar : Type 0 where
  std posix_semaphore : CondVar
  xenomai evl : (id : ℕ) → CondVar

-- `live` are the condition variables that exist, and `lost` counts the ids that are active with no
-- condition variable. The code keeps neither: the theorems speak of them.
pub record Registry : Type 0 where
  pub active_ids : List Bool
  pub live : List CondVar
  pub lost : ℕ

-- The constructor runs with the id that has been taken: if it throws, nothing gives the id back.
unfoldable pub construct :
    (ℕ → CondVar) → (set_up : ℕ → Bool) → List Bool → Registry → Option Registry
construct make set_up ids r = elim (get_next_id ids) [
  | none ↦ none
  | some t ↦ some (
      if set_up t.id
      then record r { active_ids = t.active_ids; live = make t.id ∷ r.live }
      else record r { active_ids = t.active_ids; lost = r.lost + 1 })
]

-- `none` if there is no id left. `realtime` is `running_xenomai_realtime`, and `set_up` says whether
-- the constructor succeeds with an id.
unfoldable pub create_rt_condition_variable :
    Build → (realtime : Bool) → (set_up : ℕ → Bool) → Registry → Option Registry
unfolding construct
create_rt_condition_variable with_xenomai true set_up r = construct xenomai set_up r.active_ids r
create_rt_condition_variable with_evl true set_up r = construct evl set_up r.active_ids r
create_rt_condition_variable on_windows _ set_up r = some (record r { live = std ∷ r.live })
create_rt_condition_variable _ _ set_up r = some (record r { live = posix_semaphore ∷ r.live })

abbrev pub remove : List CondVar → ℕ → List CondVar
remove [] i = []
remove (c ∷ cs) zero = cs
remove (c ∷ cs) (suc i) = c ∷ remove cs i

-- The destructor: only the one of XenomaiConditionVariable gives its id back.
unfoldable pub destroy : CondVar → List CondVar → Registry → Option Registry
destroy std rest r = some (record r { live = rest })
destroy posix_semaphore rest r = some (record r { live = rest })
destroy (xenomai id) rest r = elim (deregister_id r.active_ids id) [
  | none ↦ none
  | some ids ↦ some (record r { active_ids = ids; live = rest })
]
destroy (evl id) rest r = some (record r { live = rest; lost = r.lost + 1 })

-- The `i`-th of the condition variables that exist is destroyed.
unfoldable pub destroy_at : ℕ → Registry → Option Registry
unfolding destroy
destroy_at i r = elim (get_elem? r.live i) [ none ↦ none | some c ↦ destroy c (remove r.live i) r ]

-- A step of a program in which one thread at a time creates and destroys condition variables. Whether it is
-- realtime can differ from one creation to the next: `init_xenomai` may come between.
pub data Change (build : Build) (r : Registry) : Registry → Type 0 where
  created :
      (realtime : Bool) (set_up : ℕ → Bool) {q : Registry}
      → create_rt_condition_variable build realtime set_up r ≡ some q
      → Change build r q
  destroyed : (i : ℕ) {q : Registry} → destroy_at i r ≡ some q → Change build r q

-- The states of the registry in a program of one build, from `max` ids that are free.
abbrev pub all_free : ℕ → List Bool
all_free zero = []
all_free (suc n) = false ∷ all_free n

abbrev pub empty_registry : ℕ → Registry
empty_registry max = record { active_ids = all_free max; live = []; lost = 0 }

pub data Reach (build : Build) (max : ℕ) : Registry → Type 0 where
  begun : Reach build max (empty_registry max)
  later : {r q : Registry} → Reach build max r → Change build r q → Reach build max q
