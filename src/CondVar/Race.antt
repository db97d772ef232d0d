-- ===== src/CondVar/Race.antt =====
-- `get_next_id` of src/condition_variable_implementation.h in two threads at once: it takes no lock, so
-- that another thread can come between each test and each write of a flag.
use twine.Prelude.{
  ℕ, zero, suc, ◌+◌, ◌<◌, ◌≡◌, ◌∙◌, Bool, true, false, none, some, List, [], ◌∷◌, get_elem?, set,
  take, All, arith, ap, sym,
}
use twine.CondVar.{Taken, get_next_id}
use twine.CondVar.Ids.{get_next_id-IsNext}

-- Where a thread stands: about to test a flag, about to set one, after its `return`, or after the
-- exception.
pub data Scan : Type 0 where
  looking claiming holding : (i : ℕ) → Scan
  thrown : Scan

pub record Scanned : Type 0 where
  pub active_ids : List Bool
  pub scan : Scan

unfoldable pub scan_step : List Bool → Scan → Scanned
scan_step ids (looking i) = elim (get_elem? ids i) [
  | none ↦ record { active_ids = ids; scan = thrown }
  | some true ↦ record { active_ids = ids; scan = looking (suc i) }
  | some false ↦ record { active_ids = ids; scan = claiming i }
]
scan_step ids (claiming i) = record { active_ids = set ids i true; scan = holding i }
scan_step ids scan = record { active_ids = ids; scan = scan }

-- One thread, with no other in between.
unfoldable pub scan_alone : (steps : ℕ) → Scanned → Scanned
unfolding scan_step
scan_alone zero s = s
scan_alone (suc n) s = scan_alone n (scan_step s.active_ids s.scan)

pub record Creators : Type 0 where
  pub active_ids : List Bool
  pub first : Scan
  pub second : Scan

-- A step of the first thread, and then one of the second.
unfoldable pub both_step : Creators → Creators
unfolding scan_step
both_step s =
    let a = scan_step s.active_ids s.first in
    let b = scan_step a.active_ids s.second in
    record { active_ids = b.active_ids; first = a.scan; second = b.scan }

unfoldable pub in_turn : (turns : ℕ) → Creators → Creators
unfolding both_step
in_turn zero s = s
in_turn (suc n) s = in_turn n (both_step s)

abbrev pub BothHold : ℕ → Creators → Type 0
BothHold id s = (s.first ≡ holding id) × (s.second ≡ holding id)

before-active :
    (ids : List Bool) (id j : ℕ)
    → All (λ b. b ≡ true) (take id ids)
    → get_elem? ids id ≡ some false
    → j < id
    → get_elem? ids j ≡ some true
before-active [] id j h e l = absurd (ground (arith, e))
before-active (b ∷ ids) zero j h e l = absurd (omega (arith, l))
before-active (b ∷ ids) (suc id) zero h e l = ap some h.0
before-active (b ∷ ids) (suc id) (suc j) h e l = before-active ids id j h.1 e (omega (arith, l))

module _ (ids : List Bool) (id : ℕ) (before : All (λ b. b ≡ true) (take id ids))
    (free : get_elem? ids id ≡ some false) where
  alone-holds :
      (d j : ℕ)
      → j + d ≡ id
      → scan_alone (d + 2) (record { active_ids = ids; scan = looking j })
        ≡ record { active_ids = set ids id true; scan = holding id }
  unfolding scan_alone scan_step
  alone-holds zero j e =
      let same : j ≡ id = omega (arith, e) in
      let here : get_elem? ids j ≡ some false = rw same free in ground (arith, here, same)
  alone-holds (suc d) j e =
      let active = before-active ids id j before free (omega (arith, e)) in
      let rest = alone-holds d (suc j) (omega (arith, e)) in ground (arith, active, rest)

  turns-hold :
      (d j : ℕ)
      → j + d ≡ id
      → BothHold id
          (in_turn (d + 2) (record { active_ids = ids; first = looking j; second = looking j }))
  unfolding in_turn both_step scan_step
  turns-hold zero j e =
      let same : j ≡ id = omega (arith, e) in
      let here : get_elem? ids j ≡ some false = rw same free in ground (arith, here, same)
  turns-hold (suc d) j e =
      let active = before-active ids id j before free (omega (arith, e)) in
      let rest = turns-hold d (suc j) (omega (arith, e)) in ground (arith, active, rest)

-- A thread that is alone takes the id that `get_next_id` gives, in as many steps as there are flags up to
-- it and one more, and leaves the flags as `get_next_id` does.
pub scan_alone-get_next_id :
    (ids : List Bool) {t : Taken}
    → get_next_id ids ≡ some t
    → scan_alone (t.id + 2) (record { active_ids = ids; scan = looking 0 })
      ≡ record { active_ids = t.active_ids; scan = holding t.id }
scan_alone-get_next_id ids {t} e =
    let v = get_next_id-IsNext ids e in
    alone-holds ids t.id v.all_before v.was_free t.id 0 (omega arith)
    ∙ ap (λ ids. record { active_ids = ids; scan = holding t.id }) (sym v.taken)

-- Two threads that create a condition variable at the same time can get the same id, whatever ids are
-- active: as soon as one is free, they do if they take their steps in turn, and a thread that is alone
-- would get that id too.
pub in_turn-BothHold :
    (ids : List Bool) {t : Taken}
    → get_next_id ids ≡ some t
    → BothHold t.id
        (in_turn (t.id + 2) (record { active_ids = ids; first = looking 0; second = looking 0 }))
      × (scan_alone (t.id + 2) (record { active_ids = ids; scan = looking 0 })
          ≡ record { active_ids = t.active_ids; scan = holding t.id })
in_turn-BothHold ids {t} e =
    let v = get_next_id-IsNext ids e in
    (turns-hold ids t.id v.all_before v.was_free t.id 0 (omega arith), scan_alone-get_next_id ids e)
