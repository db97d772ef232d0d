-- ===== src/CondVar/Owners.antt =====
-- About `create_rt_condition_variable` of src/twine.cpp: the condition variables of a program and
-- the ids that they hold.
use twine.Prelude.{
  ◌∙◌, ℕ_discrete, Bool-cases, ℕ, zero, suc, ◌+◌, ◌≤◌, ◌<◌, ◌≡◌, ◌≢◌, refl, subst, ap, Bool, true,
  false, some, List, [], ◌∷◌, length, get_elem?, set, total, total-set, length-set, Option-cases,
  arith, inl, inr, ◌==◌, if◌then◌else◌, of_some,
}
use twine.CondVar.{
  Taken, get_next_id, Build, with_xenomai, with_evl, on_windows, plain, CondVar, std,
  posix_semaphore, xenomai, evl, Registry, construct, create_rt_condition_variable, remove,
}
use twine.CondVar.Ids.{IsNext, get_next_id-IsNext}

abbrev pub bit : Bool → ℕ
bit true = 1
bit false = 0

-- 1 if the id is active.
abbrev pub active_at : ℕ → List Bool → ℕ
active_at i [] = 0
active_at zero (b ∷ bs) = bit b
active_at (suc i) (b ∷ bs) = active_at i bs

-- 1 if the condition variable has an id; 1 if it has this one.
abbrev pub has_id : CondVar → ℕ
has_id (xenomai id) = 1
has_id (evl id) = 1
has_id _ = 0

abbrev pub holds : ℕ → CondVar → ℕ
holds i (xenomai id) = if i == id then 1 else 0
holds i (evl id) = if i == id then 1 else 0
holds i _ = 0

-- Each id has one holder at most, and is active while it has one; and every active id has a holder or
-- is lost.
pub record IsSound (max : ℕ) (r : Registry) : Type 0 where
  pub size : length r.active_ids ≡ max
  pub owned : (i : ℕ) → total (holds i) r.live ≤ active_at i r.active_ids
  pub balance : total bit r.active_ids ≡ total has_id r.live + r.lost

pub active_at-get :
    (ids : List Bool) (i : ℕ) (b : Bool) → get_elem? ids i ≡ some b → active_at i ids ≡ bit b
active_at-get [] i b e = absurd (ground arith)
active_at-get (c ∷ ids) zero b e = ground arith
active_at-get (c ∷ ids) (suc i) b e = active_at-get ids i b e

pub get-active : (ids : List Bool) (i : ℕ) → 1 ≤ active_at i ids → get_elem? ids i ≡ some true
get-active [] i h = absurd (omega arith)
get-active (true ∷ ids) zero h = refl
get-active (false ∷ ids) zero h = absurd (omega arith)
get-active (c ∷ ids) (suc i) h = get-active ids i h

pub active_at-set_same :
    (ids : List Bool) (i : ℕ) (b v : Bool)
    → get_elem? ids i ≡ some b
    → active_at i (set ids i v) ≡ bit v
active_at-set_same [] i b v e = absurd (ground arith)
active_at-set_same (c ∷ ids) zero b v e = refl
active_at-set_same (c ∷ ids) (suc i) b v e = active_at-set_same ids i b v e

pub active_at-set_other :
    (ids : List Bool) (i j : ℕ) (v : Bool) → i ≢ j → active_at i (set ids j v) ≡ active_at i ids
active_at-set_other [] i j v n = refl
active_at-set_other (c ∷ ids) zero zero v n = absurd (n refl)
active_at-set_other (c ∷ ids) zero (suc j) v n = refl
active_at-set_other (c ∷ ids) (suc i) zero v n = refl
active_at-set_other (c ∷ ids) (suc i) (suc j) v n =
    active_at-set_other ids i j v (λ e. n (ap suc e))

pub get-lt : (ids : List Bool) (i : ℕ) (b : Bool) → get_elem? ids i ≡ some b → i < length ids
get-lt [] i b e = absurd (ground arith)
get-lt (c ∷ ids) zero b e = omega arith
get-lt (c ∷ ids) (suc i) b e = omega (arith, get-lt ids i b e)

pub total-remove :
    (f : CondVar → ℕ) (cs : List CondVar) (i : ℕ) (c : CondVar)
    → get_elem? cs i ≡ some c
    → total f (remove cs i) + f c ≡ total f cs
total-remove f [] i c e = absurd (ground arith)
total-remove f (d ∷ cs) zero c e = ground arith
total-remove f (d ∷ cs) (suc i) c e = omega (arith, total-remove f cs i c e)

-- Taking a free id: the id becomes active, the others are as before.
taken-active_at :
    (ids : List Bool) (t : Taken) (i : ℕ)
    → IsNext ids t
    → active_at i t.active_ids ≡ active_at i ids + (if i == t.id then 1 else 0)
taken-active_at ids t i n = rw n.taken (elim (ℕ_discrete i t.id) [
  | yes e ↦ rw e (
      ground (
        arith,
        active_at-set_same ids t.id false true n.was_free,
        active_at-get ids t.id false n.was_free,
      ))
  | no ne ↦ rw (active_at-set_other ids i t.id true ne) (ground (arith, ne))
])

pub taken-total :
    (ids : List Bool) (t : Taken) → IsNext ids t → total bit t.active_ids ≡ total bit ids + 1
taken-total ids t n = rw n.taken (omega (arith, total-set bit ids t.id false true n.was_free))

pub taken-length : (ids : List Bool) (t : Taken) → IsNext ids t → length t.active_ids ≡ length ids
taken-length ids t n = rw n.taken (length-set ids t.id true)

-- A condition variable that takes an id, whatever it is made for.
taken-IsSound :
    (max : ℕ) (r : Registry) (t : Taken) (c : CondVar)
    → IsNext r.active_ids t
    → has_id c ≡ 1
    → ((i : ℕ) → holds i c ≡ (if i == t.id then 1 else 0))
    → IsSound max r
    → IsSound max (record r { active_ids = t.active_ids; live = c ∷ r.live })
taken-IsSound max r t c n one held v = record {
  size = taken-length r.active_ids t n ∙ v.size;
  owned = λ i. omega (arith, held i, v.owned i, taken-active_at r.active_ids t i n);
  balance = omega (arith, one, v.balance, taken-total r.active_ids t n);
}

lost-IsSound :
    (max : ℕ) (r : Registry) (t : Taken)
    → IsNext r.active_ids t
    → IsSound max r
    → IsSound max (record r { active_ids = t.active_ids; lost = r.lost + 1 })
lost-IsSound max r t n v = record {
  size = taken-length r.active_ids t n ∙ v.size;
  owned = λ i. omega (arith, v.owned i, taken-active_at r.active_ids t i n);
  balance = omega (arith, v.balance, taken-total r.active_ids t n);
}

-- One that has no id.
free-IsSound :
    (max : ℕ) (r : Registry) (c : CondVar)
    → has_id c ≡ 0
    → ((i : ℕ) → holds i c ≡ 0)
    → IsSound max r
    → IsSound max (record r { live = c ∷ r.live })
free-IsSound max r c none_held held v = record {
  size = v.size;
  owned = λ i. omega (arith, held i, v.owned i);
  balance = omega (arith, none_held, v.balance);
}

construct-IsSound :
    (max : ℕ) (make : ℕ → CondVar) (set_up : ℕ → Bool) (r : Registry) {q : Registry}
    → ((id : ℕ) → has_id (make id) ≡ 1)
    → ((id i : ℕ) → holds i (make id) ≡ (if i == id then 1 else 0))
    → IsSound max r
    → construct make set_up r.active_ids r ≡ some q
    → IsSound max q
unfolding construct
construct-IsSound max make set_up r {q} one held v e =
    elim (Option-cases (get_next_id r.active_ids)) [
      | inl f ↦ absurd (ground (arith, f))
      | inr (t, f) ↦
          let n = get_next_id-IsNext r.active_ids f in
          elim (Bool-cases (set_up t.id)) [
            | inl fine ↦
                subst (IsSound max) (ground (arith, f, fine))
                  (taken-IsSound max r t (make t.id) n (one t.id) (held t.id) v)
            | inr bad ↦ subst (IsSound max) (ground (arith, f, bad)) (lost-IsSound max r t n v)
          ]
    ]

pub create-IsSound :
    (max : ℕ) (build : Build) (realtime : Bool) (set_up : ℕ → Bool) (r : Registry) {q : Registry}
    → IsSound max r
    → create_rt_condition_variable build realtime set_up r ≡ some q
    → IsSound max q
unfolding create_rt_condition_variable
create-IsSound max with_xenomai true set_up r v e =
    construct-IsSound max xenomai set_up r (λ id. refl) (λ id i. refl) v e
create-IsSound max with_evl true set_up r v e =
    construct-IsSound max evl set_up r (λ id. refl) (λ id i. refl) v e
create-IsSound max on_windows b set_up r v e =
    subst (IsSound max) (of_some e) (free-IsSound max r std refl (λ i. refl) v)
create-IsSound max with_xenomai false set_up r v e =
    subst (IsSound max) (of_some e) (free-IsSound max r posix_semaphore refl (λ i. refl) v)
create-IsSound max with_evl false set_up r v e =
    subst (IsSound max) (of_some e) (free-IsSound max r posix_semaphore refl (λ i. refl) v)
create-IsSound max plain b set_up r v e =
    subst (IsSound max) (of_some e) (free-IsSound max r posix_semaphore refl (λ i. refl) v)
