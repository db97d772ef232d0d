-- ===== src/CondVar/Release.antt =====
-- About `deregister_id` of src/condition_variable_implementation.h: what becomes of the id of a
-- condition variable that is created and destroyed.
use twine.Prelude.{
  ℕ, zero, suc, ◌+◌, ◌≡◌, refl, sym, ap, subst, Bool, true, false, some, List, [], ◌∷◌, get_elem?,
  set, total, arith, Option-cases, of_some, inl, inr,
}
use twine.CondVar.{
  Taken, get_next_id, deregister_id, with_xenomai, with_evl, CondVar, xenomai, evl, Registry,
  construct, create_rt_condition_variable, destroy, destroy_at,
}
use twine.CondVar.Ids.{IsNext, get_next_id-IsNext}
use twine.CondVar.Owners.{bit, taken-total, taken-length, get-lt}

set-set :
    (ids : List Bool) (i : ℕ) (b v : Bool) → get_elem? ids i ≡ some b → set (set ids i v) i b ≡ ids
set-set [] i b v e = refl
set-set (c ∷ ids) zero b v e = ap (λ d. d ∷ ids) (sym (of_some e))
set-set (c ∷ ids) (suc i) b v e = ap (◌∷◌ c) (set-set ids i b v e)

-- A constructor that succeeds has taken the next id.
construct-taken :
    (make : ℕ → CondVar) (r : Registry) {q : Registry}
    → construct make (λ id. true) r.active_ids r ≡ some q
    → (t : Taken) × IsNext r.active_ids t
      × (record r { active_ids = t.active_ids; live = make t.id ∷ r.live } ≡ q)
unfolding construct
construct-taken make r e = elim (Option-cases (get_next_id r.active_ids)) [
  | inl f ↦ absurd (ground (arith, f))
  | inr (t, f) ↦ (t, get_next_id-IsNext r.active_ids f, ground (arith, f))
]

taken-given_back :
    (ids : List Bool) (t : Taken) → IsNext ids t → deregister_id t.active_ids t.id ≡ some ids
unfolding deregister_id
taken-given_back ids t n =
    let lt = get-lt ids t.id false n.was_free in
    let size = taken-length ids t n in
    let back : set t.active_ids t.id false ≡ ids =
      rw n.taken (set-set ids t.id false true n.was_free) in
    ground (arith, lt, size, back)

-- In a realtime program of a Xenomai build, creating a condition variable and destroying it leaves the
-- registry as it was.
pub destroy_at-create_xenomai :
    (r : Registry) {q : Registry}
    → create_rt_condition_variable with_xenomai true (λ id. true) r ≡ some q
    → destroy_at 0 q ≡ some r
unfolding create_rt_condition_variable destroy_at destroy
destroy_at-create_xenomai r e =
    let (t, n, end) = construct-taken xenomai r e in
    let back = taken-given_back r.active_ids t n in
    subst (λ q. destroy_at 0 q ≡ some r) end (ground (arith, back))

-- In a realtime program of an EVL build, creating a condition variable and destroying it leaves one id
-- more active, with no condition variable for it: no destructor gives the id back.
pub destroy_at-create_evl :
    (r : Registry) {q : Registry}
    → create_rt_condition_variable with_evl true (λ id. true) r ≡ some q
    → (p : Registry) × (destroy_at 0 q ≡ some p)
      × (p.live ≡ r.live)
      × (p.lost ≡ r.lost + 1)
      × (total bit p.active_ids ≡ total bit r.active_ids + 1)
unfolding create_rt_condition_variable destroy_at destroy
destroy_at-create_evl r {q} e =
    let (t, n, end) = construct-taken evl r e in
    subst
      (λ q.
        (p : Registry) × (destroy_at 0 q ≡ some p)
        × (p.live ≡ r.live)
        × (p.lost ≡ r.lost + 1)
        × (total bit p.active_ids ≡ total bit r.active_ids + 1))
      end
      (
        record { active_ids = t.active_ids; live = r.live; lost = r.lost + 1 },
        refl,
        refl,
        refl,
        taken-total r.active_ids t n,
      )
