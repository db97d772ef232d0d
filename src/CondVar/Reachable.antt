-- ===== src/CondVar/Reachable.antt =====
-- About `create_rt_condition_variable` of src/twine.cpp and the destructors: the states that a
-- program can reach.
use twine.Prelude.{
  ℕ, zero, suc, ◌+◌, ◌≤◌, ◌≡◌, ◌↔◌, refl, ap, Bool, true, false, none, some, List, [], ◌∷◌, length,
  get_elem?, total, All, Option-cases, arith, ◌⊎◌, inl, inr,
}
use twine.CondVar.{
  get_next_id, Build, with_xenomai, with_evl, CondVar, xenomai, evl, Registry, construct,
  create_rt_condition_variable, remove, destroy_at, created, destroyed, all_free, Reach, begun,
  later,
}
use twine.CondVar.Ids.{get_next_id-none_iff}
use twine.CondVar.Owners.{bit, has_id, IsSound, create-IsSound}
use twine.CondVar.Destroyed.{destroy-remove, destroy_at-IsSound}

length-all_free : (n : ℕ) → length (all_free n) ≡ n
length-all_free zero = refl
length-all_free (suc n) = ap suc (length-all_free n)

total-all_free : (n : ℕ) → total bit (all_free n) ≡ 0
total-all_free zero = refl
total-all_free (suc n) = omega (arith, total-all_free n)

-- In every state that a program can reach by creating condition variables, some of which may fail, and by
-- destroying them, one after the other, so that no two threads do so at the same time, and with calls of
-- `init_xenomai` at any point between: no two that exist hold the same id, the ids that they hold are
-- active, and every other active id is lost, by a constructor that threw or by the destructor of
-- EvlConditionVariable.
pub Reach-IsSound : {build : Build} {max : ℕ} {r : Registry} → Reach build max r → IsSound max r
Reach-IsSound {max} begun = record {
  size = length-all_free max;
  owned = λ i. omega arith;
  balance = omega (arith, total-all_free max);
}
Reach-IsSound {build} {max} (later {r} reach (created realtime set_up e)) =
    create-IsSound max build realtime set_up r (Reach-IsSound reach) e
Reach-IsSound {max} (later {r} reach (destroyed i e)) =
    destroy_at-IsSound max r i (Reach-IsSound reach) e

-- The assertion on the id never fails: every condition variable that exists can be destroyed.
pub destroy_at-some :
    {build : Build} {max : ℕ} {r : Registry} (i : ℕ) (c : CondVar)
    → Reach build max r
    → get_elem? r.live i ≡ some c
    → (q : Registry) × (destroy_at i r ≡ some q) × (q.live ≡ remove r.live i)
unfolding destroy_at
destroy_at-some {max} {r} i c reach at =
    let (q, done, live) = destroy-remove max c r i (Reach-IsSound reach) at in
    (q, ground (arith, at, done), live)

-- A number of ids is active, all of them exactly if they are as many as there are.
total-length : (ids : List Bool) → total bit ids ≤ length ids
total-length [] = omega arith
total-length (true ∷ ids) = omega (arith, total-length ids)
total-length (false ∷ ids) = omega (arith, total-length ids)

All-active_iff : (ids : List Bool) → All (λ b. b ≡ true) ids ↔ (total bit ids ≡ length ids)
All-active_iff [] = ((λ h. refl), (λ e. tt))
All-active_iff (true ∷ ids) = (
  (λ h. omega (arith, (All-active_iff ids).0 h.1)),
  (λ e. (refl, (All-active_iff ids).1 (omega (arith, e)))),
)
All-active_iff (false ∷ ids) =
    ((λ h. absurd (ground (arith, h.0))), (λ e. absurd (omega (arith, e, total-length ids))))

construct-none_iff :
    (make : ℕ → CondVar) (set_up : ℕ → Bool) (ids : List Bool) (r : Registry)
    → (construct make set_up ids r ≡ none) ↔ (get_next_id ids ≡ none)
unfolding construct
construct-none_iff make set_up ids r = elim (Option-cases (get_next_id ids)) [
  | inl f ↦ ((λ e. f), (λ e. ground (arith, f)))
  | inr (t, f) ↦ ((λ e. absurd (ground (arith, f, e))), (λ e. absurd (ground (arith, f, e))))
]

no_id_iff :
    (make : ℕ → CondVar) (set_up : ℕ → Bool) (max : ℕ) (r : Registry)
    → IsSound max r
    → (construct make set_up r.active_ids r ≡ none) ↔ (total has_id r.live + r.lost ≡ max)
no_id_iff make set_up max r v = (
  (λ e. omega (
    arith,
    v.size,
    v.balance,
    (All-active_iff r.active_ids).0 (
        (get_next_id-none_iff r.active_ids).0
          ((construct-none_iff make set_up r.active_ids r).0 e)),
  )),
  (λ e. (construct-none_iff make set_up r.active_ids r).1 (
      (get_next_id-none_iff r.active_ids).1
        ((All-active_iff r.active_ids).1 (omega (arith, v.size, v.balance, e))))),
)

-- In a program of a Xenomai or an EVL build that creates and destroys condition variables one after the
-- other, never two threads at the same time, and is realtime by now: no condition variable can be created
-- for lack of an id exactly when those that exist with an id and the lost ids are together as many as there
-- are ids.
pub create-none_iff :
    {build : Build} {max : ℕ} {r : Registry} (set_up : ℕ → Bool)
    → (build ≡ with_xenomai) ⊎ (build ≡ with_evl)
    → Reach build max r
    → (create_rt_condition_variable build true set_up r ≡ none)
      ↔ (total has_id r.live + r.lost ≡ max)
unfolding create_rt_condition_variable
create-none_iff {max} {r} set_up (inl e) reach =
    rw (e, create_rt_condition_variable) (no_id_iff xenomai set_up max r (Reach-IsSound reach))
create-none_iff {max} {r} set_up (inr e) reach =
    rw (e, create_rt_condition_variable) (no_id_iff evl set_up max r (Reach-IsSound reach))
