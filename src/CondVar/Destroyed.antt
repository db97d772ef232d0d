-- ===== src/CondVar/Destroyed.antt =====
-- About the destructors of src/condition_variable_implementation.h: the registry after the
-- destruction of a condition variable.
use twine.Prelude.{
  ℕ, ◌+◌, ◌≤◌, ◌≡◌, refl, subst, true, false, some, get_elem?, set, total, total-set, length-set,
  Option-cases, arith, inl, inr, ◌∙◌, ℕ_discrete,
}
use twine.CondVar.{
  deregister_id, CondVar, std, posix_semaphore, xenomai, evl, Registry, remove, destroy, destroy_at,
}
use twine.CondVar.Owners.{
  bit, active_at, has_id, holds, IsSound, total-remove, get-active, get-lt, active_at-get,
  active_at-set_other,
}

-- The rest, with the owner of an id gone, and the id given back or lost.
pub remove-owned :
    (max : ℕ) (r : Registry) (i j : ℕ) (c : CondVar)
    → IsSound max r
    → get_elem? r.live i ≡ some c
    → total (holds j) (remove r.live i) ≤ active_at j r.active_ids
remove-owned max r i j c v at = omega (arith, v.owned j, total-remove (holds j) r.live i c at)

pub holds_self : (id : ℕ) → holds id (xenomai id) ≡ 1
holds_self id = ground arith

-- The id that a live condition variable holds is active.
pub owned-active :
    (max : ℕ) (r : Registry) (i id : ℕ)
    → IsSound max r
    → get_elem? r.live i ≡ some (xenomai id)
    → get_elem? r.active_ids id ≡ some true
owned-active max r i id v at =
    get-active r.active_ids id
      (omega (arith, v.owned id, total-remove (holds id) r.live i (xenomai id) at, holds_self id))

pub given_back-owned :
    (max : ℕ) (r : Registry) (i id j : ℕ)
    → IsSound max r
    → get_elem? r.live i ≡ some (xenomai id)
    → total (holds j) (remove r.live i) ≤ active_at j (set r.active_ids id false)
given_back-owned max r i id j v at =
    let active = owned-active max r i id v at in
    elim (ℕ_discrete j id) [
      | yes e ↦ rw e (
          omega (
            arith,
            v.owned id,
            total-remove (holds id) r.live i (xenomai id) at,
            holds_self id,
            active_at-get r.active_ids id true active,
          ))
      | no ne ↦
          rw (active_at-set_other r.active_ids j id false ne)
            (remove-owned max r i j (xenomai id) v at)
    ]

pub given_back-IsSound :
    (max : ℕ) (r : Registry) (i id : ℕ)
    → IsSound max r
    → get_elem? r.live i ≡ some (xenomai id)
    → IsSound max (record r { active_ids = set r.active_ids id false; live = remove r.live i })
given_back-IsSound max r i id v at = record {
  size = length-set r.active_ids id false ∙ v.size;
  owned = λ j. given_back-owned max r i id j v at;
  balance = omega (
    arith,
    v.balance,
    total-set bit r.active_ids id true false (owned-active max r i id v at),
    total-remove has_id r.live i (xenomai id) at,
  );
}

-- One that gives no id back.
pub dropped-IsSound :
    (max : ℕ) (r : Registry) (i : ℕ) (c : CondVar) (lost : ℕ)
    → IsSound max r
    → get_elem? r.live i ≡ some c
    → lost ≡ r.lost + has_id c
    → IsSound max (record r { live = remove r.live i; lost = lost })
dropped-IsSound max r i c lost v at e = record {
  size = v.size;
  owned = λ j. remove-owned max r i j c v at;
  balance = omega (arith, v.balance, total-remove has_id r.live i c at, e);
}

pub given_back :
    (max : ℕ) (r : Registry) (i id : ℕ)
    → IsSound max r
    → get_elem? r.live i ≡ some (xenomai id)
    → deregister_id r.active_ids id ≡ some (set r.active_ids id false)
unfolding deregister_id
given_back max r i id v at =
    let lt = get-lt r.active_ids id true (owned-active max r i id v at) in ground (arith, lt)

pub destroy-IsSound :
    (max : ℕ) (c : CondVar) (r : Registry) (i : ℕ)
    → IsSound max r
    → get_elem? r.live i ≡ some c
    → (q : Registry) × (destroy c (remove r.live i) r ≡ some q) × IsSound max q
unfolding destroy
destroy-IsSound max std r i v at = (_, refl, dropped-IsSound max r i std r.lost v at (omega arith))
destroy-IsSound max posix_semaphore r i v at =
    (_, refl, dropped-IsSound max r i posix_semaphore r.lost v at (omega arith))
destroy-IsSound max (xenomai id) r i v at =
    (_, rw (given_back max r i id v at, destroy) refl, given_back-IsSound max r i id v at)
destroy-IsSound max (evl id) r i v at =
    (_, refl, dropped-IsSound max r i (evl id) (r.lost + 1) v at refl)

pub destroy-remove :
    (max : ℕ) (c : CondVar) (r : Registry) (i : ℕ)
    → IsSound max r
    → get_elem? r.live i ≡ some c
    → (q : Registry) × (destroy c (remove r.live i) r ≡ some q) × (q.live ≡ remove r.live i)
unfolding destroy
destroy-remove max std r i v at = (_, refl, refl)
destroy-remove max posix_semaphore r i v at = (_, refl, refl)
destroy-remove max (xenomai id) r i v at = (
  record r { active_ids = set r.active_ids id false; live = remove r.live i },
  rw (given_back max r i id v at, destroy) refl,
  refl,
)
destroy-remove max (evl id) r i v at = (_, refl, refl)

pub destroy_at-IsSound :
    (max : ℕ) (r : Registry) (i : ℕ) {q : Registry}
    → IsSound max r
    → destroy_at i r ≡ some q
    → IsSound max q
unfolding destroy_at
destroy_at-IsSound max r i {q} v e = elim (Option-cases (get_elem? r.live i)) [
  | inl f ↦ absurd (ground (arith, f))
  | inr (c, at) ↦
      let (p, done, sound) = destroy-IsSound max c r i v at in
      subst (IsSound max) (ground (arith, at, done)) sound
]
