-- ===== src/CondVar/Ids.antt =====
-- About `get_next_id` of src/condition_variable_implementation.h: which id it gives.
use twine.Prelude.{
  subst, of_some, suc, ◌≡◌, ◌↔◌, refl, ap, Bool, true, false, none, some, List, [], ◌∷◌, get_elem?,
  set, take, All, Option-cases, arith, inl, inr,
}
use twine.CondVar.{Taken, get_next_id}

-- What `get_next_id` gives: an id that was free, with all before it active; it is active afterwards,
-- and nothing else changes.
pub record IsNext (ids : List Bool) (t : Taken) : Type 0 where
  pub was_free : get_elem? ids t.id ≡ some false
  pub all_before : All (λ b. b ≡ true) (take t.id ids)
  pub taken : t.active_ids ≡ set ids t.id true

-- The id that is given is the first that is free, and it is then the one id that has changed.
pub get_next_id-IsNext : (ids : List Bool) {t : Taken} → get_next_id ids ≡ some t → IsNext ids t
unfolding get_next_id
get_next_id-IsNext [] e = absurd (ground arith)
get_next_id-IsNext (false ∷ ids) {t} e =
    subst (IsNext (false ∷ ids)) (of_some e)
      (record { was_free = refl; all_before = tt; taken = refl })
get_next_id-IsNext (true ∷ ids) {t} e = elim (Option-cases (get_next_id ids)) [
  | inl f ↦ absurd (ground (arith, f))
  | inr (u, f) ↦
      let v = get_next_id-IsNext ids f in
      let next : some (record { id = suc u.id; active_ids = true ∷ u.active_ids }) ≡ some t =
        ground (arith, f, e) in
      subst (IsNext (true ∷ ids)) (of_some next) (record {
        was_free = v.was_free;
        all_before = (refl, v.all_before);
        taken = ap (◌∷◌ true) v.taken;
      })
]

-- No id is given exactly if all are active.
pub get_next_id-none_iff : (ids : List Bool) → (get_next_id ids ≡ none) ↔ All (λ b. b ≡ true) ids
unfolding get_next_id
get_next_id-none_iff [] = ((λ e. tt), (λ h. refl))
get_next_id-none_iff (false ∷ ids) = ((λ e. absurd (ground arith)), (λ h. absurd (ground arith)))
get_next_id-none_iff (true ∷ ids) = elim (Option-cases (get_next_id ids)) [
  | inl f ↦ ((λ e. (refl, (get_next_id-none_iff ids).0 f)), (λ h. ground (arith, f)))
  | inr (u, f) ↦ (
    (λ e. absurd (ground (arith, f))),
    (λ h. absurd (ground (arith, f, (get_next_id-none_iff ids).1 h.1))),
  )
]
