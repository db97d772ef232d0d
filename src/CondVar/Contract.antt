-- ===== src/CondVar/Contract.antt =====
-- The interface RtConditionVariable (src/include/twine/twine.h) as a client sees it: its two
-- operations, what its documentation promises of them, read so that a notification is kept for the wait
-- that follows it, and what comes of that for a client.
pub mod Implementations
use twine.Prelude.{
  ℕ, zero, suc, ◌+◌, ◌≤◌, ◌<◌, ◌≡◌, ◌⊎◌, inl, inr, refl, Bool, true, false, Option, none, some,
  List, [], ◌∷◌, arith,
}
use twine.CondVar.Semaphore.{Event, notified, waited, count_notified}

-- What a wait returns, and the state after it.
pub record Woken (C : Type 0) : Type 0 where
  pub result : Bool
  pub after : C

-- A realtime thread notifies, and another thread waits: `none` while that blocks.
pub record RtConditionVariable (C : Type 0) : Type 0 where
  pub notify : C → C
  pub wait : C → Option (Woken C)

-- `pending` counts the notifications that no wait has returned, of which there is room for `capacity`. A
-- wait says `true` and takes one of them or more if there are any, and blocks otherwise.
pub record IsNotifying {C : Type 0} (ops : RtConditionVariable C) (pending : C → ℕ) (capacity : ℕ)
    : Type 0 where
  pub counted : (c : C) → pending c < capacity → pending (ops.notify c) ≡ pending c + 1
  pub woken :
      (c : C) (n : ℕ)
      → pending c ≡ suc n
      → (d : C) × (ops.wait c ≡ some (record { result = true; after = d })) × (pending d ≤ n)
  pub unwoken : (c : C) → pending c ≡ 0 → ops.wait c ≡ none

abbrev pub trues : List Bool → ℕ
trues [] = 0
trues (true ∷ bs) = trues bs + 1
trues (false ∷ bs) = trues bs

module _ {C : Type 0} (ops : RtConditionVariable C) where
  -- What the waits among some events return, up to one that blocks.
  unfoldable pub results : List Event → C → List Bool
  results [] c = []
  results (notified ∷ es) c = results es (ops.notify c)
  results (waited ∷ es) c = elim (ops.wait c) [ none ↦ [] | some w ↦ w.result ∷ results es w.after ]

pub zero_or_suc : (n : ℕ) → (n ≡ 0) ⊎ ((m : ℕ) × (n ≡ suc m))
zero_or_suc zero = inl refl
zero_or_suc (suc m) = inr (m, refl)

module _ {C : Type 0} {ops : RtConditionVariable C} {pending : C → ℕ} {capacity : ℕ}
    (v : IsNotifying ops pending capacity) where
  wait_cases :
      (c : C)
      → (ops.wait c ≡ none)
        ⊎ ((d : C) × (ops.wait c ≡ some (record { result = true; after = d }))
            × (1 + pending d ≤ pending c))
  wait_cases c = elim (zero_or_suc (pending c)) [
    | inr (n, e) ↦ let (d, ends, left) = v.woken c n e in inr (d, ends, omega (arith, left, e))
    | inl e ↦ inl (v.unwoken c e)
  ]

  -- As long as there is room for the notifications, no more waits say `true` than there have been
  -- notifications, whatever their order is.
  pub results-trues :
      (es : List Event) (c : C)
      → pending c + count_notified es ≤ capacity
      → trues (results ops es c) ≤ pending c + count_notified es
  unfolding results
  results-trues [] c h = omega arith
  results-trues (notified ∷ es) c h =
      let one = v.counted c (omega (arith, h)) in
      omega (arith, results-trues es (ops.notify c) (omega (arith, h, one)), one)
  results-trues (waited ∷ es) c h = elim (wait_cases c) [
    | inl blocks ↦ rw (blocks, results) (omega arith)
    | inr (d, ends, fewer) ↦
        rw (ends, results) (omega (arith, results-trues es d (omega (arith, h, fewer)), fewer))
  ]
