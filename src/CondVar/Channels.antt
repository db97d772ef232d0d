-- ===== src/CondVar/Channels.antt =====
-- The channels over which XenomaiConditionVariable and EvlConditionVariable notify
-- (src/condition_variable_implementation.h): sockets, event files and buffers of the system, which are
-- parameters.
use twine.Prelude.{
  ℕ, zero, suc, ◌+◌, ◌-◌, ◌<◌, ◌≡◌, ◌⊎◌, inl, inr, refl, Bool, true, false, Option, none, some,
  List, [], ◌∷◌, ℤ, pos,
}

-- What a read gives.
pub record Received (C : Type 0) : Type 0 where
  pub rest : C
  pub bytes : ℤ

pub record Channel (C : Type 0) : Type 0 where
  pub send : C → C  -- one notification
  pub receive : C → Option (Received C)  -- `none` while there is nothing to read

-- The documented behaviour: `pending` notifications wait in the channel, and there is room for
-- `capacity` of them. A read takes `taken n` of `n` and gives `length_of n` bytes.
pub record IsChannel {C : Type 0} (channel : Channel C) (pending : C → ℕ) (capacity : ℕ)
    (taken length_of : ℕ → ℕ) : Type 0 where
  pub sent : (c : C) → pending c < capacity → pending (channel.send c) ≡ pending c + 1
  pub nothing : (c : C) → pending c ≡ 0 → channel.receive c ≡ none
  pub received :
      (c : C) (n : ℕ)
      → pending c ≡ suc n
      → (rest : C) × (channel.receive c
          ≡ some (record { rest = rest; bytes = pos (length_of (suc n)) }))
        × (pending rest ≡ suc n - taken (suc n))

-- How many of the notifications are of this kind.
abbrev pub count : Bool → List Bool → ℕ
count kind [] = 0
count true (true ∷ ks) = suc (count true ks)
count true (false ∷ ks) = count true ks
count false (true ∷ ks) = count false ks
count false (false ∷ ks) = suc (count false ks)

-- A channel that is a counter.
abbrev pub counter : (taken length_of : ℕ → ℕ) → Channel ℕ
counter taken length_of = record {
  send = λ n. n + 1;
  receive = λ n. elim n [
    | zero ↦ none
    | suc m ↦ some (record { rest = suc m - taken (suc m); bytes = pos (length_of (suc m)) })
  ];
}

pub counter-IsChannel :
    (capacity : ℕ) (taken length_of : ℕ → ℕ)
    → IsChannel (counter taken length_of) (λ n. n) capacity taken length_of
counter-IsChannel capacity taken length_of = record {
  sent = λ c h. refl;
  nothing = λ c e. rw e refl;
  received = λ c n e. (suc n - taken (suc n), rw e refl, refl);
}

module _ {C : Type 0} {channel : Channel C} {pending : C → ℕ} {capacity : ℕ}
    {taken length_of : ℕ → ℕ} (v : IsChannel channel pending capacity taken length_of) where
  pub receive_cases :
      (c : C)
      → ((pending c ≡ 0) × (channel.receive c ≡ none))
        ⊎ ((n : ℕ) × (rest : C) × (pending c ≡ suc n)
            × (channel.receive c ≡ some (record { rest = rest; bytes = pos (length_of (suc n)) }))
            × (pending rest ≡ suc n - taken (suc n)))
  receive_cases c = elim (zero_or_suc (pending c)) [
    | inl e ↦ inl (e, v.nothing c e)
    | inr (n, e) ↦ let (rest, got, left) = v.received c n e in inr (n, rest, e, got, left)
  ]
    where
      zero_or_suc : (n : ℕ) → (n ≡ 0) ⊎ ((m : ℕ) × (n ≡ suc m))
      zero_or_suc zero = inl refl
      zero_or_suc (suc m) = inr (m, refl)
