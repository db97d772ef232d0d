-- ===== src/CondVar/Evl/Notify.antt =====
-- EvlConditionVariable::notify and wait (src/condition_variable_implementation.h) over their two buffers:
-- one that threads out of band write and threads in band read, and one the other way round.
use twine.Prelude.{
  ℕ, ◌+◌, ◌-◌, zero, suc, ◌≤◌, ◌<◌, ◌≡◌, refl, inl, inr, Bool, true, false, Option, none, some,
  List, [], ◌∷◌, ℤ, pos, ltb_ℤ, arith, ltb, ◌==◌, if◌then◌else◌,
}
use mathlib.Core.Option
use twine.CondVar.Evl.{Polled, Flags, wait_inband, wait_inband-once}
use twine.CondVar.Channels.{Received, Channel, IsChannel, receive_cases, count}

pub record Buffers (A B : Type 0) : Type 0 where
  pub to_rt : A  -- _xbuf_to_rt
  pub to_nonrt : B  -- _xbuf_to_nonrt

-- The result of a wait, with the buffers after it.
pub record Waited (A B : Type 0) : Type 0 where
  pub woken : Bool
  pub buffers : Buffers A B

abbrev rest_of : {C : Type 0} → C → Option (Received C) → C
rest_of c none = c
rest_of c (some r) = r.rest

-- A poll with the timeout: `res` is 0, and no flag is set, if the time is out and there is nothing to
-- read.
abbrev polled : {C : Type 0} → Flags → Option (Received C) → Polled
polled f none = record { res = pos 0; revents = 0 }
polled f (some r) = record { res = pos 1; revents = f.pollin }

abbrev bytes_of : {C : Type 0} → Option (Received C) → ℤ
bytes_of none = pos 0
bytes_of (some r) = r.bytes

module _ {A B : Type 0} (rt : Channel A) (nonrt : Channel B) where
  unfoldable pub notify : (is_inband : Bool) → Buffers A B → Buffers A B
  notify false s = record s { to_nonrt = nonrt.send s.to_nonrt }
  notify true s = record s { to_rt = rt.send s.to_rt }

  -- `none` while the read of a thread out of band blocks. A thread in band polls once.
  unfoldable pub wait : Flags → (is_inband : Bool) → Buffers A B → Option (Waited A B)
  wait f false s =
      Option.map
        (λ r. record { woken = ltb_ℤ (pos 0) r.bytes; buffers = record s { to_rt = r.rest } })
        (rt.receive s.to_rt)
  wait f true s =
      let got = nonrt.receive s.to_nonrt in
      Option.map
        (λ l. record {
          woken = ltb_ℤ (pos 0) l.len;
          buffers = record s { to_nonrt = rest_of s.to_nonrt got };
        })
        (wait_inband f (λ i. polled f got) (λ i. bytes_of got) 1)

  unfoldable pub after : List Bool → Buffers A B → Buffers A B
  unfolding notify
  after [] s = s
  after (k ∷ ks) s = after ks (notify k s)

  -- Waits in band, one after the other: what they give, as long as each returns.
  unfoldable pub waits : Flags → ℕ → Buffers A B → List Bool
  unfolding wait
  waits f zero s = []
  waits f (suc n) s = elim (wait f true s) [ none ↦ [] | some x ↦ x.woken ∷ waits f n x.buffers ]

-- What `n` waits give if there are notifications for `m` of them.
abbrev pub trues_first : (m n : ℕ) → List Bool
trues_first m zero = []
trues_first m (suc n) = ltb 0 m ∷ trues_first (m - 1) n

module _ {A B : Type 0} {rt : Channel A} {nonrt : Channel B} {unread : A → ℕ} {waiting : B → ℕ}
    {size : ℕ} (v : IsChannel rt unread size (λ n. 1) (λ n. 1))
    (w : IsChannel nonrt waiting size (λ n. 1) (λ n. 1)) where
  after-pending :
      (ks : List Bool) (s : Buffers A B)
      → unread s.to_rt + count true ks ≤ size
      → waiting s.to_nonrt + count false ks ≤ size
      → (unread (after rt nonrt ks s).to_rt ≡ unread s.to_rt + count true ks)
        × (waiting (after rt nonrt ks s).to_nonrt ≡ waiting s.to_nonrt + count false ks)
  unfolding after notify
  after-pending [] s h k = (omega arith, omega arith)
  after-pending (true ∷ ks) s h k =
      let one = v.sent s.to_rt (omega (arith, h)) in
      let (a, b) = after-pending ks (notify rt nonrt true s) (omega (arith, h, one)) k in
      (omega (arith, a, one), b)
  after-pending (false ∷ ks) s h k =
      let one = w.sent s.to_nonrt (omega (arith, k)) in
      let (a, b) = after-pending ks (notify rt nonrt false s) h (omega (arith, k, one)) in
      (a, omega (arith, b, one))

  wait-out_of_band :
      (f : Flags) (s : Buffers A B)
      → Option.map (λ x. x.woken) (wait rt nonrt f false s)
        ≡ (if unread s.to_rt == 0 then none else some true)
  unfolding wait
  wait-out_of_band f s = elim (receive_cases v s.to_rt) [
    | inl (e, got) ↦ ground (arith, e, got)
    | inr (n, rest, e, got, left) ↦ ground (arith, e, got)
  ]

  -- A wait in band takes one notification if there is one.
  pub wait-in_band :
      (f : Flags) (s : Buffers A B)
      → 0 < f.pollin
      → 0 < f.pollnval
      → (x : Waited A B) × (wait rt nonrt f true s ≡ some x)
        × (x.woken ≡ ltb 0 (waiting s.to_nonrt))
        × (waiting x.buffers.to_nonrt ≡ waiting s.to_nonrt - 1)
  unfolding wait
  wait-in_band f s p q =
      let got = nonrt.receive s.to_nonrt in
      let once = wait_inband-once f (λ i. polled f got) (λ i. bytes_of got) 0 p q in
      elim (receive_cases w s.to_nonrt) [
        | inl (e, none_yet) ↦ (
          record { woken = false; buffers = s },
          ground (arith, none_yet, once),
          ground (arith, e),
          ground (arith, e),
        )
        | inr (n, rest, e, one, left) ↦ (
          record { woken = true; buffers = record s { to_nonrt = rest } },
          ground (arith, one, once),
          ground (arith, e),
          ground (arith, e, left),
        )
      ]

  waits-pending :
      (f : Flags) (n : ℕ) (s : Buffers A B)
      → 0 < f.pollin
      → 0 < f.pollnval
      → waits rt nonrt f n s ≡ trues_first (waiting s.to_nonrt) n
  unfolding waits
  waits-pending f zero s p q = refl
  waits-pending f (suc n) s p q =
      let (x, e, woken, left) = wait-in_band f s p q in
      ground (arith, e, woken, left, waits-pending f n x.buffers p q)

  -- A notification reaches only threads of the other world. After notifications of threads in band and
  -- out of band, on empty buffers with room for them, a wait out of band blocks exactly if no thread in
  -- band notified, and gives `true` otherwise; waits in band, one after the other, give `true` once for
  -- each notification of a thread out of band, and after that `false`, since a poll that finds nothing
  -- ends the wait.
  pub wait-after :
      (f : Flags) (ks : List Bool) (n : ℕ) (s : Buffers A B)
      → 0 < f.pollin
      → 0 < f.pollnval
      → unread s.to_rt ≡ 0
      → waiting s.to_nonrt ≡ 0
      → count true ks ≤ size
      → count false ks ≤ size
      → (Option.map (λ x. x.woken) (wait rt nonrt f false (after rt nonrt ks s))
          ≡ (if count true ks == 0 then none else some true))
        × (waits rt nonrt f n (after rt nonrt ks s) ≡ trues_first (count false ks) n)
  wait-after f ks n s p q d e h k =
      let (a, b) = after-pending ks s (omega (arith, d, h)) (omega (arith, e, k)) in
      let a' : unread (after rt nonrt ks s).to_rt ≡ count true ks = omega (arith, a, d) in
      let b' : waiting (after rt nonrt ks s).to_nonrt ≡ count false ks = omega (arith, b, e) in
      rw (← a', ← b')
        (wait-out_of_band f (after rt nonrt ks s), waits-pending f n (after rt nonrt ks s) p q)
