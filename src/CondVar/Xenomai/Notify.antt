-- ===== src/CondVar/Xenomai/Notify.antt =====
-- XenomaiConditionVariable::notify and wait (src/condition_variable_implementation.h) over their two
-- channels: the socket for realtime threads, and the event file for the others.
use twine.Prelude.{
  ℕ, ◌+◌, ◌≤◌, ◌≡◌, inl, inr, Bool, true, false, ◌||◌, ◌&&◌, Option, none, some, List, [], ◌∷◌, pos,
  arith, leb, ◌==◌, if◌then◌else◌,
}
use mathlib.Core.Option
use twine.CondVar.Xenomai.{Target, wait, drain}
use twine.CondVar.Channels.{Received, Channel, IsChannel, receive_cases, count}

pub record Queues (R E : Type 0) : Type 0 where
  pub socket : R
  pub event : E

pub record Waited (R E : Type 0) : Type 0 where
  pub notified : Bool
  pub queues : Queues R E

-- The flag POLLIN of <poll.h>
abbrev pollin : ℕ
pollin = 1

abbrev target_of : {C : Type 0} → Option (Received C) → Target
target_of none = record { revents = 0; bytes = pos 0 }
target_of (some r) = record { revents = pollin; bytes = r.bytes }

abbrev rest_of : {C : Type 0} → C → Option (Received C) → C
rest_of c none = c
rest_of c (some r) = r.rest

-- poll with no timeout: it waits while there is nothing to read in both.
abbrev has_data : {C : Type 0} → Option (Received C) → Bool
has_data none = false
has_data (some r) = true

module _ {R E : Type 0} (socket : Channel R) (event : Channel E) where
  unfoldable pub notify : (is_realtime : Bool) → Queues R E → Queues R E
  notify true s = record s { socket = socket.send s.socket }
  notify false s = record s { event = event.send s.event }

  unfoldable pub wait_on : Queues R E → Option (Waited R E)
  wait_on s =
      let rt = socket.receive s.socket in
      let other = event.receive s.event in
      if has_data rt || has_data other
      then some (record {
        notified = wait (target_of rt) (target_of other);
        queues = record { socket = rest_of s.socket rt; event = rest_of s.event other };
      })
      else none

  -- After some notifications, of realtime threads or of others.
  unfoldable pub after : List Bool → Queues R E → Queues R E
  unfolding notify
  after [] s = s
  after (k ∷ ks) s = after ks (notify k s)

module _ {R E : Type 0} {socket : Channel R} {event : Channel E} {unread : R → ℕ} {value : E → ℕ}
    {room limit : ℕ} (v : IsChannel socket unread room (λ n. n) (λ n. n))
    (w : IsChannel event value limit (λ n. 1) (λ n. 8)) where
  after-pending :
      (ks : List Bool) (s : Queues R E)
      → unread s.socket + count true ks ≤ room
      → value s.event + count false ks ≤ limit
      → (unread (after socket event ks s).socket ≡ unread s.socket + count true ks)
        × (value (after socket event ks s).event ≡ value s.event + count false ks)
  unfolding after notify
  after-pending [] s h k = (omega arith, omega arith)
  after-pending (true ∷ ks) s h k =
      let one = v.sent s.socket (omega (arith, h)) in
      let (a, b) = after-pending ks (notify socket event true s) (omega (arith, h, one)) k in
      (omega (arith, a, one), b)
  after-pending (false ∷ ks) s h k =
      let one = w.sent s.event (omega (arith, k)) in
      let (a, b) = after-pending ks (notify socket event false s) h (omega (arith, k, one)) in
      (a, omega (arith, b, one))

  wait_on-pending :
      (s : Queues R E)
      → Option.map (λ x. x.notified) (wait_on socket event s) ≡ (
          if (unread s.socket == 0) && (value s.event == 0)
          then none
          else some (leb 2 (unread s.socket) || leb 1 (value s.event)))
  unfolding wait_on wait drain
  wait_on-pending s = elim (receive_cases v s.socket) [
    | inl (e, got) ↦ elim (receive_cases w s.event) [
      | inl (f, gave) ↦ ground (arith, e, f, got, gave)
      | inr (m, rest, f, gave, left) ↦ ground (arith, e, f, got, gave)
    ]
    | inr (n, rest, e, got, left) ↦ elim (receive_cases w s.event) [
      | inl (f, gave) ↦ ground (arith, e, f, got, gave)
      | inr (m, rest, f, gave, left) ↦ ground (arith, e, f, got, gave)
    ]
  ]

  -- After notifications of realtime threads and of others, on a condition variable on which nothing is
  -- pending and within the room of its channels, a wait blocks exactly if there were none. It says that
  -- it was notified if another thread notified, or if realtime threads did so twice: after a single
  -- notification of a realtime thread it returns, and gives `false`.
  pub wait_on-after :
      (ks : List Bool) (s : Queues R E)
      → unread s.socket ≡ 0
      → value s.event ≡ 0
      → count true ks ≤ room
      → count false ks ≤ limit
      → Option.map (λ x. x.notified) (wait_on socket event (after socket event ks s)) ≡ (
          if (count true ks == 0) && (count false ks == 0)
          then none
          else some (leb 2 (count true ks) || leb 1 (count false ks)))
  wait_on-after ks s e f h k =
      let (a, b) = after-pending ks s (omega (arith, e, h)) (omega (arith, f, k)) in
      let a' : unread (after socket event ks s).socket ≡ count true ks = omega (arith, a, e) in
      let b' : value (after socket event ks s).event ≡ count false ks = omega (arith, b, f) in
      rw (← a', ← b') (wait_on-pending (after socket event ks s))
