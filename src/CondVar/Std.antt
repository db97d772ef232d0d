-- ===== src/CondVar/Std.antt =====
-- src/condition_variable_implementation.h, class StdConditionVariable. Its `wait` is cut where it
-- sleeps: on the standard library's condition variable, with the mutex released.
use twine.Prelude.{
  ℕ, ◌+◌, ◌<◌, ◌≡◌, ◌↔◌, refl, Bool, true, false, Option, none, some, arith, sym, ◌∙◌,
}

-- The thread that waits: one at most, as the documentation asks.
pub data Sleeper : Type 0 where
  away asleep woken : Sleeper

-- `pending` counts the notifications since a wait has last returned. The code does not keep it.
pub record StdConditionVariable : Type 0 where
  pub flag : Bool
  pub sleeper : Sleeper
  pub pending : ℕ

abbrev pub new_std : StdConditionVariable
new_std = record { flag = false; sleeper = away; pending = 0 }

abbrev pub notify_one : Sleeper → Sleeper
notify_one asleep = woken
notify_one s = s

unfoldable pub notify : StdConditionVariable → StdConditionVariable
notify c = record c { flag = true; sleeper = notify_one c.sleeper; pending = c.pending + 1 }

-- `wait` up to its sleep: there is no test of the flag before it.
unfoldable pub enter_wait : StdConditionVariable → Option StdConditionVariable
enter_wait c = elim c.sleeper [ away ↦ some (record c { sleeper = asleep }) | _ ↦ none ]

unfoldable pub wake_spuriously : StdConditionVariable → Option StdConditionVariable
wake_spuriously c = elim c.sleeper [ asleep ↦ some (record c { sleeper = woken }) | _ ↦ none ]

-- What the wait returns, and the state after it.
pub record Returned : Type 0 where
  pub notified : Bool
  pub after : StdConditionVariable

-- The rest of `wait`: `none` while the thread sleeps, or if it does not wait.
unfoldable pub leave_wait : StdConditionVariable → Option Returned
leave_wait c = elim c.sleeper [
  | woken ↦
      some
        (record { notified = c.flag; after = record { flag = false; sleeper = away; pending = 0 } })
  | _ ↦ none
]

pub data Reach : StdConditionVariable → Type 0 where
  begun : Reach new_std
  notified : {c : StdConditionVariable} → Reach c → Reach (notify c)
  entered : {c d : StdConditionVariable} → Reach c → enter_wait c ≡ some d → Reach d
  woken_up : {c d : StdConditionVariable} → Reach c → wake_spuriously c ≡ some d → Reach d
  left : {c : StdConditionVariable} {r : Returned} → Reach c → leave_wait c ≡ some r → Reach r.after

-- The flag says whether there are notifications that no wait has returned yet.
abbrev Flagged : StdConditionVariable → Type 0
Flagged c = (c.flag ≡ true) ↔ (0 < c.pending)

flag_kept :
    (c d : StdConditionVariable) → c.flag ≡ d.flag → c.pending ≡ d.pending → Flagged c → Flagged d
flag_kept c d e f h =
    ((λ q. omega (arith, f, h.0 (e ∙ q))), (λ q. sym e ∙ h.1 (omega (arith, f, q))))

Reach-Flagged : {c : StdConditionVariable} → Reach c → Flagged c
unfolding notify enter_wait wake_spuriously leave_wait
Reach-Flagged begun = ((λ q. absurd (ground arith)), (λ q. absurd (omega arith)))
Reach-Flagged (notified {c} r) = ((λ q. omega arith), (λ q. refl))
Reach-Flagged (entered {c} {d} r e) =
    flag_kept c d (ground (arith, e)) (ground (arith, e)) (Reach-Flagged r)
Reach-Flagged (woken_up {c} {d} r e) =
    flag_kept c d (ground (arith, e)) (ground (arith, e)) (Reach-Flagged r)
Reach-Flagged (left {c} {r} reach e) =
    ((λ q. absurd (ground (arith, e))), (λ q. absurd (ground (arith, e))))

-- In every state that notifications, waits and spurious wakeups lead to, a wait that returns says
-- `true` exactly if there was a notification since the wait before it returned, and it takes all of
-- them.
pub leave_wait-notified_iff :
    {c : StdConditionVariable} {r : Returned}
    → Reach c
    → leave_wait c ≡ some r
    → ((r.notified ≡ true) ↔ (0 < c.pending)) × (r.after.pending ≡ 0)
unfolding leave_wait
leave_wait-notified_iff {c} {r} reach e =
    let h = Reach-Flagged reach in
    (((λ q. h.0 (ground (arith, e))), (λ q. ground (arith, e, h.1 q))), ground (arith, e))

-- A wait that begins sleeps, whatever has been notified before it: it cannot return before the next
-- notification or a spurious wakeup, although the flag is still what it was.
pub enter_wait-asleep :
    (c : StdConditionVariable) {d : StdConditionVariable}
    → enter_wait c ≡ some d
    → (leave_wait d ≡ none) × (d.flag ≡ c.flag) × (d.pending ≡ c.pending)
unfolding enter_wait leave_wait
enter_wait-asleep c e = (ground (arith, e), ground (arith, e), ground (arith, e))
