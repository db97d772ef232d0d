-- ===== src/Threads/Settling.antt =====
-- About the calls of WorkerPoolImpl that wait for the workers (src/worker_pool_implementation.h): what
-- holds until the last of them has ended.
use twine.Prelude.{
  ℕ, zero, suc, ◌≡◌, ◌≢◌, ◌⊎◌, inl, inr, refl, sym, ◌∙◌, ap, subst, Bool, true, false, some, List,
  [], ◌∷◌, arith, All, All-map, if◌then◌else◌,
}
use twine.Barrier.{must_wait, all_on_barrier, begin_release}
use twine.Worker.{blocked}
use twine.Calls.{Call, wait_for_all, release_and_wait, join_last}
use twine.Threads.{
  System, Control, ready, cond_wait, cond_woken, posting, aborted, step, Action, worker, controller,
  spurious, call, control_step, thread_step, drive, exec, check_all, release, absorb, wake, Reach,
}
use twine.Threads.Invariant.{exec-join_last, spurious-some, thread_step-some}
use twine.Threads.Orderly.Defs.{AllBlocked}
use twine.Threads.Safety.{IsIdle, wait_ends-IsIdle, idle_stuck, Awaits}
use twine.Threads.Fate.{IsInner}

abbrev pub IsWait : Call → Type 0
IsWait wait_for_all = Unit {0}
IsWait release_and_wait = Unit {0}
IsWait _ = ⊥

-- The last of the calls is a wait for the workers.
abbrev pub EndsInWait : List Call → Type 0
EndsInWait [] = ⊥
EndsInWait (c ∷ calls) = (IsWait c × (calls ≡ [])) ⊎ EndsInWait calls

abbrev may_settle : Control → Bool
may_settle (posting prev left false) = false
may_settle c = true

-- The wait is still to be made, or is being made, or has ended.
abbrev pub Settles : System → Type 0
Settles s =
    EndsInWait s.calls
    ⊎ ((s.calls ≡ [])
        × (may_settle s.control ≡ true)
        × (s.control ≡ ready → AllBlocked s.barrier.active_sem_idx s.workers))

pub exec-calls : (c : Call) (s : System) {t : System} → exec c s ≡ some t → t.calls ≡ s.calls
unfolding exec release check_all begin_release
exec-calls join_last s e =
    let (rest, joined, end) = exec-join_last s e in sym (ap (λ t. t.calls) end)
exec-calls c s e = ground (arith, e)

-- A wait that is made settles.
exec-settles :
    (c : Call) (s : System) {t : System}
    → IsWait c
    → s.control ≡ ready
    → exec c s ≡ some t
    → (may_settle t.control ≡ true) × (t.control ≡ ready → c ≡ wait_for_all)
unfolding exec release check_all begin_release all_on_barrier must_wait
exec-settles wait_for_all s h at e = (ground (arith, at, e), λ q. refl)
exec-settles release_and_wait s h at e = ground (arith, at, e)
exec-settles c s h at e = elim h [ ]

IsIdle-AllBlocked :
    (s : System) → All (IsIdle s) s.workers → AllBlocked s.barrier.active_sem_idx s.workers
IsIdle-AllBlocked s h =
    All-map (IsIdle s) (λ w. w.pc ≡ blocked s.barrier.active_sem_idx) s.workers (λ w h. h.0) h

drive-settled :
    (c : Control) (s : System) {t : System}
    → may_settle c ≡ true
    → drive c [] s ≡ some t
    → (t.calls ≡ s.calls) × (may_settle t.control ≡ true) × (t.control ≡ ready → Awaits c [])
unfolding drive check_all
drive-settled ready s h e = absurd (ground arith)
drive-settled cond_wait s h e = absurd (ground arith)
drive-settled cond_woken s h e = ground (arith, e)
drive-settled (posting prev (suc left) true) s h e = ground (arith, e)
drive-settled (posting prev zero true) s h e = ground (arith, e)
drive-settled (posting prev left false) s h e = absurd (ground (arith, h))
drive-settled aborted s h e = absurd (ground arith)

pub drive-calls :
    (c : Control) (calls : List Call) (s : System) {t : System}
    → c ≢ ready
    → drive c calls s ≡ some t
    → t.calls ≡ s.calls
unfolding drive check_all
drive-calls c calls s h e = ground (arith, e)

waits_next :
    (c : Call) (s : System)
    → s.control ≡ ready
    → s.calls ≡ c ∷ []
    → c ≡ wait_for_all
    → Awaits s.control s.calls
waits_next c s at todo e = rw (at, todo, e) tt

pending-Settles :
    (c : Control) (calls : List Call) (s : System) {t : System}
    → s.control ≡ c
    → s.calls ≡ calls
    → Reach s
    → EndsInWait calls
    → control_step s ≡ some t
    → drive c calls s ≡ some t
    → Settles t
unfolding drive
pending-Settles c [] s at todo r h e d = elim h [ ]
pending-Settles ready (c ∷ calls) s {t} at todo r (inl (wait, last)) e d =
    let (quiet, awaits) = exec-settles c (record s { calls = calls }) wait at d in
    inr (
      exec-calls c (record s { calls = calls }) d ∙ last,
      quiet,
      λ q.
          IsIdle-AllBlocked t
            (wait_ends-IsIdle r (waits_next c s at (todo ∙ ap (◌∷◌ c) last) (awaits q)) e q),
    )
pending-Settles ready (c ∷ calls) s at todo r (inr h) e d =
    inl (subst EndsInWait (sym (exec-calls c (record s { calls = calls }) d)) h)
pending-Settles cond_wait calls s at todo r h e d = absurd (ground (arith, d))
pending-Settles cond_woken calls s at todo r h e d =
    inl
      (subst EndsInWait (sym (drive-calls cond_woken calls s (λ q. ground (arith, q)) d ∙ todo)) h)
pending-Settles (posting prev left and_wait) calls s at todo r h e d = inl (
    subst EndsInWait
      (sym (drive-calls (posting prev left and_wait) calls s (λ q. ground (arith, q)) d ∙ todo)) h)
pending-Settles aborted calls s at todo r h e d = absurd (ground (arith, d))

control_step-Settles :
    (s : System) {t : System} → Reach s → control_step s ≡ some t → Settles s → Settles t
unfolding control_step
control_step-Settles s {t} r e (inl h) = pending-Settles s.control s.calls s refl refl r h e e
control_step-Settles s {t} r e (inr (todo, quiet, all)) =
    let (same, quiet', awaits) =
      drive-settled s.control s quiet (subst (λ calls. drive s.control calls s ≡ some t) todo e) in
    inr (
      same ∙ todo,
      quiet',
      λ q.
          IsIdle-AllBlocked t
            (wait_ends-IsIdle r (subst (Awaits s.control) (sym todo) (awaits q)) e q),
    )

absorb-settle :
    (c : Control) (signalled : Bool)
    → (may_settle (if signalled then wake c else c) ≡ may_settle c)
      × ((if signalled then wake c else c) ≡ ready → c ≡ ready)
unfolding wake
absorb-settle c signalled = ground arith

thread_step-Settles :
    (i : ℕ) (s : System) {t : System} → Reach s → thread_step i s ≡ some t → Settles s → Settles t
unfolding absorb
thread_step-Settles i s r e (inl h) =
    let (w, m, at, moved, end) = thread_step-some i s e in
    inl (subst (λ t. EndsInWait t.calls) end h)
thread_step-Settles i s {t} r e (inr (todo, quiet, all)) =
    let (w, m, at, moved, end) = thread_step-some i s e in
    let (same, still) = absorb-settle s.control m.signalled in
    subst Settles end (
      inr (
        todo,
        same ∙ quiet,
        λ q. absurd (let stuck = idle_stuck r (all (still q)) i in ground (arith, stuck, e)),
      ))

woken-Settles : (s : System) → Settles s → Settles (record s { control = cond_woken })
woken-Settles s (inl h) = inl h
woken-Settles s (inr (todo, quiet, all)) = inr (todo, refl, λ q. absurd (ground (arith, q)))

pub step-Settles :
    (a : Action) (s : System) {t : System}
    → IsInner a
    → Reach s
    → step a s ≡ some t
    → Settles s
    → Settles t
unfolding step
step-Settles (worker i) s o r e h = thread_step-Settles i s r e h
step-Settles controller s o r e h = control_step-Settles s r e h
step-Settles spurious s o r e h = subst Settles (spurious-some s e).1 (woken-Settles s h)
step-Settles (call m) s o r e h = elim o [ ]
