-- ===== src/Threads/Success.antt =====
-- About the methods of WorkerPoolImpl (src/worker_pool_implementation.h), called while the workers
-- are idle: whether they return.
use twine.Prelude.{
  ℕ, ◌≡◌, ◌≢◌, ◌⊎◌, inl, inr, refl, sym, ◌∙◌, subst, Bool, some, List, [], ◌∷◌, arith,
  if◌then◌else◌, length, length-map,
}
use twine.Calls.{
  Call, release_all, release_and_wait, Method, add_worker, not_created, init_failed, added,
  wait_for_workers_idle, wakeup_workers, wakeup_and_wait, destroy, method_calls,
}
use twine.Threads.{
  System, Control, ready, aborted, step, Action, worker, controller, spurious, call, control_step,
  thread_step, drive, absorb, wake, invoke, Reach, later, act,
}
use twine.Threads.Invariant.Defs.{Plan, flags}
use twine.Threads.Invariant.{Reach-Inv, spurious-some, thread_step-some, invoke-some, blocked-total}
use twine.Threads.Orderly.Defs.{AllBlocked}
use twine.Threads.Safety.{idle_stuck, IsWakeup, abort_cause}
use twine.Threads.Fate.{IsInner}
use twine.Threads.Effects.{Own-IsInner}
use twine.Threads.Settling.{exec-calls, drive-calls}
use twine.Threads.Returns.{Runs, begins, own, spurs, Runs-Reach}

-- No wakeup is left among the calls.
abbrev pub Tame : List Call → Type 0
Tame [] = Unit {0}
Tame (c ∷ calls) = (IsWakeup (c ∷ calls) → ⊥) × Tame calls

-- No assertion has failed, and none will: a wakeup that is still to be made finds the workers idle.
abbrev pub Succeeds : System → Type 0
Succeeds s =
    (s.control ≢ aborted)
    × (Tame s.calls
        ⊎ ((s.control ≡ ready)
            × AllBlocked s.barrier.active_sem_idx s.workers
            × (c : Call) × (s.calls ≡ c ∷ [])))

IsWakeup-expected :
    (gone running : Bool) (expected : ℕ) (fs : List Bool) (calls : List Call)
    → Plan gone running expected fs calls
    → IsWakeup calls
    → expected ≡ length fs
IsWakeup-expected gone running expected fs (release_all ∷ []) p h = p.0
IsWakeup-expected gone running expected fs (release_and_wait ∷ calls) p h = p.0.all_expected
IsWakeup-expected gone running expected fs _ p h = elim h [ ]

drive-Tame :
    (c : Control) (calls : List Call) (s : System) {t : System}
    → s.calls ≡ calls
    → drive c calls s ≡ some t
    → Tame calls ⊎ ((d : Call) × (calls ≡ d ∷ []) × (c ≡ ready))
    → Tame t.calls
unfolding drive
drive-Tame ready [] s todo e h = absurd (ground arith)
drive-Tame ready (c ∷ calls) s todo e (inl h) =
    subst Tame (sym (exec-calls c (record s { calls = calls }) e)) h.1
drive-Tame ready (c ∷ calls) s todo e (inr (d, one, at)) =
    let none_left : calls ≡ [] = ground (arith, one) in
    subst Tame (sym (exec-calls c (record s { calls = calls }) e ∙ none_left)) tt
drive-Tame c calls s todo e (inl h) =
    subst Tame (sym (drive-calls c calls s (λ q. ground (arith, q)) e ∙ todo)) h
drive-Tame c calls s todo e (inr (d, one, at)) = absurd (ground (arith, at))

Tame-no_wakeup : (calls : List Call) → Tame calls → IsWakeup calls → ⊥
Tame-no_wakeup [] tame h = h
Tame-no_wakeup (c ∷ calls) tame h = tame.0 h

Succeeds-full :
    (s : System)
    → Reach s
    → Succeeds s
    → IsWakeup s.calls
    → s.barrier.on_barrier ≡ s.barrier.no_threads
Succeeds-full s r (live, inl tame) h = absurd (Tame-no_wakeup s.calls tame h)
Succeeds-full s r (live, inr (at, all, c, todo)) h =
    let v = Reach-Inv r in
    omega (
      arith,
      v.balanced.counted,
      blocked-total s.barrier.active_sem_idx s.workers all,
      length-map s.workers (λ w. w.thread_running),
      IsWakeup-expected s.destroyed s.running s.barrier.no_threads (flags s.workers) s.calls
          v.planned h,
    )

next_call :
    (s : System)
    → Tame s.calls
      ⊎ ((s.control ≡ ready)
          × AllBlocked s.barrier.active_sem_idx s.workers
          × (c : Call) × (s.calls ≡ c ∷ []))
    → Tame s.calls ⊎ ((c : Call) × (s.calls ≡ c ∷ []) × (s.control ≡ ready))
next_call s (inl tame) = inl tame
next_call s (inr (at, all, c, todo)) = inr (c, todo, at)

control_step-Succeeds :
    (s : System) {t : System} → Reach s → control_step s ≡ some t → Succeeds s → Succeeds t
unfolding control_step
control_step-Succeeds s r e h = (
  λ q. let (wakeup, short) = abort_cause r h.0 e q in short (Succeeds-full s r h wakeup),
  inl (drive-Tame s.control s.calls s refl e (next_call s h.1)),
)

wake-live :
    (c : Control) (signalled : Bool) → c ≢ aborted → (if signalled then wake c else c) ≢ aborted
unfolding wake
wake-live c signalled h q = ground (arith, h, q)

thread_step-Succeeds :
    (i : ℕ) (s : System) {t : System} → Reach s → thread_step i s ≡ some t → Succeeds s → Succeeds t
unfolding absorb
thread_step-Succeeds i s r e (live, inl tame) =
    let (w, m, at, moved, end) = thread_step-some i s e in
    subst Succeeds end (wake-live s.control m.signalled live, inl tame)
thread_step-Succeeds i s r e (live, inr (at, all, c, todo)) =
    let stuck = idle_stuck r all i in absurd (ground (arith, stuck, e))

spurious-Succeeds : (s : System) {t : System} → step spurious s ≡ some t → Succeeds s → Succeeds t
spurious-Succeeds s e (live, inl tame) =
    subst Succeeds (spurious-some s e).1 ((λ q. absurd (ground (arith, q))), inl tame)
spurious-Succeeds s e (live, inr (at, all, c, todo)) =
    absurd (let (waits, end) = spurious-some s e in ground (arith, at, waits))

step-Succeeds :
    (a : Action) (s : System) {t : System}
    → IsInner a
    → Reach s
    → step a s ≡ some t
    → Succeeds s
    → Succeeds t
unfolding step
step-Succeeds (worker i) s o r e h = thread_step-Succeeds i s r e h
step-Succeeds controller s o r e h = control_step-Succeeds s r e h
step-Succeeds spurious s o r e h = spurious-Succeeds s e h
step-Succeeds (call m) s o r e h = elim o [ ]

pub Runs-Succeeds : {s t : System} {n k : ℕ} → Reach s → Runs s n k t → Succeeds s → Succeeds t
Runs-Succeeds r begins h = h
Runs-Succeeds r (own {t = u} a run o e) h =
    step-Succeeds a u (Own-IsInner a o) (Runs-Reach r run) e (Runs-Succeeds r run h)
Runs-Succeeds r (spurs {t = u} run e) h =
    step-Succeeds spurious u tt (Runs-Reach r run) e (Runs-Succeeds r run h)

pub method_calls-Tame :
    (m : Method) (n : ℕ) → Tame (method_calls n m) ⊎ ((c : Call) × (method_calls n m ≡ c ∷ []))
unfolding method_calls
method_calls-Tame (add_worker not_created) n = inl (ground arith)
method_calls-Tame (add_worker init_failed) n = inl (ground arith)
method_calls-Tame (add_worker added) n = inl (ground arith)
method_calls-Tame wait_for_workers_idle n = inl (ground arith)
method_calls-Tame wakeup_workers n = inr (release_all, refl)
method_calls-Tame wakeup_and_wait n = inr (release_and_wait, refl)
method_calls-Tame destroy n = inl (ground arith)

invoke-Succeeds :
    (m : Method) (s : System) {u : System}
    → AllBlocked s.barrier.active_sem_idx s.workers
    → invoke m s ≡ some u
    → Succeeds u
invoke-Succeeds m s all e =
    let (at, todo, alive, end) = invoke-some m s e in
    subst Succeeds end (
      (λ q. ground (arith, at, q)),
      elim (method_calls-Tame m (length s.workers)) [
        | inl tame ↦ inl tame
        | inr (c, one) ↦ inr (at, all, c, one)
      ],
    )

-- No assertion fails in a method that the client calls while the workers are idle, whatever the
-- schedule is.
pub idle_methods_never_abort :
    (m : Method) (s : System) {u t : System} {n k : ℕ}
    → Reach s
    → AllBlocked s.barrier.active_sem_idx s.workers
    → invoke m s ≡ some u
    → Runs u n k t
    → t.control ≢ aborted
unfolding step
idle_methods_never_abort m s r all e run =
    (Runs-Succeeds (later r (act (call m) e)) run (invoke-Succeeds m s all e)).0
