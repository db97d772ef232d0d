-- ===== src/Threads/Safety.antt =====
-- About the methods of WorkerPoolImpl (src/worker_pool_implementation.h): what a client of the
-- pool can rely on.
use twine.Prelude.{
  ℕ, zero, suc, ◌+◌, ◌-◌, ap, ◌≤◌, ◌<◌, ◌≡◌, ◌≢◌, ◌⊎◌, inl, inr, refl, true, false, none, some,
  List, [], ◌∷◌, All, All-get, arith, get_elem?, Option-cases, length-map,
}
use twine.Barrier.{must_wait, all_on_barrier, begin_release}
use twine.Worker.{Worker, Pc, at_barrier, blocked, woken, in_callback, exited}
use twine.Calls.{Call, wait_for_all, release_all, release_and_wait}
use twine.Threads.{
  System, Control, ready, cond_wait, cond_woken, posting, aborted, control_step, thread_step, drive,
  check_all, release, Reach,
}
use twine.Threads.Invariant.Defs.{InStep, Lockstep, Balanced, flags, Serving, Plan, Waits}
use twine.Threads.Invariant.{Reach-Inv, thread_step-some, Balanced-All_blocked, blocked-total}
use twine.Threads.Orderly.Defs.{AllBlocked, AtControl}
use twine.Threads.Orderly.{Reach-Orderly, AllBlocked-stuck}

in_step :
    (active rounds : ℕ) (pc : Pc) (n : ℕ)
    → InStep active rounds pc n
    → ((pc ≢ exited) × (n ≡ rounds))
      ⊎ (((pc ≡ woken) ⊎ (pc ≡ blocked (1 - active))) × (n + 1 ≡ rounds))
      ⊎ ((pc ≡ exited) × (n < rounds))
in_step active rounds at_barrier n h = inl ((λ e. cc), h)
in_step active rounds (blocked k) n (inl (e, h)) = inl ((λ e. cc), h)
in_step active rounds (blocked k) n (inr (e, h)) =
    inr (inl (inr (ap blocked (omega (arith, e))), h))
in_step active rounds woken n h = inr (inl (inl refl, h))
in_step active rounds in_callback n h = inl ((λ e. cc), h)
in_step active rounds exited n h = inr (inr (refl, h))

-- In every reachable state a worker that is in its loop has entered its callback exactly once for each
-- release since it was created; or once less, but only while it is on its way from a release to its
-- callback, woken or still blocked on the semaphore that is not active. One that has left its loop has
-- missed at least one release.
pub callbacks_in_step :
    {s : System}
    → Reach s
    → (i : ℕ) (w : Worker) → get_elem? s.workers i ≡ some w
    → ((w.pc ≢ exited) × (w.since + w.calls ≡ s.rounds))
      ⊎ (((w.pc ≡ woken) ⊎ (w.pc ≡ blocked (1 - s.barrier.active_sem_idx)))
          × (w.since + w.calls + 1 ≡ s.rounds))
      ⊎ ((w.pc ≡ exited) × (w.since + w.calls < s.rounds))
callbacks_in_step {s} r i w at =
    in_step s.barrier.active_sem_idx s.rounds w.pc (w.since + w.calls) (
      All-get (Lockstep s.barrier.active_sem_idx s.rounds) s.workers i
        (Reach-Inv r).balanced.lockstep at)

-- A worker that is idle: blocked on the active semaphore, with a callback for each release.
abbrev pub IsIdle : System → Worker → Type 0
IsIdle s w = (w.pc ≡ blocked s.barrier.active_sem_idx) × (w.since + w.calls ≡ s.rounds)

-- The controller is about to make the test that ends a wait for the workers: of `wait_for_all` at its
-- start or after a wakeup, or of `release_and_wait` after its signals or after a wakeup.
abbrev pub Awaits : Control → List Call → Type 0
Awaits ready (wait_for_all ∷ calls) = Unit {0}
Awaits cond_woken calls = Unit {0}
Awaits (posting prev zero true) calls = Unit {0}
Awaits _ _ = ⊥

blocked-IsIdle :
    (active rounds : ℕ) (ws : List Worker)
    → All (Lockstep active rounds) ws
    → active ≤ 1
    → AllBlocked active ws
    → All (λ w. (w.pc ≡ blocked active) × (w.since + w.calls ≡ rounds)) ws
blocked-IsIdle active rounds [] l a h = tt
blocked-IsIdle active rounds (w ∷ ws) l a h =
    ((h.0, ground (arith, l.0, h.0)), blocked-IsIdle active rounds ws l.1 a h.1)

pub AllBlocked-IsIdle :
    {s : System}
    → Reach s
    → AllBlocked s.barrier.active_sem_idx s.workers
    → All (IsIdle s) s.workers
AllBlocked-IsIdle {s} r all =
    let b = (Reach-Inv r).balanced in
    blocked-IsIdle s.barrier.active_sem_idx s.rounds s.workers b.lockstep b.index all

-- Nothing but the barrier's test changes when a wait ends.
wait_end :
    (c : Control) (calls : List Call) (s : System) {t : System}
    → Awaits c calls
    → drive c calls s ≡ some t
    → t.control ≡ ready
    → (s.barrier.no_threads ≤ s.barrier.on_barrier)
      × (t.workers ≡ s.workers)
      × (t.rounds ≡ s.rounds)
      × (t.barrier.active_sem_idx ≡ s.barrier.active_sem_idx)
unfolding drive check_all must_wait all_on_barrier
wait_end ready [] s a e q = elim a [ ]
wait_end ready (wait_for_all ∷ calls) s a e q = ground arith
wait_end ready (c ∷ calls) s a e q = elim a [ ]
wait_end cond_wait calls s a e q = elim a [ ]
wait_end cond_woken calls s a e q = ground arith
wait_end (posting prev zero true) calls s a e q = ground arith
wait_end (posting prev left and_wait) calls s a e q = elim a [ ]
wait_end aborted calls s a e q = elim a [ ]

Awaits-Serving :
    (c : Control) (calls : List Call) (s : System)
    → Awaits c calls
    → Plan s.destroyed s.running s.barrier.no_threads (flags s.workers) calls
    → Waits s.running s.barrier (flags s.workers) c
    → Serving s.running s.barrier.no_threads (flags s.workers)
Awaits-Serving ready [] s a p v = elim a [ ]
Awaits-Serving ready (wait_for_all ∷ calls) s a p v = p.0
Awaits-Serving ready (c ∷ calls) s a p v = elim a [ ]
Awaits-Serving cond_wait calls s a p v = elim a [ ]
Awaits-Serving cond_woken calls s a p v = v
Awaits-Serving (posting prev zero true) calls s a p v = v
Awaits-Serving (posting prev left and_wait) calls s a p v = elim a [ ]
Awaits-Serving aborted calls s a p v = elim a [ ]

-- When `wait_for_all`, or the wait of `release_and_wait`, lets the controller go on, each worker of the
-- pool is blocked on the active semaphore and has entered its callback once for each release since it
-- was created: also after spurious wakeups, and whatever the order of the steps was.
pub wait_ends-IsIdle :
    {s t : System}
    → Reach s
    → Awaits s.control s.calls
    → control_step s ≡ some t
    → t.control ≡ ready
    → All (IsIdle t) t.workers
unfolding control_step
wait_ends-IsIdle {s} {t} r a e q =
    let v = Reach-Inv r in
    let b = v.balanced in
    let (full, ws, rounds, active) = wait_end s.control s.calls s a e q in
    let serving = Awaits-Serving s.control s.calls s a v.planned v.waits in
    rw (ws, rounds, active)
      (blocked-IsIdle s.barrier.active_sem_idx s.rounds s.workers b.lockstep b.index (
        Balanced-All_blocked b
          (omega (arith, serving.all_expected, length-map s.workers (λ w. w.thread_running)))))

-- Idle workers stay idle: while all are blocked on the active semaphore, no worker has a step, so no
-- callback is entered between the end of a wait and the next release.
pub idle_stuck :
    {s : System}
    → Reach s
    → AllBlocked s.barrier.active_sem_idx s.workers
    → (i : ℕ) → thread_step i s ≡ none
idle_stuck {s} r all i = elim (Option-cases (thread_step i s)) [
  | inl e ↦ e
  | inr (t, e) ↦
      let (w, m, at, moved, end) = thread_step-some i s e in
      absurd
        (AllBlocked-stuck s.running s.barrier s.workers i (Reach-Inv r).balanced.fresh all at moved)
]

-- The calls of the methods `wakeup_workers` and `wakeup_and_wait`.
abbrev pub IsWakeup : List Call → Type 0
IsWakeup (release_all ∷ []) = Unit {0}
IsWakeup (release_and_wait ∷ calls) = Unit {0}
IsWakeup _ = ⊥

-- Only a release with a worker missing is refused.
refused :
    (c : Control) (calls : List Call) (s : System) {t : System}
    → s.control ≡ c
    → c ≢ aborted
    → Balanced s.barrier s.workers c s.rounds
    → Plan s.destroyed s.running s.barrier.no_threads (flags s.workers) calls
    → AtControl s.barrier.active_sem_idx s.workers calls c
    → drive c calls s ≡ some t
    → t.control ≡ aborted
    → IsWakeup calls × (s.barrier.on_barrier ≢ s.barrier.no_threads)
unfolding drive check_all must_wait all_on_barrier release begin_release
refused ready [] s at live v p h e q = absurd (ground arith)
refused ready (release_all ∷ []) s at live v p h e q = (tt, λ full. ground arith)
refused ready (release_all ∷ c ∷ calls) s at live v p h e q =
    let full : s.barrier.on_barrier ≡ s.barrier.no_threads = omega (
      arith,
      v.counted,
      p.0,
      length-map s.workers (λ w. w.thread_running),
      blocked-total s.barrier.active_sem_idx s.workers (h refl),
    ) in
    absurd (ground (arith, full))
refused ready (release_and_wait ∷ calls) s at live v p h e q = (tt, λ full. ground arith)
refused ready (c ∷ calls) s at live v p h e q = absurd (ground arith)
refused cond_wait calls s at live v p h e q = absurd (ground arith)
refused cond_woken calls s at live v p h e q = absurd (ground arith)
refused (posting prev (suc left) and_wait) calls s at live v p h e q = absurd (ground arith)
refused (posting prev zero true) calls s at live v p h e q = absurd (ground arith)
refused (posting prev zero false) calls s at live v p h e q = absurd (ground arith)
refused aborted calls s at live v p h e q = absurd (live refl)

-- The assertion of a release fails only in `wakeup_workers` or `wakeup_and_wait`, and only while some
-- worker is not on the barrier: never in the releases that `add_worker` and the destructor make.
pub abort_cause :
    {s t : System}
    → Reach s
    → s.control ≢ aborted
    → control_step s ≡ some t
    → t.control ≡ aborted
    → IsWakeup s.calls × (s.barrier.on_barrier ≢ s.barrier.no_threads)
unfolding control_step
abort_cause {s} r live e q =
    refused s.control s.calls s refl live (Reach-Inv r).balanced (Reach-Inv r).planned
      (Reach-Orderly r).settled e q
