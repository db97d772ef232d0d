-- ===== src/Threads/Together.antt =====
-- About wakeup_workers of WorkerPoolImpl (src/worker_pool_implementation.h): how many of the callbacks
-- can run at the same time.
mod Starting
use twine.Prelude.{
  ℕ, zero, suc, ◌+◌, ◌-◌, ◌≤◌, ◌<◌, ◌≡◌, ◌≢◌, ◌⊎◌, inl, inr, refl, sym, ◌∙◌, ap, subst, Bool, true,
  false, some, List, [], ◌∷◌, arith, All, All-get, All-set, All-map, get_elem?, set, total,
  total-set, ℕ_discrete, of_some, length-map, map, map-set,
}
use twine.Barrier
use twine.Barrier.{Barrier, sem_value, wait, semaphore_wait}
use twine.Worker.{
  Worker, Pc, at_barrier, blocked, woken, in_callback, exited, Moved, worker_step, Pc-discrete,
}
use twine.Calls.{Call, release_all, wakeup_workers, method_calls}
use twine.Threads.{
  System, Control, ready, posting, exec, release, drive, control_step, thread_step, absorb, invoke,
  step, Action, worker, controller, call, Reach, later, act,
}
use twine.Threads.Invariant.Defs.{Lockstep, on_sem, left_of, is_posting, flags}
use twine.Threads.Invariant.{
  Reach-Inv, Inv-Serving, invoke-some, semaphore_signal-active, begin_release-some, released,
  blocked-total,
}
use twine.Threads.Orderly.Defs.{AllBlocked}
use twine.Threads.Progress.Search.{Finds, find_next, worker_step-some, total-get}
use twine.Threads.Fate.{since_of}
use twine.Threads.Returns.{Runs, begins, own, Runs-Reach}
use twine.Threads.Together.Starting.{Released, steps_before, Starts, start_workers}

-- What the signals of a release leave alone.
record IsPosted (s t : System) : Type 0 where
  ended : t.control ≡ ready
  running : t.running ≡ s.running
  workers : t.workers ≡ s.workers
  active : t.barrier.active_sem_idx ≡ s.barrier.active_sem_idx

post_all :
    (left : ℕ) (prev : ℕ) (u s : System) (n : ℕ)
    → Runs u n zero s
    → s.control ≡ posting prev left false
    → (m : ℕ) × (t : System) × Runs u m zero t × IsPosted s t
unfolding step control_step drive
post_all zero prev u s n run at = (
  suc n,
  record s { barrier = record s.barrier { locked = false }; control = ready },
  own controller run tt (ground (arith, at)),
  record { ended = refl; running = refl; workers = refl; active = refl },
)
post_all (suc left) prev u s n run at =
    let next = record s {
      barrier = Barrier.semaphore_signal s.barrier prev;
      control = posting prev left false;
    } in
    let (m, t, run', p) =
      post_all left prev u next (suc n) (own controller run tt (ground (arith, at))) refl in
    (
      m,
      t,
      run',
      record {
        ended = p.ended;
        running = p.running;
        workers = p.workers;
        active = p.active ∙ semaphore_signal-active s.barrier prev;
      },
    )

AllBlocked-Released :
    (prev active : ℕ) (ws : List Worker)
    → prev + active ≡ 1
    → AllBlocked prev ws
    → All (λ f. f ≡ true) (flags ws)
    → All (Released active) ws
AllBlocked-Released prev active [] h all run = tt
AllBlocked-Released prev active (w ∷ ws) h all run =
    (ground (arith, h, all.0, run.0), AllBlocked-Released prev active ws h all.1 run.1)

-- The controller begins to signal.
abbrev signalling : System → System
signalling s = record s {
  barrier = released s.barrier;
  calls = [];
  control = posting s.barrier.active_sem_idx s.barrier.no_threads false;
  rounds = s.rounds + 1;
  destroyed = false;
}

begins_to_signal :
    (s : System)
    → s.control ≡ ready
    → s.barrier.locked ≡ false
    → s.barrier.on_barrier ≡ s.barrier.no_threads
    → step controller (record s { calls = release_all ∷ []; destroyed = false })
      ≡ some (signalling s)
unfolding step control_step drive exec release
begins_to_signal s at free full = ground (arith, at, free, begin_release-some s.barrier full)

-- The workers do not wait for each other: from every call of `wakeup_workers` on a pool whose workers are
-- idle, the threads can come to a state with the same workers in which each of them, however many they
-- are, is in its callback.
pub wakeup_workers-together :
    (s : System) {u : System}
    → Reach s
    → AllBlocked s.barrier.active_sem_idx s.workers
    → invoke wakeup_workers s ≡ some u
    → (n : ℕ) × (t : System) × Runs u n zero t
      × All (λ w. w.pc ≡ in_callback) t.workers
      × (since_of t.workers ≡ since_of s.workers)
unfolding step method_calls
wakeup_workers-together s {u} r all e =
    let (at, todo, alive, end) = invoke-some wakeup_workers s e in
    let v = Reach-Inv r in
    let b = v.balanced in
    let serving = Inv-Serving s v todo alive in
    let active = s.barrier.active_sem_idx in
    let full : s.barrier.on_barrier ≡ s.barrier.no_threads = omega (
      arith,
      b.counted,
      blocked-total active s.workers all,
      serving.all_expected,
      length-map s.workers (λ w. w.thread_running),
    ) in
    let first : step controller u ≡ some (signalling s) =
      subst (λ u. step controller u ≡ some (signalling s)) end
        (begins_to_signal s at (b.held ∙ ap is_posting at) full) in
    let called = later r (act (call wakeup_workers) e) in
    let (n, t, run, p) =
      post_all s.barrier.no_threads active u (signalling s) 1 (own controller begins tt first)
        refl in
    let start : Starts (since_of s.workers) t = record {
      at = p.ended;
      going = p.running ∙ serving.pool_running;
      all = subst (All (Released t.barrier.active_sem_idx)) (sym p.workers) (
          AllBlocked-Released active t.barrier.active_sem_idx s.workers
            (omega (arith, p.active, b.index)) all serving.all_running);
      same = ap since_of p.workers;
    } in
    start_workers (total steps_before t.workers + 1) (since_of s.workers) u t n called run start
      (omega arith)
