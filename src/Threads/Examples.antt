-- ===== src/Threads/Examples.antt =====
-- Tests of the threads: schedules of a pool of two workers.
mod Returning
mod Sessions
mod Failures
mod Schedules
mod Protocols
use twine.Prelude.{
  true, false, ◌≡◌, ◌≢◌, ◌⊎◌, ◌<◌, ◌≤◌, ◌+◌, ◌-◌, ℕ, inl, inr, refl, Option, none, some, List, [],
  ◌∷◌, ◌++◌, All,
}
use twine.Worker.{in_callback, woken, stop_thread, worker_step, blocked, exited}
use twine.Calls.{
  add_worker, added, init_failed, wakeup_and_wait, wakeup_workers, method_calls, destroy,
}
use twine.Threads.{
  System, start, ready, cond_wait, aborted, Action, worker, controller, spurious, call, step, act,
  Reach, begun, later, control_step, thread_step, drive, invoke, check_all, wake, release,
  stop_head,
}
use twine.Barrier
use twine.Barrier.{all_on_barrier, wait, must_wait, begin_release, semaphore_wait, semaphore_signal}
use twine.Threads.Invariant.Defs.{Inv}
use twine.Threads.Invariant.{Reach-Inv, Step-Inv}
use twine.Threads.Orderly.Defs.{Orderly}
use twine.Threads.Orderly.{Reach-Orderly}
use twine.Threads.Safety.{
  callbacks_in_step, IsIdle, wait_ends-IsIdle, idle_stuck, IsWakeup, abort_cause,
}
use twine.Threads.Progress.{CanStep, no_deadlock}
use twine.Threads.Termination.{measure}
use twine.Threads.Returns.{Runs, begins, own, runs_bounded, HasReturned, method_returns}

ready≢aborted : ready ≢ aborted
ready≢aborted e = cc

cond_wait≢aborted : cond_wait ≢ aborted
cond_wait≢aborted e = cc

cond_wait≢ready : cond_wait ≢ ready
cond_wait≢ready e = cc

abbrev pub Trace : Type 0
Trace = (s : System) × Reach s

abbrev pub look : (o : Option System) → (o ≡ none) ⊎ ((s : System) × (o ≡ some s))
look none = inl refl
look (some s) = inr (s, refl)

-- The state after a schedule. An action that is not possible is passed over.
abbrev pub follow : List Action → Trace → Trace
follow [] at = at
follow (a ∷ rest) at = elim (look (step a at.0)) [
  | inl e ↦ follow rest at
  | inr (t, e) ↦ follow rest (t, later at.1 (act a e))
]

abbrev pub add_one : List Action
add_one =
    call (add_worker added) ∷ controller ∷ controller ∷ controller ∷ worker 0 ∷ controller ∷ []

abbrev pub two_workers : Trace
two_workers = follow (add_one ++ add_one) (start, begun)

-- `wakeup_and_wait` has signalled both workers and waits; the first is in its callback.
abbrev in_round : Trace
in_round =
    follow
      (call wakeup_and_wait
        ∷ controller
        ∷ controller
        ∷ controller
        ∷ controller
        ∷ worker 0
        ∷ worker 0
        ∷ [])
      two_workers

abbrev finish_round : List Action
finish_round =
    worker 0 ∷ worker 0 ∷ worker 1 ∷ worker 1 ∷ spurious ∷ controller ∷ worker 1 ∷ worker 1 ∷ []

abbrev round_done : Trace
round_done = follow finish_round in_round

abbrev pub all_idle : Trace
all_idle = follow (controller ∷ []) round_done

test_idle :
    all_idle.0.workers
    ≡ record { pc = blocked 1; thread_running = true; calls = 1; since = 0 }
      ∷ record { pc = blocked 1; thread_running = true; calls = 1; since = 0 }
      ∷ []
unfolding step start control_step drive thread_step invoke method_calls Barrier.set_no_threads
    all_on_barrier check_all worker_step wait wake must_wait release begin_release semaphore_wait
    semaphore_signal
test_idle = refl

callbacks_in_step_example :
    ((in_callback ≢ exited) × (0 + 1 ≡ in_round.0.rounds))
    ⊎ (((in_callback ≡ woken) ⊎ (in_callback ≡ blocked (1 - in_round.0.barrier.active_sem_idx)))
        × (0 + 1 + 1 ≡ in_round.0.rounds))
    ⊎ ((in_callback ≡ exited) × (0 + 1 < in_round.0.rounds))
unfolding step start control_step drive thread_step invoke method_calls Barrier.set_no_threads
    all_on_barrier check_all worker_step wait wake must_wait release begin_release semaphore_wait
    semaphore_signal
callbacks_in_step_example =
    callbacks_in_step in_round.1 0
      (record { pc = in_callback; thread_running = true; calls = 1; since = 0 }) refl

test_wait_ends-IsIdle : All (IsIdle all_idle.0) all_idle.0.workers
unfolding step start control_step drive thread_step invoke method_calls Barrier.set_no_threads
    all_on_barrier check_all worker_step wait wake must_wait release begin_release semaphore_wait
    semaphore_signal
test_wait_ends-IsIdle = wait_ends-IsIdle round_done.1 tt refl refl

test_idle_stuck : thread_step 1 all_idle.0 ≡ none
unfolding step start control_step drive thread_step invoke method_calls Barrier.set_no_threads
    all_on_barrier check_all worker_step wait wake must_wait release begin_release semaphore_wait
    semaphore_signal
test_idle_stuck = idle_stuck all_idle.1 (refl, (refl, tt)) 1

Step-Inv_example : Inv all_idle.0
unfolding step start control_step drive thread_step invoke method_calls Barrier.set_no_threads
    all_on_barrier check_all worker_step wait wake must_wait release begin_release semaphore_wait
    semaphore_signal
Step-Inv_example = Step-Inv (act controller refl) (Reach-Inv round_done.1)

test_Reach-Orderly : Orderly in_round.0
unfolding step start control_step drive thread_step invoke method_calls Barrier.set_no_threads
    all_on_barrier check_all worker_step wait wake must_wait release begin_release semaphore_wait
    semaphore_signal
test_Reach-Orderly = Reach-Orderly in_round.1

-- The client calls `wakeup_workers` twice, and does not wait for the workers to be idle in between.
abbrev hasty : Trace
hasty =
    follow
      (call wakeup_workers
        ∷ controller
        ∷ controller
        ∷ controller
        ∷ controller
        ∷ call wakeup_workers
        ∷ [])
      two_workers

abbrev refused : Trace
refused = follow (controller ∷ []) hasty

abort_cause_example : IsWakeup hasty.0.calls × (hasty.0.barrier.on_barrier ≢ 2)
unfolding step start control_step drive thread_step invoke method_calls Barrier.set_no_threads
    all_on_barrier check_all worker_step wait wake must_wait release begin_release semaphore_wait
    semaphore_signal
abort_cause_example = abort_cause hasty.1 ready≢aborted refl refl

no_deadlock_example : CanStep in_round.0
unfolding step start control_step drive thread_step invoke method_calls Barrier.set_no_threads
    all_on_barrier check_all worker_step wait wake must_wait release begin_release semaphore_wait
    semaphore_signal
no_deadlock_example = no_deadlock in_round.1 cond_wait≢aborted (inl cond_wait≢ready)

-- The destructor, called while the workers are idle.
abbrev pub destroying : Trace
destroying = follow (call destroy ∷ []) all_idle

abbrev two_steps : Runs destroying.0 2 0 (follow (controller ∷ controller ∷ []) destroying).0
unfolding step start control_step drive thread_step invoke method_calls Barrier.set_no_threads
    all_on_barrier check_all worker_step wait wake must_wait release begin_release semaphore_wait
    semaphore_signal
two_steps = own controller (own controller begins tt refl) tt refl

test_runs_bounded :
    2 + measure (follow (controller ∷ controller ∷ []) destroying).0 ≤ measure destroying.0 + 0
unfolding step start control_step drive thread_step invoke method_calls Barrier.set_no_threads
    all_on_barrier check_all worker_step wait wake must_wait release begin_release semaphore_wait
    semaphore_signal
test_runs_bounded = runs_bounded destroying.1 two_steps

test_method_returns :
    (n : ℕ) × (t : System) × Runs destroying.0 n 0 t × HasReturned t × (n ≤ measure destroying.0)
unfolding step start control_step drive thread_step invoke method_calls Barrier.set_no_threads
    all_on_barrier check_all worker_step wait wake must_wait release begin_release semaphore_wait
    semaphore_signal
test_method_returns = method_returns destroying.1

-- A worker whose initialisation fails: the release that lets it go also lets the other worker go, whose
-- callback runs once though no client woke it.
abbrev failed_start : Trace
failed_start =
    follow
      (call (add_worker init_failed)
        ∷ controller
        ∷ controller
        ∷ controller
        ∷ worker 0
        ∷ controller
        ∷ controller
        ∷ controller
        ∷ controller
        ∷ controller
        ∷ controller
        ∷ worker 0
        ∷ worker 0
        ∷ worker 1
        ∷ worker 1
        ∷ [])
      (follow add_one (start, begun))

test_failed_start :
    failed_start.0.workers
    ≡ record { pc = exited; thread_running = false; calls = 0; since = 0 }
      ∷ record { pc = in_callback; thread_running = true; calls = 1; since = 0 }
      ∷ []
unfolding step start control_step drive thread_step invoke method_calls Barrier.set_no_threads
    all_on_barrier check_all worker_step wait wake must_wait release begin_release semaphore_wait
    semaphore_signal stop_head stop_thread
test_failed_start = refl
