-- ===== src/Threads/Examples/Schedules.antt =====
-- Tests of whole schedules of a pool of two workers (src/worker_pool_implementation.h): two ways to wake
-- them and to wait for them, and the destructor.
use twine.Prelude.{◌≡◌, ◌≤◌, ◌⊎◌, ◌+◌, zero, refl, true, ℕ, ◌-◌, ◌↔◌, List, [], ◌∷◌, All}
use twine.Barrier
use twine.Barrier.{
  sem_value, all_on_barrier, wait, must_wait, begin_release, semaphore_wait, semaphore_signal,
}
use twine.Worker.{worker_step, blocked, exited, in_callback}
use twine.Calls.{wakeup_and_wait, wakeup_workers, wait_for_workers_idle, destroy, method_calls}
use twine.Threads.{
  System, start, ready, Action, worker, controller, spurious, call, step, control_step, thread_step,
  drive, invoke, check_all, wake, release,
}
use twine.Threads.Invariant.Defs.{left_of}
use twine.Threads.Progress.{CanStep}
use twine.Threads.Termination.{measure}
use twine.Threads.Returns.{Runs, begins, Returned, returned}
use twine.Threads.Fate.{now, since_of}
use twine.Threads.Together.{wakeup_workers-together}
use twine.Threads.Unchecked.{release_unchecked, release_unchecked-surplus}
use twine.Threads.Effects.{method_effect}
use twine.Threads.Settled.{settled}
use twine.Threads.Determined.{waiting_methods-settled, wakeup_workers-wait_for_workers_idle}
use twine.Threads.Completion.{idle_methods_complete}
use twine.Threads.Destructor.{Within, destroy-Within}
use twine.Threads.Bounds.{counters-bound}
use twine.Threads.Examples.{Trace, follow, two_workers, all_idle, destroying}
use twine.Threads.Examples.Returning.{Going, walk, woken_and_done}

-- A round of a worker: from its semaphore through its callback and back to the barrier.
abbrev round_of : Action → List Action → List Action
round_of a rest = a ∷ a ∷ a ∷ a ∷ rest

-- `wakeup_workers`, up to its return.
abbrev releasing : List Action
releasing = controller ∷ controller ∷ controller ∷ controller ∷ []

abbrev woken : Trace
woken = follow (call wakeup_workers ∷ []) two_workers

abbrev woken_only : Going woken.0
woken_only = walk releasing (zero, zero, woken.0, begins)

abbrev waiting : Trace
waiting = follow (call wait_for_workers_idle ∷ []) (follow releasing woken)

-- The workers run one after the other, the second of them first.
abbrev waited : Going waiting.0
waited =
    walk
      (controller
        ∷ round_of (worker 1) (spurious ∷ controller ∷ round_of (worker 0) (controller ∷ [])))
      (zero, zero, waiting.0, begins)

woken-Returned : Returned wakeup_workers two_workers.0 woken_only.2
unfolding step start control_step drive thread_step invoke method_calls Barrier.set_no_threads
    all_on_barrier check_all worker_step wait wake must_wait release begin_release semaphore_wait
    semaphore_signal
woken-Returned = returned refl woken_only.3 refl refl

waited-Returned : Returned wait_for_workers_idle woken_only.2 waited.2
unfolding step start control_step drive thread_step invoke method_calls Barrier.set_no_threads
    all_on_barrier check_all worker_step wait wake must_wait release begin_release semaphore_wait
    semaphore_signal
waited-Returned = returned refl waited.3 refl refl

both-Returned : Returned wakeup_and_wait two_workers.0 woken_and_done.2
unfolding step start control_step drive thread_step invoke method_calls Barrier.set_no_threads
    all_on_barrier check_all worker_step wait wake must_wait release begin_release semaphore_wait
    semaphore_signal
both-Returned = returned refl woken_and_done.3 refl refl

waiting_methods-settled_example :
    woken_and_done.2 ≡ settled (method_effect wakeup_and_wait (now two_workers.0))
unfolding step start control_step drive thread_step invoke method_calls Barrier.set_no_threads
    all_on_barrier check_all worker_step wait wake must_wait release begin_release semaphore_wait
    semaphore_signal
waiting_methods-settled_example =
    waiting_methods-settled wakeup_and_wait two_workers.0 two_workers.1 tt both-Returned

wakeup_workers-wait_for_workers_idle_example : waited.2 ≡ woken_and_done.2
unfolding step start control_step drive thread_step invoke method_calls Barrier.set_no_threads
    all_on_barrier check_all worker_step wait wake must_wait release begin_release semaphore_wait
    semaphore_signal
wakeup_workers-wait_for_workers_idle_example =
    wakeup_workers-wait_for_workers_idle two_workers.0 two_workers.1 woken-Returned waited-Returned
      both-Returned

-- The destructor, called while the workers still run their callbacks: they finish them, and one of the
-- workers has left its loop.
abbrev closing : Trace
closing = follow (call destroy ∷ []) (follow releasing woken)

abbrev half_closed : Going closing.0
half_closed =
    walk
      (controller
        ∷ round_of (worker 1) (
            round_of (worker 0) (
              controller
              ∷ controller
              ∷ controller
              ∷ controller
              ∷ controller
              ∷ worker 0
              ∷ worker 0
              ∷ [])))
      (zero, zero, closing.0, begins)

destroy-Within_example : All (Within 1) half_closed.2.workers
unfolding step start control_step drive thread_step invoke method_calls Barrier.set_no_threads
    all_on_barrier check_all worker_step wait wake must_wait release begin_release semaphore_wait
    semaphore_signal
destroy-Within_example =
    destroy-Within (follow releasing woken).0 (follow releasing woken).1 refl half_closed.3

-- The destructor, called while the workers are idle, up to the first of its signals.
abbrev half_idle : Going destroying.0
half_idle =
    walk (controller ∷ controller ∷ controller ∷ controller ∷ []) (zero, zero, destroying.0, begins)

test_idle_methods_complete :
    (((half_idle.2.control ≡ ready) × (half_idle.2.calls ≡ [])) ⊎ CanStep half_idle.2)
    × (4 ≤ measure destroying.0 + 0)
unfolding step start control_step drive thread_step invoke method_calls Barrier.set_no_threads
    all_on_barrier check_all worker_step wait wake must_wait release begin_release semaphore_wait
    semaphore_signal
test_idle_methods_complete =
    idle_methods_complete destroy all_idle.0 all_idle.1 (refl, (refl, tt)) refl half_idle.3

counters-bound_example :
    (woken_only.2.barrier.on_barrier
        + woken_only.2.barrier.sem_0
        + woken_only.2.barrier.sem_1
        + left_of woken_only.2.control
      ≤ 2)
    × (sem_value woken_only.2.barrier 1 ≡ 0)
unfolding step start control_step drive thread_step invoke method_calls Barrier.set_no_threads
    all_on_barrier check_all worker_step wait wake must_wait release begin_release semaphore_wait
    semaphore_signal
counters-bound_example = counters-bound (follow releasing woken).1

test_half_closed :
    half_closed.2.workers
    ≡ record { pc = exited; thread_running = true; calls = 1; since = 0 }
      ∷ record { pc = blocked 1; thread_running = true; calls = 1; since = 0 }
      ∷ []
unfolding step start control_step drive thread_step invoke method_calls Barrier.set_no_threads
    all_on_barrier check_all worker_step wait wake must_wait release begin_release semaphore_wait
    semaphore_signal
test_half_closed = refl

wakeup_workers-together_example :
    (n : ℕ) × (t : System) × Runs woken.0 n 0 t
    × All (λ w. w.pc ≡ in_callback) t.workers
    × (since_of t.workers ≡ since_of two_workers.0.workers)
unfolding step start control_step drive thread_step invoke method_calls Barrier.set_no_threads
    all_on_barrier check_all worker_step wait wake must_wait release begin_release semaphore_wait
    semaphore_signal
wakeup_workers-together_example =
    wakeup_workers-together two_workers.0 two_workers.1 (refl, (refl, tt)) refl

-- Both workers are still to run their callbacks: a wakeup would leave both its signals behind.
release_unchecked-surplus_example :
    (sem_value (release_unchecked (follow releasing woken).0.barrier) 1 ≡ 0 + (2 - 0))
    × ((sem_value (release_unchecked (follow releasing woken).0.barrier) 1 ≡ 0) ↔ (◌≡◌ {A = ℕ} 0 2))
unfolding step start control_step drive thread_step invoke method_calls Barrier.set_no_threads
    all_on_barrier check_all worker_step wait wake must_wait release begin_release semaphore_wait
    semaphore_signal
release_unchecked-surplus_example =
    release_unchecked-surplus (follow releasing woken).1 refl refl refl
