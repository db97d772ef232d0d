-- ===== src/Threads/Examples/Protocols.antt =====
-- Tests of a client that wakes the workers only when they are idle (src/worker_pool_implementation.h): it
-- adds a worker, wakes it, and destroys the pool while the worker may still be running.
use twine.Prelude.{◌≡◌, ◌≢◌, ◌≤◌, ◌⊎◌, ◌+◌, zero, refl, true, false, [], ◌∷◌}
use twine.Barrier
use twine.Barrier.{all_on_barrier, wait, must_wait, begin_release, semaphore_wait, semaphore_signal}
use twine.Worker.{worker_step}
use twine.Calls.{add_worker, added, wakeup_workers, destroy, method_calls}
use twine.Threads.{
  start, ready, aborted, worker, controller, call, step, control_step, thread_step, drive, invoke,
  check_all, wake, release,
}
use twine.Threads.Termination.{measure}
use twine.Threads.Progress.{CanStep}
use twine.Threads.Returns.{begins, returned}
use twine.Threads.Protocol.{Conforms, opened, has_called, conforming_calls_complete}
use twine.Threads.Examples.{Trace, follow}
use twine.Threads.Examples.Returning.{Going, walk}
use twine.Threads.Examples.Sessions.{adding, added_one}

has_added : Conforms true added_one.2
unfolding step start control_step drive thread_step invoke method_calls Barrier.set_no_threads
    all_on_barrier check_all worker_step wait wake must_wait release begin_release semaphore_wait
    semaphore_signal
has_added = has_called (add_worker added) opened tt (returned refl added_one.3 refl refl) true refl

abbrev waking_one : Trace
waking_one =
    follow (controller ∷ controller ∷ controller ∷ worker 0 ∷ controller ∷ call wakeup_workers ∷ [])
      adding

abbrev woken_one : Going waking_one.0
woken_one = walk (controller ∷ controller ∷ controller ∷ []) (zero, zero, waking_one.0, begins)

has_woken : Conforms false woken_one.2
unfolding step start control_step drive thread_step invoke method_calls Barrier.set_no_threads
    all_on_barrier check_all worker_step wait wake must_wait release begin_release semaphore_wait
    semaphore_signal
has_woken =
    has_called wakeup_workers has_added refl (returned refl woken_one.3 refl refl) false refl

abbrev leaving : Trace
leaving = follow (controller ∷ controller ∷ controller ∷ call destroy ∷ []) waking_one

-- The destructor waits for the worker, which is about to call back.
abbrev waiting_there : Going leaving.0
waiting_there = walk (controller ∷ worker 0 ∷ []) (zero, zero, leaving.0, begins)

conforming_calls_complete_example :
    (waiting_there.2.control ≢ aborted)
    × (((waiting_there.2.control ≡ ready) × (waiting_there.2.calls ≡ [])) ⊎ CanStep waiting_there.2)
    × (2 ≤ measure leaving.0 + 0)
unfolding step start control_step drive thread_step invoke method_calls Barrier.set_no_threads
    all_on_barrier check_all worker_step wait wake must_wait release begin_release semaphore_wait
    semaphore_signal
conforming_calls_complete_example =
    conforming_calls_complete false destroy woken_one.2 has_woken tt refl waiting_there.3
