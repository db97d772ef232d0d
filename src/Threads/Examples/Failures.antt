-- ===== src/Threads/Examples/Failures.antt =====
-- Tests of a failed initialisation (src/worker_pool_implementation.h): the second worker of a pool cannot
-- be initialised.
use twine.Prelude.{◌≡◌, ◌+◌, ◌++◌, zero, refl, List, [], ◌∷◌, map}
use twine.Barrier
use twine.Barrier.{all_on_barrier, wait, must_wait, begin_release, semaphore_wait, semaphore_signal}
use twine.Worker.{worker_step, stop_thread}
use twine.Calls.{add_worker, init_failed, wait_for_workers_idle, method_calls}
use twine.Threads.{
  start, Action, worker, controller, call, step, control_step, thread_step, drive, invoke,
  check_all, wake, release, stop_head, join_head, begun,
}
use twine.Threads.Returns.{begins, returned, Runs-Reach}
use twine.Threads.Fate.{since_of}
use twine.Threads.Failure.{init_failed-calls}
use twine.Threads.Examples.{Trace, follow, add_one}
use twine.Threads.Examples.Returning.{Going, walk}

abbrev one_worker : Trace
one_worker = follow add_one (start, begun)

abbrev failing : Trace
failing = follow (call (add_worker init_failed) ∷ []) one_worker

abbrev turns : List Action
turns = worker 0 ∷ worker 1 ∷ controller ∷ controller ∷ []

abbrev failed : Going failing.0
failed =
    walk (turns ++ (turns ++ (turns ++ (turns ++ (turns ++ turns)))))
      (zero, zero, failing.0, begins)

abbrev waiting : Trace
waiting = follow (call wait_for_workers_idle ∷ []) (failed.2, Runs-Reach failing.1 failed.3)

abbrev idle_again : Going waiting.0
idle_again = walk (turns ++ (turns ++ turns)) (zero, zero, waiting.0, begins)

init_failed-calls_example :
    (since_of idle_again.2.workers ≡ since_of one_worker.0.workers)
    × (map (λ w. w.calls) idle_again.2.workers ≡ map (λ w. w.calls + 1) one_worker.0.workers)
unfolding step start control_step drive thread_step invoke method_calls Barrier.set_no_threads
    all_on_barrier check_all worker_step wait wake must_wait release begin_release semaphore_wait
    semaphore_signal stop_head stop_thread join_head
init_failed-calls_example =
    init_failed-calls one_worker.0 one_worker.1 ((refl, refl), tt)
      (returned refl failed.3 refl refl) (returned refl idle_again.3 refl refl)

test_woken_for_nothing : map (λ w. w.calls) idle_again.2.workers ≡ 1 ∷ []
unfolding step start control_step drive thread_step invoke method_calls Barrier.set_no_threads
    all_on_barrier check_all worker_step wait wake must_wait release begin_release semaphore_wait
    semaphore_signal stop_head stop_thread join_head
test_woken_for_nothing = refl
