-- ===== src/Threads/Examples/Returning.antt =====
-- Tests of methods that return (src/worker_pool_implementation.h), in a pool of two workers.
use twine.Prelude.{◌≡◌, ◌≤◌, ◌+◌, ◌*◌, ℕ, zero, suc, inl, inr, refl, List, [], ◌∷◌, All, map}
use twine.Barrier
use twine.Barrier.{all_on_barrier, wait, must_wait, begin_release, semaphore_wait, semaphore_signal}
use twine.Worker.{worker_step}
use twine.Calls.{wakeup_and_wait, method_calls}
use twine.Threads.{
  System, start, Action, worker, controller, spurious, call, act, step, control_step, thread_step,
  drive, invoke, check_all, wake, release,
}
use twine.Threads.Safety.{IsIdle}
use twine.Threads.Returns.{Runs, begins, own, spurs, returned}
use twine.Threads.Fate.{now}
use twine.Threads.Effects.{method_effect, method_effects}
use twine.Threads.Waiting.{waiting_methods-IsIdle}
use twine.Threads.Rounds.{no_round, then_round, Rounds-calls, wakeup_and_wait-bound}
use twine.Threads.Contract.{Allows, Follows, tasks}
use twine.Threads.Contract.Refinement.{Reach-Allows, Step-Follows}
use twine.Threads.Examples.{Trace, look, follow, two_workers, all_idle}

abbrev pub Going : System → Type 0
Going s = (n : ℕ) × (k : ℕ) × (t : System) × Runs s n k t

-- The run that a schedule makes. An action that is not possible is passed over.
abbrev pub walk : {s : System} → List Action → Going s → Going s
walk [] at = at
walk (worker i ∷ rest) (n, k, t, run) = elim (look (step (worker i) t)) [
  | inl e ↦ walk rest (n, k, t, run)
  | inr (u, e) ↦ walk rest (suc n, k, u, own (worker i) run tt e)
]
walk (controller ∷ rest) (n, k, t, run) = elim (look (step controller t)) [
  | inl e ↦ walk rest (n, k, t, run)
  | inr (u, e) ↦ walk rest (suc n, k, u, own controller run tt e)
]
walk (spurious ∷ rest) (n, k, t, run) = elim (look (step spurious t)) [
  | inl e ↦ walk rest (n, k, t, run)
  | inr (u, e) ↦ walk rest (n, suc k, u, spurs run e)
]
walk (call m ∷ rest) at = walk rest at

abbrev pub waking : Trace
waking = follow (call wakeup_and_wait ∷ []) two_workers

-- Both workers run their callback, with a spurious wakeup of the controller in between.
abbrev one_round : List Action
one_round =
    controller
    ∷ controller
    ∷ controller
    ∷ controller
    ∷ worker 0
    ∷ worker 0
    ∷ spurious
    ∷ controller
    ∷ worker 1
    ∷ worker 0
    ∷ worker 0
    ∷ worker 1
    ∷ worker 1
    ∷ worker 1
    ∷ controller
    ∷ []

abbrev pub woken_and_done : Going waking.0
woken_and_done = walk one_round (zero, zero, waking.0, begins)

test_round : map (λ w. w.calls) woken_and_done.2.workers ≡ 1 ∷ 1 ∷ []
unfolding step start control_step drive thread_step invoke method_calls Barrier.set_no_threads
    all_on_barrier check_all worker_step wait wake must_wait release begin_release semaphore_wait
    semaphore_signal
test_round = refl

Rounds-calls_example :
    All (IsIdle woken_and_done.2) woken_and_done.2.workers
    × (map (λ w. w.calls) woken_and_done.2.workers ≡ map (λ w. w.calls + 1) two_workers.0.workers)
unfolding step start control_step drive thread_step invoke method_calls Barrier.set_no_threads
    all_on_barrier check_all worker_step wait wake must_wait release begin_release semaphore_wait
    semaphore_signal
Rounds-calls_example =
    Rounds-calls two_workers.0 two_workers.1 ((refl, refl), ((refl, refl), tt))
      (then_round no_round (returned refl woken_and_done.3 refl refl))

test_waiting_methods-IsIdle : All (IsIdle woken_and_done.2) woken_and_done.2.workers
unfolding step start control_step drive thread_step invoke method_calls Barrier.set_no_threads
    all_on_barrier check_all worker_step wait wake must_wait release begin_release semaphore_wait
    semaphore_signal
test_waiting_methods-IsIdle =
    waiting_methods-IsIdle wakeup_and_wait two_workers.0 two_workers.1 tt refl woken_and_done.3 refl
      refl

method_effects_example : now woken_and_done.2 ≡ method_effect wakeup_and_wait (now two_workers.0)
unfolding step start control_step drive thread_step invoke method_calls Barrier.set_no_threads
    all_on_barrier check_all worker_step wait wake must_wait release begin_release semaphore_wait
    semaphore_signal
method_effects_example =
    method_effects wakeup_and_wait two_workers.0 refl woken_and_done.3 refl refl

test_Reach-Allows : Allows 1 (tasks all_idle.0)
unfolding step start control_step drive thread_step invoke method_calls Barrier.set_no_threads
    all_on_barrier check_all worker_step wait wake must_wait release begin_release semaphore_wait
    semaphore_signal
test_Reach-Allows = Reach-Allows all_idle.1

-- The round of two workers takes all of its steps, with one spurious wakeup.
wakeup_and_wait-bound_example : 14 ≤ 6 * 2 + 2 + 1
unfolding step start control_step drive thread_step invoke method_calls Barrier.set_no_threads
    all_on_barrier check_all worker_step wait wake must_wait release begin_release semaphore_wait
    semaphore_signal
wakeup_and_wait-bound_example =
    wakeup_and_wait-bound two_workers.0 two_workers.1 ((refl, refl), ((refl, refl), tt)) refl
      woken_and_done.3

-- The release of the round.
abbrev released_two : Trace
released_two = follow (controller ∷ []) waking

Step-Follows_example :
    Follows waking.0.rounds (tasks waking.0) released_two.0.rounds (tasks released_two.0)
unfolding step start control_step drive thread_step invoke method_calls Barrier.set_no_threads
    all_on_barrier check_all worker_step wait wake must_wait release begin_release semaphore_wait
    semaphore_signal
Step-Follows_example = Step-Follows waking.1 (act controller refl)
