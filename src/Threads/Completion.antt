-- ===== src/Threads/Completion.antt =====
-- About the methods of WorkerPoolImpl (src/worker_pool_implementation.h), called while the workers are
-- idle: whether every schedule leads to their return.
use twine.Prelude.{ℕ, ◌+◌, ◌≤◌, ◌≡◌, ◌≢◌, ◌⊎◌, inl, inr, refl, some, [], arith}
use twine.Calls.{Method}
use twine.Threads.{System, ready, aborted, call, step, invoke, Reach, later, act}
use twine.Threads.Orderly.Defs.{AllBlocked}
use twine.Threads.Progress.{CanStep, no_deadlock}
use twine.Threads.Termination.{measure}
use twine.Threads.Returns.{Runs, Runs-Reach, runs_bounded, returned_cases}
use twine.Threads.Success.{idle_methods_never_abort}

-- A method that is running has returned, or it can go on.
pub returned_or_CanStep :
    (t : System)
    → Reach t
    → t.control ≢ aborted
    → ((t.control ≡ ready) × (t.calls ≡ [])) ⊎ CanStep t
returned_or_CanStep t r live = elim (returned_cases t.control t.calls t refl refl) [
  | inl (inl gone) ↦ absurd (live gone)
  | inl (inr done) ↦ inl done
  | inr busy ↦ inr (no_deadlock r busy.0 busy.1)
]

-- Every method that the client calls while the workers are idle returns, under every schedule: however it
-- has run so far, it has returned, or the controller or some worker has a step of its own to make; and the
-- steps that they make are at most as many as the measure of the state after the call says, and one more
-- for each spurious wakeup.
pub idle_methods_complete :
    (m : Method) (s : System) {u t : System} {n k : ℕ}
    → Reach s
    → AllBlocked s.barrier.active_sem_idx s.workers
    → invoke m s ≡ some u
    → Runs u n k t
    → (((t.control ≡ ready) × (t.calls ≡ [])) ⊎ CanStep t) × (n ≤ measure u + k)
unfolding step
idle_methods_complete m s {u} {t} r all e run =
    let called = later r (act (call m) e) in
    let live = idle_methods_never_abort m s r all e run in
    (returned_or_CanStep t (Runs-Reach called run) live, omega (arith, runs_bounded called run))
