-- ===== src/Threads/Waiting.antt =====
-- About the methods of WorkerPoolImpl that end in a wait for the workers
-- (src/worker_pool_implementation.h): how they return.
use twine.Prelude.{ℕ, ◌≡◌, inl, inr, subst, some, [], arith, All, length}
use twine.Calls.{Method, add_worker, added, wait_for_workers_idle, wakeup_and_wait, method_calls}
use twine.Threads.{System, ready, step, spurious, call, invoke, Reach, later, act}
use twine.Threads.Invariant.{invoke-some}
use twine.Threads.Orderly.Defs.{AllBlocked}
use twine.Threads.Safety.{IsIdle, AllBlocked-IsIdle}
use twine.Threads.Effects.{Own-IsInner}
use twine.Threads.Returns.{Runs, begins, own, spurs, Runs-Reach}
use twine.Threads.Settling.{EndsInWait, Settles, step-Settles}

Runs-Settles : {s t : System} {n k : ℕ} → Reach s → Runs s n k t → Settles s → Settles t
Runs-Settles r begins h = h
Runs-Settles r (own {t = u} a run o e) h =
    step-Settles a u (Own-IsInner a o) (Runs-Reach r run) e (Runs-Settles r run h)
Runs-Settles r (spurs {t = u} run e) h =
    step-Settles spurious u tt (Runs-Reach r run) e (Runs-Settles r run h)

settled_at :
    (t : System)
    → t.control ≡ ready
    → t.calls ≡ []
    → Settles t
    → AllBlocked t.barrier.active_sem_idx t.workers
settled_at t at todo (inl h) = elim (subst EndsInWait todo h) [ ]
settled_at t at todo (inr (_, _, all)) = all at

-- The methods that wait for the workers before they return.
abbrev pub IsWaiting : Method → Type 0
IsWaiting (add_worker added) = Unit {0}
IsWaiting wait_for_workers_idle = Unit {0}
IsWaiting wakeup_and_wait = Unit {0}
IsWaiting _ = ⊥

method_calls-EndsInWait : (m : Method) (n : ℕ) → IsWaiting m → EndsInWait (method_calls n m)
unfolding method_calls
method_calls-EndsInWait m n h = ground (arith, h)

-- When `wait_for_workers_idle`, `wakeup_and_wait` or an `add_worker` that adds a worker has returned,
-- every worker of the pool is idle: it is blocked on the active semaphore, with a callback for each
-- release since it was created.
pub waiting_methods-IsIdle :
    (m : Method) (s : System) {u t : System} {n k : ℕ}
    → Reach s
    → IsWaiting m
    → invoke m s ≡ some u
    → Runs u n k t
    → t.control ≡ ready
    → t.calls ≡ []
    → All (IsIdle t) t.workers
unfolding step
waiting_methods-IsIdle m s {u} {t} r h e run at todo =
    let called : Settles u =
      subst Settles (invoke-some m s e).3 (inl (method_calls-EndsInWait m (length s.workers) h)) in
    let reached = Runs-Reach (later r (act (call m) e)) run in
    AllBlocked-IsIdle reached
      (settled_at t at todo (Runs-Settles (later r (act (call m) e)) run called))
