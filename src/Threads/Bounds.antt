-- ===== src/Threads/Bounds.antt =====
-- About the semaphores and the counter of BarrierWithTrigger (src/worker_pool_implementation.h): how
-- large they become.
use twine.Prelude.{ℕ, ◌+◌, ◌-◌, ◌≤◌, ◌≡◌, List, [], ◌∷◌, arith, length, total}
use twine.Barrier.{sem_value}
use twine.Worker.{Worker}
use twine.Threads.{System, Reach}
use twine.Threads.Invariant.Defs.{on_sem, left_of}
use twine.Threads.Invariant.{Reach-Inv}

-- A worker is on one semaphore at most.
on_one : (idx other : ℕ) (w : Worker) → idx + other ≡ 1 → on_sem idx w + on_sem other w ≤ 1
on_one idx other w h = ground (arith, h)

on_both :
    (idx other : ℕ) (ws : List Worker)
    → idx + other ≡ 1
    → total (on_sem idx) ws + total (on_sem other) ws ≤ length ws
on_both idx other [] h = omega arith
on_both idx other (w ∷ ws) h = omega (arith, on_one idx other w h, on_both idx other ws h)

-- In every reachable state the threads that the barrier counts, the value of each of its two semaphores and
-- the signals that a release has still to make come to no more than there are workers: no counter of the
-- barrier grows from release to release. The semaphore that the next workers will wait for is at 0.
pub counters-bound :
    {s : System}
    → Reach s
    → (s.barrier.on_barrier + s.barrier.sem_0 + s.barrier.sem_1 + left_of s.control
        ≤ length s.workers)
      × (sem_value s.barrier s.barrier.active_sem_idx ≡ 0)
counters-bound {s} r =
    let b = (Reach-Inv r).balanced in
    let both =
      on_both s.barrier.active_sem_idx (1 - s.barrier.active_sem_idx) s.workers
        (omega (arith, b.index)) in
    (ground (arith, b.index, b.counted, b.fresh, b.owed, both), b.fresh)
