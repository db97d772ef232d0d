-- ===== src/Threads/Unchecked.antt =====
-- About release_all of BarrierWithTrigger (src/worker_pool_implementation.h) in a build with NDEBUG, which
-- has no assertions.
use twine.Prelude.{
  ℕ, zero, suc, ◌+◌, ◌-◌, ◌≤◌, ◌≡◌, ◌↔◌, ◌∙◌, refl, false, [], arith, length, length-map, total,
}
use twine.Barrier
use twine.Barrier.{Barrier, sem_value}
use twine.Threads.{System, ready, Reach}
use twine.Threads.Invariant.Defs.{on_sem}
use twine.Threads.Invariant.{Reach-Inv, Inv-Serving, total-on_sem-le, semaphore_signal-active}

-- The loop of signals.
signal_times : ℕ → ℕ → Barrier → Barrier
signal_times idx zero b = b
signal_times idx (suc n) b = signal_times idx n (Barrier.semaphore_signal b idx)

-- With no step of another thread in between.
unfoldable pub release_unchecked : Barrier → Barrier
unfolding signal_times
release_unchecked b =
    signal_times b.active_sem_idx b.no_threads
      (Barrier.swap_semaphores (record b { on_barrier = 0 }))

signal_times-sem_value :
    (idx n : ℕ) (b : Barrier)
    → idx ≤ 1
    → (sem_value (signal_times idx n b) idx ≡ sem_value b idx + n)
      × ((signal_times idx n b).active_sem_idx ≡ b.active_sem_idx)
unfolding signal_times Barrier.semaphore_signal
signal_times-sem_value idx zero b h = (omega arith, refl)
signal_times-sem_value idx (suc n) b h =
    let (value, active) = signal_times-sem_value idx n (Barrier.semaphore_signal b idx) h in
    let one : sem_value (Barrier.semaphore_signal b idx) idx ≡ sem_value b idx + 1 = ground arith in
    (omega (arith, value, one), active ∙ semaphore_signal-active b idx)

-- Without the assertion, a wakeup between two methods breaks the books of the semaphores exactly when a
-- worker is not on the barrier: it signals the semaphore that was active once for each of the workers that
-- wait for it, and once more for each that is missing. No worker waits for those signals.
pub release_unchecked-surplus :
    {s : System}
    → Reach s
    → s.control ≡ ready
    → s.calls ≡ []
    → s.destroyed ≡ false
    → (sem_value (release_unchecked s.barrier) s.barrier.active_sem_idx
        ≡ total (on_sem s.barrier.active_sem_idx) s.workers
          + (s.barrier.no_threads - s.barrier.on_barrier))
      × ((sem_value (release_unchecked s.barrier) s.barrier.active_sem_idx
            ≡ total (on_sem s.barrier.active_sem_idx) s.workers)
          ↔ (s.barrier.on_barrier ≡ s.barrier.no_threads))
unfolding release_unchecked Barrier.swap_semaphores
release_unchecked-surplus {s} r at todo alive =
    let v = Reach-Inv r in
    let b = v.balanced in
    let idx = s.barrier.active_sem_idx in
    let serving = Inv-Serving s v todo alive in
    let all : s.barrier.no_threads ≡ length s.workers =
      serving.all_expected ∙ length-map s.workers (λ w. w.thread_running) in
    let given =
      (signal_times-sem_value idx s.barrier.no_threads
        (record s.barrier { on_barrier = 0; active_sem_idx = 1 - idx }) b.index).0 in
    let few = total-on_sem-le idx s.workers in
    (
      omega (arith, given, b.fresh, b.counted, all, few),
      (
        (λ q. omega (arith, q, given, b.fresh, b.counted, all, few)),
        (λ q. omega (arith, q, given, b.fresh, b.counted, all, few)),
      ),
    )
