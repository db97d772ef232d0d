-- ===== src/Barrier.antt =====
-- src/worker_pool_implementation.h, class BarrierWithTrigger: its fields, and the parts of its
-- methods that run under `_calling_mutex`. The mutex is a field, since `release_all` and
-- `release_and_wait` hold it over a loop of semaphore signals that other threads see one by one.
use twine.Prelude.{
  ℕ, ◌+◌, ◌-◌, Bool, true, false, Option, none, some, ltb, leb, ◌==◌, if◌then◌else◌,
}

-- `_semaphores` is an array of two; `active_sem_idx` is an index into it.
pub record Barrier : Type 0 where
  pub sem_0 : ℕ
  pub sem_1 : ℕ
  pub active_sem_idx : ℕ
  pub on_barrier : ℕ  -- _no_threads_currently_on_barrier
  pub no_threads : ℕ
  pub locked : Bool  -- _calling_mutex

-- The fields' initialisers, with both semaphores created at 0.
abbrev pub new_barrier : Barrier
new_barrier = record {
  sem_0 = 0;
  sem_1 = 0;
  active_sem_idx = 0;
  on_barrier = 0;
  no_threads = 0;
  locked = false;
}

-- The value of `_semaphores[idx]`.
abbrev pub sem_value : Barrier → ℕ → ℕ
sem_value b idx = if idx == 0 then b.sem_0 else b.sem_1

abbrev pub set_sem : Barrier → ℕ → ℕ → Barrier
set_sem b idx v = if idx == 0 then record b { sem_0 = v } else record b { sem_1 = v }

-- semaphore_signal on `_semaphores[idx]`
unfoldable pub semaphore_signal : Barrier → ℕ → Barrier
semaphore_signal b idx = set_sem b idx (sem_value b idx + 1)

-- semaphore_wait on `_semaphores[idx]`: `none` while its value is 0.
unfoldable pub semaphore_wait : Barrier → ℕ → Option Barrier
semaphore_wait b idx =
    if sem_value b idx == 0 then none else some (set_sem b idx (sem_value b idx - 1))

-- What a thread knows when `wait` has left the mutex: the semaphore that it goes on to wait for, and
-- whether it signalled `_calling_cond`.
pub record Arrival : Type 0 where
  pub barrier : Barrier
  pub active_sem : ℕ
  pub signalled : Bool

-- `wait` up to the unlock: `none` while another thread holds the mutex.
unfoldable pub wait : Barrier → Option Arrival
wait b =
    let on = b.on_barrier + 1 in
    if b.locked
    then none
    else some (record {
      barrier = record b { on_barrier = on };
      active_sem = b.active_sem_idx;
      signalled = leb b.no_threads on;
    })

-- The test of the `while` loops in `wait_for_all` and `release_and_wait`, with the mutex held.
unfoldable pub must_wait : Barrier → Bool
must_wait b = ltb b.on_barrier b.no_threads

-- The early return of `wait_for_all`.
unfoldable pub all_on_barrier : Barrier → Bool
all_on_barrier b = b.on_barrier == b.no_threads

unfoldable pub set_no_threads : Barrier → ℕ → Barrier
set_no_threads b threads = record b { no_threads = threads }

unfoldable pub swap_semaphores : Barrier → Barrier
swap_semaphores b = record b { active_sem_idx = 1 - b.active_sem_idx }

-- What `release_all` and `release_and_wait` do between the lock and the loop of signals: `none` if
-- the assertion fails. The semaphore to signal is the one that was active.
unfoldable pub begin_release : Barrier → Option Barrier
unfolding swap_semaphores
begin_release b =
    if b.on_barrier == b.no_threads
    then some (swap_semaphores (record b { on_barrier = 0; locked = true }))
    else none
