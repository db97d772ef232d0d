-- ===== src/Worker.antt =====
-- src/worker_pool_implementation.h, class WorkerThread: the loop of `_internal_worker_function`, cut
-- where another thread can come between. What comes before the loop is local to the thread.
pub mod Function
use twine.Prelude.{
  ℕ, ◌+◌, Bool, true, false, not, ◌||◌, Option, none, some, if◌then◌else◌, ℕ_discrete,
}
use mathlib.Core.Option
use twine.Barrier.{Barrier, Arrival, wait, semaphore_wait}

-- Where a worker stands.
pub data Pc : Type 0 where
  at_barrier : Pc  -- about to call `_barrier.wait()`
  blocked : (idx : ℕ) → Pc  -- in the `semaphore_wait` of `wait`, on this semaphore
  woken : Pc  -- `wait` has returned, the flags are not read yet
  in_callback : Pc
  exited : Pc  -- the loop is left

pub Pc-discrete : Discrete Pc
Pc-discrete = hlevel ℕ_discrete

-- `calls` counts how often the worker has entered its callback, and `since` is the number of releases
-- of the barrier before the worker was created. The code keeps neither: the theorems speak of them.
pub record Worker : Type 0 where
  pub pc : Pc
  pub thread_running : Bool
  pub calls : ℕ
  pub since : ℕ

-- A thread that has just been created.
abbrev pub new_worker : ℕ → Worker
new_worker since = record { pc = at_barrier; thread_running = true; calls = 0; since = since }

-- A step of a worker: the barrier and the worker after it, and whether it signalled the controller.
pub record Moved : Type 0 where
  pub barrier : Barrier
  pub worker : Worker
  pub signalled : Bool

abbrev pub arrive : Worker → Arrival → Moved
arrive w a = record {
  barrier = a.barrier;
  worker = record w { pc = blocked a.active_sem };
  signalled = a.signalled;
}

abbrev pub stay : Barrier → Worker → Moved
stay b w = record { barrier = b; worker = w; signalled = false }

-- The test of the flags, and the call of `_callback` that follows it.
abbrev pub read_flags : Bool → Worker → Worker
read_flags pool_running w =
    if not pool_running || not w.thread_running
    then record w { pc = exited }
    else record w { pc = in_callback; calls = w.calls + 1 }

dispatch : Pc → Bool → Barrier → Worker → Option Moved
dispatch at_barrier pool_running b w = Option.map (arrive w) (wait b)
dispatch (blocked idx) pool_running b w =
    Option.map (λ b'. stay b' (record w { pc = woken })) (semaphore_wait b idx)
dispatch woken pool_running b w = some (stay b (read_flags pool_running w))
dispatch in_callback pool_running b w = some (stay b (record w { pc = at_barrier }))
dispatch exited pool_running b w = none

-- `none` while the worker is blocked, or when it has exited.
unfoldable pub worker_step : Bool → Barrier → Worker → Option Moved
unfolding dispatch
worker_step pool_running b w = dispatch w.pc pool_running b w

-- _stop_thread, without its call of `release_all`
unfoldable pub stop_thread : Worker → Worker
stop_thread w = record w { thread_running = false }
