-- ===== src/Threads/Invariant.antt =====
-- The invariant of the barrier and the worker threads of src/worker_pool_implementation.h, in the
-- modules below.
pub mod Defs
mod Workers
mod Control
mod Removal
mod Steps
mod Methods
mod Reach
pub use Workers.{worker_step-active}
pub use Control.{
  total-on_sem-le, blocked-total, none_blocked, Balanced-All_blocked, released, begin_release-some,
  begin_release-none, semaphore_signal-active,
}
pub use Removal.{exec-join_last, exec-join_all, join_head-some, locking-some}
pub use Methods.{Inv-Serving, at_wait, begin-some, invoke-some}
pub use Reach.{spurious-some, thread_step-some, Step-Inv, Reach-Inv}
