-- ===== src/Threads/Orderly.antt =====
-- The order of the calls that the methods of WorkerPoolImpl make
-- (src/worker_pool_implementation.h), in the modules below.
pub mod Defs
mod Workers
mod Removal
mod Calls
mod Reach
pub use Workers.{worker_step-blocked, AllBlocked-stuck}
pub use Reach.{Step-Orderly, Reach-Orderly}
