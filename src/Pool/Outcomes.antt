-- ===== src/Pool/Outcomes.antt =====
-- About `add_worker` of src/worker_pool_implementation.h: what each reply says, by what `run` has returned
-- and how the initialisation of the thread went.
use twine.Prelude.{ℕ, ◌+◌, ◌≡◌, ◌≢◌, ◌⊎◌, Bool, false, ◌∷◌, ℤ}
use twine.Status.{WorkerPoolStatus, pool_error, errno_to_worker_status, AppleThreadingStatus}
use twine.Cores.{CpuInfo, add_usage}
use twine.Calls.{not_created, init_failed, added, add_worker_calls}
use twine.Pool.{Platform, Pool, WorkerInfo, Reply, run, joins_no_thread}

-- `run` has returned an error number.
pub record NotCreated (res : WorkerPoolStatus) (stray : Bool) (p : Pool) (core : ℕ) (r : Reply)
    : Type 0 where
  pub status : r.status ≡ res
  pub apple_status : r.apple_status ≡ AppleThreadingStatus.ok
  pub no_workers : r.pool.no_workers ≡ p.no_workers
  pub workers : r.pool.workers ≡ p.workers
  pub cores : r.pool.cores ≡ add_usage p.cores core
  pub calls : r.calls ≡ add_worker_calls p.no_workers not_created
  pub joined : r.stray_join ≡ stray

-- The thread has been created, and its initialisation has failed.
pub record InitFailed (init : AppleThreadingStatus) (p : Pool) (r : Reply) : Type 0 where
  pub status : r.status ≡ pool_error
  pub apple_status : r.apple_status ≡ init
  pub pool : r.pool ≡ p
  pub calls : r.calls ≡ add_worker_calls p.no_workers init_failed
  pub joined : r.stray_join ≡ false

-- There is a new worker.
pub record Added (w : WorkerInfo) (p : Pool) (core : ℕ) (r : Reply) : Type 0 where
  pub status : r.status ≡ WorkerPoolStatus.ok
  pub apple_status : r.apple_status ≡ AppleThreadingStatus.ok
  pub no_workers : r.pool.no_workers ≡ p.no_workers + 1
  pub workers : r.pool.workers ≡ w ∷ p.workers
  pub cores : r.pool.cores ≡ add_usage p.cores core
  pub calls : r.calls ≡ add_worker_calls p.no_workers added
  pub joined : r.stray_join ≡ false

-- What becomes of a request for a core, by the answers of the platform.
abbrev pub Outcomes : Platform → Pool → ℤ → ℕ → CpuInfo → Reply → Type 0
Outcomes env p priority core info r =
    ((run env priority info.id ≢ 0)
      × NotCreated (errno_to_worker_status env.errno (run env priority info.id))
          (joins_no_thread env priority info.id) p core r)
    ⊎ ((run env priority info.id ≡ 0)
        × (env.init_status info.id ≢ AppleThreadingStatus.ok)
        × InitFailed (env.init_status info.id) p r)
    ⊎ ((run env priority info.id ≡ 0)
        × (env.init_status info.id ≡ AppleThreadingStatus.ok)
        × Added (record { priority = priority; cpu_id = info.id }) p core r)
