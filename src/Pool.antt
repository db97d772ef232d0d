-- ===== src/Pool.antt =====
-- src/worker_pool_implementation.h, class WorkerPoolImpl, with `run` of WorkerThread: how `add_worker`
-- chooses a core, creates the thread and answers. What the platform does is a parameter; what the
-- method does to the barrier and the threads is the sequence of calls that it returns.
pub mod Replies
pub mod NewPool
pub mod Choice
pub mod Growth
pub mod Acceptance
pub mod Outcomes
pub mod Isolated
pub mod Turns
mod Examples
use twine.Prelude.{
  ℕ, ◌+◌, ◌-◌, Bool, true, false, not, ◌||◌, Option, none, some, List, [], ◌∷◌, ◌++◌, ltb, ◌==◌,
  if◌then◌else◌, ℤ, pos, ltb_ℤ, get_elem?,
}
use twine.Status.{
  WorkerPoolStatus, invalid_arguments, pool_error, Errno, errno_to_worker_status,
  AppleThreadingStatus, empty,
}
use twine.Cores.{CpuInfo, build_core_list, find_core, least_used, add_usage, drop_usage}
use twine.CondVar.{Build, with_evl}
use twine.Realtime.{ThreadType, evl_thread}
use twine.IsolatedCpus.{evl_cores}
use twine.Calls.{Call, set_no_threads, run_worker, wait_for_all, release_all, stop_last, join_last}

-- What the platform answers: to the affinity and the creation of a thread an error number, 0 for
-- success; and the status that a new worker has once it waits at the barrier.
pub record Platform : Type 0 where
  pub errno : Errno
  pub setaffinity : (cpu_id : ℤ) → ℕ
  pub thread_create : (priority : ℤ) → (cpu_id : ℤ) → ℕ
  -- What `_thread_handle` holds after a creation that has failed, which POSIX does not say.
  pub failed_handle : (priority : ℤ) → (cpu_id : ℤ) → ℕ
  pub init_status : (cpu_id : ℤ) → AppleThreadingStatus

pub record WorkerInfo : Type 0 where
  pub priority : ℤ
  pub cpu_id : ℤ

pub record Pool : Type 0 where
  pub no_workers : ℕ
  pub cores : List CpuInfo
  pub workers : List WorkerInfo  -- the head is the back of `_workers`

-- The cores of a pool. `line` is the first line of the file with the isolated cpus, or `none` if the
-- file cannot be opened: only a pool of EVL threads reads it.
unfoldable pub pool_cores : Build → ThreadType → (line : Option (List ℕ)) → ℤ → List CpuInfo
pool_cores with_evl evl_thread line cores = evl_cores line cores
pool_cores _ _ line cores = build_core_list (pos 0) cores

-- The constructor of WorkerPoolImpl<type>.
unfoldable pub make_pool : Build → ThreadType → (line : Option (List ℕ)) → ℤ → Pool
make_pool build type line cores = record {
  no_workers = 0;
  cores = pool_cores build type line cores;
  workers = [];
}

pub record Reply : Type 0 where
  pub pool : Pool
  pub status : WorkerPoolStatus
  pub apple_status : AppleThreadingStatus
  pub calls : List Call
  pub stray_join : Bool  -- a handle has been joined that is of no thread: this is undefined

-- WorkerThread::run
unfoldable pub run : Platform → ℤ → ℤ → ℕ
run env sched_priority cpu_id =
    let res = env.setaffinity cpu_id in
    if ltb_ℤ sched_priority (pos 0) || ltb_ℤ (pos 100) sched_priority
    then env.errno.einval
    else if res == 0
    then env.thread_create sched_priority cpu_id
    else res

-- The destructor of a worker after a failed `run`: whether it joins its handle, which is 0 if `run` has
-- not come to the creation of the thread.
unfoldable pub joins_no_thread : Platform → ℤ → ℤ → Bool
joins_no_thread env sched_priority cpu_id =
    if ltb_ℤ sched_priority (pos 0) || ltb_ℤ (pos 100) sched_priority
    then false
    else if env.setaffinity cpu_id == 0
    then not (env.failed_handle sched_priority cpu_id == 0)
    else false

-- The iterator `core_info`: `none` if no core has the id that was asked for. `some none` is `end()`,
-- which `min_element` gives on an empty list, and which is then dereferenced.
unfoldable pub choose_core : List CpuInfo → Option ℤ → Option (Option ℕ)
choose_core cores (some id) = elim (find_core id cores) [ none ↦ none | some i ↦ some (some i) ]
choose_core cores none = some (least_used cores)

-- The worker runs, and is idle at the barrier: keep it if its initialisation worked.
unfoldable pub keep_worker : Pool → List CpuInfo → ℕ → WorkerInfo → AppleThreadingStatus → Reply
keep_worker p cores core w AppleThreadingStatus.ok = record {
  pool = record { no_workers = p.no_workers + 1; cores = cores; workers = w ∷ p.workers };
  status = WorkerPoolStatus.ok;
  apple_status = AppleThreadingStatus.ok;
  calls = set_no_threads (p.no_workers + 1) ∷ run_worker ∷ wait_for_all ∷ [];
  stray_join = false;
}
keep_worker p cores core w status = record {
  pool = record p { cores = drop_usage cores core };
  status = pool_error;
  apple_status = status;
  calls =
      set_no_threads (p.no_workers + 1)
      ∷ run_worker
      ∷ wait_for_all
      ∷ stop_last
      ∷ release_all
      ∷ set_no_threads p.no_workers
      ∷ join_last
      ∷ [];
  stray_join = false;
}

-- `run` has failed: the worker is dropped, and its destructor runs.
drop_worker : Pool → List CpuInfo → WorkerPoolStatus → (stray_join : Bool) → Reply
drop_worker p cores res stray_join = record {
  pool = record p { cores = cores };
  status = res;
  apple_status = AppleThreadingStatus.ok;
  calls = set_no_threads (p.no_workers + 1) ∷ set_no_threads p.no_workers ∷ [];
  stray_join = stray_join;
}

-- After `run`, by its result.
unfoldable pub finish_start :
    Pool → List CpuInfo → ℕ → WorkerInfo → AppleThreadingStatus → WorkerPoolStatus → Bool → Reply
unfolding keep_worker drop_worker
finish_start p cores core w init_status WorkerPoolStatus.ok stray_join =
    keep_worker p cores core w init_status
finish_start p cores core w init_status res stray_join = drop_worker p cores res stray_join

-- What `add_worker` does with the core at an index.
unfoldable pub start_worker : Platform → Pool → ℤ → ℕ → CpuInfo → Reply
unfolding finish_start
start_worker env p sched_priority core info =
    finish_start p (add_usage p.cores core) core
      (record { priority = sched_priority; cpu_id = info.id }) (env.init_status info.id)
      (errno_to_worker_status env.errno (run env sched_priority info.id))
      (joins_no_thread env sched_priority info.id)

abbrev pub refuse : Pool → Reply
refuse p = record {
  pool = p;
  status = invalid_arguments;
  apple_status = empty;
  calls = [];
  stray_join = false;
}

-- `none` is undefined behaviour: a pool of no cores, and no core asked for.
unfoldable pub add_worker : Platform → Pool → ℤ → Option ℤ → Option Reply
unfolding start_worker
add_worker env p sched_priority cpu_id = elim (choose_core p.cores cpu_id) [
  | none ↦ some (refuse p)
  | some none ↦ none
  | some (some core) ↦ elim (get_elem? p.cores core) [
    | none ↦ none
    | some info ↦ some (start_worker env p sched_priority core info)
  ]
]

abbrev pub core_info : Pool → List CpuInfo
core_info p = p.cores
