-- ===== src/Pool/Examples.antt =====
-- Tests of the pool, of its cores and of the statuses, on a platform like Linux.
use twine.Prelude.{
  true, false, ◌≡◌, ◌↔◌, ◌⊎◌, ℕ, refl, none, some, [], ◌∷◌, get_elem?, pos, length, arith,
}
use twine.Status.{
  WorkerPoolStatus, invalid_arguments, permission_denied, limit_exceeded, pool_error, Errno,
  IsErrno, errno_to_worker_status, errno_to_worker_status_iff, to_error_string,
  AppleThreadingStatus, no_workgroup_passed,
}
use twine.Cores.{
  CpuInfo, build_core_list, find_core, least_used, least_from, add_usage, drop_usage,
  core_list_from,
}
use twine.Cores.Lists.{build_core_list_entries}
use twine.Cores.Usage.{IsFirstLeast, least_used-IsFirstLeast, Level, least_used-Level}
use twine.CondVar.{plain}
use twine.Realtime.{pthread}
use twine.Calls.{Outcome, add_worker_calls}
use twine.Pool.{
  joins_no_thread, Platform, Pool, Reply, pool_cores, make_pool, run, choose_core, start_worker,
  finish_start, keep_worker, drop_worker, add_worker,
}
use twine.Pool.Replies.{Leaves, add_worker_replies}
use twine.Pool.Choice.{add_worker-Level, add_worker_priority}
use twine.Pool.Outcomes.{Outcomes}

abbrev linux_errno : Errno
linux_errno = record { eagain = 11; eperm = 1; einval = 22 }

linux_errno-IsErrno : IsErrno linux_errno
linux_errno-IsErrno = record {
  eagain_pos = omega arith;
  eperm_pos = omega arith;
  einval_pos = omega arith;
  eagain_eperm = λ e. omega (arith, e);
  eagain_einval = λ e. omega (arith, e);
  eperm_einval = λ e. omega (arith, e);
}

-- Every thread is created.
abbrev granting : Platform
granting = record {
  errno = linux_errno;
  setaffinity = λ cpu_id. 0;
  thread_create = λ priority cpu_id. 0;
  failed_handle = λ priority cpu_id. 0;
  init_status = λ cpu_id. AppleThreadingStatus.ok;
}

-- No realtime thread may be created.
abbrev denying : Platform
denying = record granting { thread_create = λ priority cpu_id. 1 }

-- The threads are created, but their initialisation fails.
abbrev failing : Platform
failing = record granting { init_status = λ cpu_id. no_workgroup_passed }

abbrev one_errno : ℕ
one_errno = 11

abbrev no_cores : ℕ
no_cores = 0

abbrev core : ℕ → ℕ → CpuInfo
core id workers = record { id = pos id; workers = workers }

abbrev one_used : Pool
one_used = record {
  no_workers = 1;
  cores = core 0 1 ∷ core 1 0 ∷ core 2 0 ∷ [];
  workers = record { priority = pos 75; cpu_id = pos 0 } ∷ [];
}

abbrev two_used : Pool
two_used = record {
  no_workers = 2;
  cores = core 0 1 ∷ core 1 1 ∷ core 2 0 ∷ [];
  workers =
      record { priority = pos 75; cpu_id = pos 1 }
      ∷ record { priority = pos 75; cpu_id = pos 0 }
      ∷ [];
}

abbrev granted : Reply
granted = record {
  pool = two_used;
  status = WorkerPoolStatus.ok;
  apple_status = AppleThreadingStatus.ok;
  calls = add_worker_calls 1 Outcome.added;
  stray_join = false;
}

test_granted : add_worker granting one_used (pos 75) none ≡ some granted
unfolding add_worker start_worker finish_start keep_worker choose_core least_used least_from
    add_usage run errno_to_worker_status add_worker_calls joins_no_thread
test_granted = refl

-- The usage of core 1 stays raised.
abbrev denied : Reply
denied = record {
  pool = record one_used { cores = core 0 1 ∷ core 1 1 ∷ core 2 0 ∷ [] };
  status = permission_denied;
  apple_status = AppleThreadingStatus.ok;
  calls = add_worker_calls 1 Outcome.not_created;
  stray_join = false;
}

test_denied : add_worker denying one_used (pos 75) none ≡ some denied
unfolding add_worker start_worker finish_start drop_worker choose_core least_used least_from
    add_usage run errno_to_worker_status add_worker_calls joins_no_thread
test_denied = refl

abbrev failed : Reply
failed = record {
  pool = one_used;
  status = pool_error;
  apple_status = no_workgroup_passed;
  calls = add_worker_calls 1 Outcome.init_failed;
  stray_join = false;
}

test_failed : add_worker failing one_used (pos 75) (some (pos 2)) ≡ some failed
unfolding add_worker start_worker finish_start keep_worker choose_core find_core add_usage
    drop_usage run errno_to_worker_status add_worker_calls joins_no_thread
test_failed = refl

test_unknown_core : choose_core one_used.cores (some (pos 3)) ≡ none
unfolding choose_core find_core
test_unknown_core = refl

test_make_pool : (make_pool plain pthread none (pos 2)).cores ≡ core 0 0 ∷ core 1 0 ∷ []
unfolding make_pool pool_cores build_core_list core_list_from
test_make_pool = refl

test_error_string : to_error_string permission_denied ≡ "Permission denied"
unfolding to_error_string
test_error_string = refl

test_errno_to_worker_status_iff :
    ((errno_to_worker_status linux_errno one_errno ≡ WorkerPoolStatus.ok) ↔ (one_errno ≡ 0))
    × ((errno_to_worker_status linux_errno one_errno ≡ limit_exceeded) ↔ (one_errno ≡ 11))
    × ((errno_to_worker_status linux_errno one_errno ≡ permission_denied) ↔ (one_errno ≡ 1))
    × ((errno_to_worker_status linux_errno one_errno ≡ invalid_arguments) ↔ (one_errno ≡ 22))
test_errno_to_worker_status_iff =
    errno_to_worker_status_iff linux_errno one_errno linux_errno-IsErrno

test_core_list_entries :
    (length (build_core_list (pos 2) (pos 4)) ≡ 4)
    × (get_elem? (build_core_list (pos 2) (pos 4)) 3 ≡ some (core 5 0))
test_core_list_entries = build_core_list_entries (pos 2) (pos 4) 3 (omega arith)

one_used-Level : Level 0 one_used.cores
one_used-Level =
    ((omega arith, omega arith), ((omega arith, omega arith), ((omega arith, omega arith), tt)))

test_least_used-IsFirstLeast : IsFirstLeast one_used.cores 1
unfolding least_used least_from
test_least_used-IsFirstLeast = least_used-IsFirstLeast one_used.cores refl

test_least_used-Level : (m : ℕ) × Level m (add_usage one_used.cores 1)
unfolding least_used least_from
test_least_used-Level = least_used-Level 0 one_used.cores one_used-Level refl

test_add_worker_replies :
    ((choose_core one_used.cores none ≡ none)
      × (denied.status ≡ invalid_arguments)
      × (denied.pool ≡ one_used)
      × (denied.calls ≡ []))
    ⊎ ((o : Outcome) × (denied.calls ≡ add_worker_calls 1 o) × Leaves o one_used denied)
test_add_worker_replies = add_worker_replies denying one_used (pos 75) none test_denied

-- If the creation of the thread has failed and has left something in the handle, the destructor of the
-- worker joins it.
test_stray_join :
    (start_worker
      (record denying { failed_handle = λ priority cpu_id. 7 })
      one_used
      (pos 75)
      1
      (core 1 0)).stray_join
    ≡ true
unfolding start_worker finish_start drop_worker run joins_no_thread errno_to_worker_status
test_stray_join = refl

add_worker-Level_example : (m : ℕ) × Level m granted.pool.cores
add_worker-Level_example = add_worker-Level granting one_used (pos 75) 0 one_used-Level test_granted

abbrev refused : Reply
refused = record {
  pool = record one_used { cores = core 0 1 ∷ core 1 1 ∷ core 2 0 ∷ [] };
  status = invalid_arguments;
  apple_status = AppleThreadingStatus.ok;
  calls = add_worker_calls 1 Outcome.not_created;
  stray_join = false;
}

test_refused : add_worker granting one_used (pos 101) none ≡ some refused
unfolding add_worker start_worker finish_start drop_worker choose_core least_used least_from
    add_usage run errno_to_worker_status add_worker_calls joins_no_thread
test_refused = refl

test_add_worker_priority :
    (refused.status ≡ invalid_arguments)
    × (1 ≡ one_used.no_workers)
    × (refused.pool.workers ≡ one_used.workers)
test_add_worker_priority =
    add_worker_priority granting one_used (pos 101) none linux_errno-IsErrno refl test_refused

abbrev no_pool : Pool
no_pool = record { no_workers = 0; cores = []; workers = [] }
