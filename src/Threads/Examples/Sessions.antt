-- ===== src/Threads/Examples/Sessions.antt =====
-- Tests of a session: a worker is added to a pool of two cores, on a platform like Linux.
use twine.Prelude.{false, ◌≡◌, zero, refl, none, some, [], ◌∷◌, pos}
use twine.Barrier
use twine.Barrier.{all_on_barrier, wait, must_wait, begin_release, semaphore_wait, semaphore_signal}
use twine.Worker.{worker_step}
use twine.Cores.{build_core_list, core_list_from, least_used, least_from, add_usage}
use twine.Status.{errno_to_worker_status, WorkerPoolStatus, AppleThreadingStatus}
use twine.Calls.{add_worker, added, method_calls, add_worker_calls}
use twine.Pool
use twine.Pool.{
  joins_no_thread, Platform, Pool, Reply, pool_cores, make_pool, run, choose_core, start_worker,
  finish_start, keep_worker,
}
use twine.CondVar.{plain}
use twine.Realtime.{pthread}
use twine.Threads.Session.{Session, opened, asked, Agrees, Session-Agrees, add_worker-invoke}
use twine.Threads.{
  start, worker, controller, call, step, control_step, thread_step, drive, invoke, check_all, wake,
  release, begun,
}
use twine.Threads.Returns.{begins, returned}
use twine.Threads.Examples.{Trace, follow}
use twine.Threads.Examples.Returning.{Going, walk}

-- Every thread is created.
abbrev granting : Platform
granting = record {
  errno = record { eagain = 11; eperm = 1; einval = 22 };
  setaffinity = λ cpu_id. 0;
  thread_create = λ priority cpu_id. 0;
  failed_handle = λ priority cpu_id. 0;
  init_status = λ cpu_id. AppleThreadingStatus.ok;
}

abbrev pub adding : Trace
adding = follow (call (add_worker added) ∷ []) (start, begun)

abbrev pub added_one : Going adding.0
added_one =
    walk (controller ∷ controller ∷ controller ∷ worker 0 ∷ controller ∷ [])
      (zero, zero, adding.0, begins)

abbrev one_worker : Pool
one_worker = record {
  no_workers = 1;
  cores = record { id = pos 0; workers = 1 } ∷ record { id = pos 1; workers = 0 } ∷ [];
  workers = record { priority = pos 75; cpu_id = pos 0 } ∷ [];
}

abbrev accepted : Reply
accepted = record {
  pool = one_worker;
  status = WorkerPoolStatus.ok;
  apple_status = AppleThreadingStatus.ok;
  calls = add_worker_calls 0 added;
  stray_join = false;
}

add_first :
    Pool.add_worker granting (make_pool plain pthread none (pos 2)) (pos 75) none ≡ some accepted
unfolding Pool.add_worker make_pool pool_cores run choose_core start_worker build_core_list
    core_list_from finish_start keep_worker least_used least_from add_usage errno_to_worker_status
    add_worker_calls joins_no_thread
add_first = refl

first_session : Session one_worker added_one.2
unfolding step start control_step drive thread_step invoke method_calls Barrier.set_no_threads
    all_on_barrier check_all worker_step wait wake must_wait release begin_release semaphore_wait
    semaphore_signal make_pool pool_cores
first_session =
    asked granting (pos 75) none added (opened plain pthread none (pos 2)) add_first refl
      (returned refl added_one.3 refl refl)

Session-Agrees_example : Agrees one_worker added_one.2
Session-Agrees_example = Session-Agrees first_session

test_add_worker-invoke : adding.0.calls ≡ add_worker_calls 0 added
unfolding step start control_step drive thread_step invoke method_calls Barrier.set_no_threads
    all_on_barrier check_all worker_step wait wake must_wait release begin_release semaphore_wait
    semaphore_signal make_pool pool_cores
test_add_worker-invoke =
    add_worker-invoke granting (pos 75) none added (opened plain pthread none (pos 2)) add_first
      refl refl
