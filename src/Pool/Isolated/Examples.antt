-- ===== src/Pool/Isolated/Examples.antt =====
-- Tests of the constructor of a pool in an EVL build, with the text "8-11" for the isolated cpus.
use twine.Prelude.{
  false, ◌≡◌, ◌≤◌, ℕ, refl, ap, none, some, List, [], ◌∷◌, pos, pos_part, length, arith, All,
}
use twine.Status.{WorkerPoolStatus, AppleThreadingStatus, errno_to_worker_status}
use twine.Cores.{build_core_list, core_list_from, least_used, least_from, add_usage}
use twine.Calls.{Outcome, add_worker_calls}
use twine.CondVar.{with_evl}
use twine.Realtime.{evl_thread}
use twine.IsolatedCpus.{get_isolated_cpus, evl_cores}
use twine.IsolatedCpus.Ranges.{get_isolated_cpus-range}
use twine.Pool.{
  joins_no_thread, pool_cores, make_pool, Platform, Pool, Reply, core_info, run, choose_core,
  start_worker, finish_start, keep_worker, add_worker,
}
use twine.Pool.Growth.{same, grows}
use twine.Pool.Isolated.{IsWithin, make_pool-isolated}

abbrev line : List ℕ
line = b'8' ∷ b'-' ∷ b'1' ∷ b'1' ∷ []

abbrev platform : Platform
platform = record {
  errno = record { eagain = 11; eperm = 1; einval = 22 };
  setaffinity = λ cpu_id. 0;
  thread_create = λ priority cpu_id. 0;
  failed_handle = λ priority cpu_id. 0;
  init_status = λ cpu_id. AppleThreadingStatus.ok;
}

abbrev pool : Pool
pool = record {
  no_workers = 1;
  cores = record { id = pos 8; workers = 1 } ∷ record { id = pos 9; workers = 0 } ∷ [];
  workers = record { priority = pos 75; cpu_id = pos 8 } ∷ [];
}

abbrev reply : Reply
reply = record {
  pool = pool;
  status = WorkerPoolStatus.ok;
  apple_status = AppleThreadingStatus.ok;
  calls = add_worker_calls 0 Outcome.added;
  stray_join = false;
}

line-cores :
    evl_cores (some line) (pos 2)
    ≡ record { id = pos 8; workers = 0 } ∷ record { id = pos 9; workers = 0 } ∷ []
unfolding evl_cores
line-cores =
    rw
      (
        get_isolated_cpus-range (pos 2) b'8' b'1' [] (b'1' ∷ []) [] (refl, tt) (refl, (refl, tt)) tt
            (omega arith) (omega arith),
        evl_cores,
      )
      refl

test_make_pool :
    add_worker platform (make_pool with_evl evl_thread (some line) (pos 2)) (pos 75) none
    ≡ some reply
unfolding make_pool pool_cores add_worker start_worker finish_start keep_worker choose_core
    least_used least_from add_usage run errno_to_worker_status add_worker_calls joins_no_thread
test_make_pool =
    ap
      (λ cores.
        add_worker platform (record { no_workers = 0; cores = cores; workers = [] }) (pos 75) none)
      line-cores

-- If the file cannot be opened, the cores are counted from 0.
test_no_file :
    (make_pool with_evl evl_thread none (pos 1)).cores ≡ record { id = pos 0; workers = 0 } ∷ []
unfolding make_pool pool_cores evl_cores get_isolated_cpus build_core_list core_list_from
test_no_file = refl

make_pool-isolated_example :
    All (λ w. IsWithin 8 11 w.cpu_id) pool.workers
    × All (λ c. IsWithin 8 11 c.id) (core_info pool)
    × (length (core_info pool) ≤ pos_part (pos 2))
make_pool-isolated_example =
    make_pool-isolated (pos 2) b'8' b'1' [] (b'1' ∷ []) [] (refl, tt) (refl, (refl, tt)) tt
      (omega arith) (omega arith) (grows platform (pos 75) none same test_make_pool)
