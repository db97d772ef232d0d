-- ===== src/Pool/Turns/Examples.antt =====
-- Tests of the turns of the cores: two workers on a pool that was created for one core.
use twine.Prelude.{
  false, ◌+◌, ◌/◌, ◌%◌, ◌≡◌, ℕ, refl, none, some, List, [], ◌∷◌, pos, length, arith, get_elem?,
}
use twine.Status.{WorkerPoolStatus, AppleThreadingStatus, errno_to_worker_status}
use twine.Cores.{CpuInfo, build_core_list, core_list_from, least_used, least_from, add_usage}
use twine.Cores.Turns.{in_turn}
use twine.Calls.{Outcome, add_worker_calls}
use twine.CondVar.{plain}
use twine.Realtime.{pthread}
use twine.Pool.{
  joins_no_thread, Platform, Pool, WorkerInfo, Reply, core_info, pool_cores, make_pool, run,
  choose_core, start_worker, finish_start, keep_worker, add_worker,
}
use twine.Pool.Turns.{none_yet, one_more, add_worker-in_turn}

abbrev platform : Platform
platform = record {
  errno = record { eagain = 11; eperm = 1; einval = 22 };
  setaffinity = λ cpu_id. 0;
  thread_create = λ priority cpu_id. 0;
  failed_handle = λ priority cpu_id. 0;
  init_status = λ cpu_id. AppleThreadingStatus.ok;
}

-- With a number of workers on the one core.
abbrev after : (before : ℕ) → List WorkerInfo → Reply
after before workers = record {
  pool = record {
    no_workers = before + 1;
    cores = record { id = pos 0; workers = before + 1 } ∷ [];
    workers = record { priority = pos 75; cpu_id = pos 0 } ∷ workers;
  };
  status = WorkerPoolStatus.ok;
  apple_status = AppleThreadingStatus.ok;
  calls = add_worker_calls before Outcome.added;
  stray_join = false;
}

abbrev first : Reply
first = after 0 []

abbrev second : Reply
second = after 1 first.pool.workers

abbrev empty : Pool
empty = record { no_workers = 0; cores = record { id = pos 0; workers = 0 } ∷ []; workers = [] }

test_empty : make_pool plain pthread none (pos 1) ≡ empty
unfolding make_pool pool_cores build_core_list core_list_from
test_empty = refl

test_first : add_worker platform empty (pos 75) none ≡ some first
unfolding add_worker start_worker finish_start keep_worker choose_core least_used least_from
    add_usage run errno_to_worker_status add_worker_calls joins_no_thread
test_first = refl

test_second : add_worker platform first.pool (pos 75) none ≡ some second
unfolding add_worker start_worker finish_start keep_worker choose_core least_used least_from
    add_usage run errno_to_worker_status add_worker_calls joins_no_thread
test_second = refl

-- 3 workers on 2 cores.
test_in_turn :
    in_turn 1 1 (record { id = pos 4; workers = 0 } ∷ record { id = pos 7; workers = 0 } ∷ [])
    ≡ record { id = pos 4; workers = 2 } ∷ record { id = pos 7; workers = 1 } ∷ []
unfolding in_turn
test_in_turn = refl

add_worker-in_turn_example :
    (core_info first.pool
      ≡ in_turn (1 / length (core_info empty)) (1 % length (core_info empty)) (core_info empty))
    × ((info : CpuInfo) × (get_elem? (core_info empty) (1 % length (core_info empty)) ≡ some info)
        × (second.pool.workers
            ≡ record { priority = pos 75; cpu_id = info.id } ∷ first.pool.workers))
add_worker-in_turn_example =
    add_worker-in_turn plain pthread none (pos 1) 1 platform (pos 75) test_empty (omega arith)
      (one_more platform (pos 75) none_yet test_first refl) test_second refl
