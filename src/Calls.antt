-- ===== src/Calls.antt =====
-- What the methods of WorkerPoolImpl (src/worker_pool_implementation.h) do to the barrier and to the
-- worker threads, as the sequence of calls that each method makes.
use twine.Prelude.{ℕ, ◌+◌, List, [], ◌∷◌}

pub data Call : Type 0 where
  set_no_threads : ℕ → Call
  run_worker : Call  -- a thread is created, and the worker is put into `_workers`
  wait_for_all : Call
  release_all : Call
  release_and_wait : Call
  stop_running : Call  -- _running.store(false)
  stop_last : Call  -- _thread_running.store(false) of the last worker
  join_last : Call  -- _workers.pop_back(), which joins the thread
  join_all : Call  -- the destructor of _workers

-- How `add_worker` goes on once it has chosen a core.
pub data Outcome : Type 0 where
  not_created : Outcome  -- `run` returned an error
  init_failed : Outcome
  added : Outcome

-- The calls of `add_worker` in a pool of `no_workers` workers.
unfoldable pub add_worker_calls : ℕ → Outcome → List Call
add_worker_calls no_workers not_created =
    set_no_threads (no_workers + 1) ∷ set_no_threads no_workers ∷ []
add_worker_calls no_workers init_failed =
    set_no_threads (no_workers + 1)
    ∷ run_worker
    ∷ wait_for_all
    ∷ stop_last
    ∷ release_all
    ∷ set_no_threads no_workers
    ∷ join_last
    ∷ []
add_worker_calls no_workers added = set_no_threads (no_workers + 1) ∷ run_worker ∷ wait_for_all ∷ []

-- The calls of the destructor, with the destruction of `_workers` that follows its body.
unfoldable pub destructor_calls : List Call
destructor_calls = wait_for_all ∷ stop_running ∷ release_all ∷ join_all ∷ []

-- The methods that a client of the pool calls.
pub data Method : Type 0 where
  add_worker : Outcome → Method
  wait_for_workers_idle wakeup_workers wakeup_and_wait destroy : Method

unfoldable pub method_calls : ℕ → Method → List Call
unfolding add_worker_calls destructor_calls
method_calls n (add_worker outcome) = add_worker_calls n outcome
method_calls n wait_for_workers_idle = wait_for_all ∷ []
method_calls n wakeup_workers = release_all ∷ []
method_calls n wakeup_and_wait = release_and_wait ∷ []
method_calls n destroy = destructor_calls
