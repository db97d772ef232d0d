-- ===== src/Threads/Invariant/Defs.antt =====
-- About BarrierWithTrigger and WorkerThread (src/worker_pool_implementation.h), the definitions of
-- the invariant: what the semaphores and the counter say of the workers, and how many callbacks
-- each has entered.
use twine.Prelude.{
  ℕ, ◌+◌, ◌-◌, ◌≤◌, ◌<◌, ◌≡◌, ◌⊎◌, Bool, true, false, List, [], ◌∷◌, length, map, total, All, ◌==◌,
  if◌then◌else◌,
}
use twine.Barrier.{Barrier, sem_value}
use twine.Worker.{Worker, Pc, at_barrier, blocked, woken, in_callback, exited}
use twine.Calls.{
  Call, set_no_threads, run_worker, wait_for_all, release_all, release_and_wait, stop_running,
  stop_last, join_last, join_all,
}
use twine.Threads.{System, Control, cond_wait, cond_woken, posting}

abbrev at_sem : ℕ → Pc → ℕ
at_sem idx (blocked k) = if k == idx then 1 else 0
at_sem idx _ = 0

-- 1 for a worker that is blocked on the semaphore `idx`.
abbrev pub on_sem : ℕ → Worker → ℕ
on_sem idx w = at_sem idx w.pc

abbrev pub left_of : Control → ℕ
left_of (posting prev left and_wait) = left
left_of _ = 0

abbrev pub is_posting : Control → Bool
is_posting (posting prev left and_wait) = true
is_posting _ = false

abbrev pub Signals : ℕ → Control → Type 0
Signals active (posting prev left and_wait) = prev + active ≡ 1
Signals active _ = Unit {0}

-- `n` is the number of callbacks that the worker has entered, counted from the first release of the
-- barrier on: it equals the number of releases, or is one behind from the release until the callback.
abbrev pub InStep : ℕ → ℕ → Pc → ℕ → Type 0
InStep active rounds at_barrier n = n ≡ rounds
InStep active rounds (blocked k) n =
    ((k ≡ active) × (n ≡ rounds)) ⊎ ((k + active ≡ 1) × (n + 1 ≡ rounds))
InStep active rounds woken n = n + 1 ≡ rounds
InStep active rounds in_callback n = n ≡ rounds
InStep active rounds exited n = n < rounds

abbrev pub Lockstep : ℕ → ℕ → Worker → Type 0
Lockstep active rounds w = InStep active rounds w.pc (w.since + w.calls)

-- `_thread_running` of each worker.
abbrev pub flags : List Worker → List Bool
flags = map λ w. w.thread_running

-- The barrier expects as many threads as there are workers, and none of them has been told to stop.
pub record Serving (running : Bool) (expected : ℕ) (fs : List Bool) : Type 0 where
  pub all_expected : expected ≡ length fs
  pub pool_running : running ≡ true
  pub all_running : All (λ f. f ≡ true) fs

abbrev pub clear_head : List Bool → List Bool
clear_head [] = []
clear_head (f ∷ fs) = false ∷ fs

abbrev pub tail : List Bool → List Bool
tail [] = []
tail (f ∷ fs) = fs

abbrev pub IsHeadStopped : List Bool → Type 0
IsHeadStopped [] = ⊥
IsHeadStopped (f ∷ fs) = f ≡ false

-- What must hold of the flags and of the number of threads that the barrier expects, for the calls to
-- come to be made in good order: each call changes them before the next.
abbrev pub Plan : Bool → Bool → ℕ → List Bool → List Call → Type 0
Plan gone running expected fs [] = (gone ≡ true) ⊎ Serving running expected fs
Plan gone running expected fs (set_no_threads n ∷ calls) = Plan gone running n fs calls
Plan gone running expected fs (run_worker ∷ calls) =
    (running ≡ true) × Plan gone running expected (true ∷ fs) calls
Plan gone running expected fs (wait_for_all ∷ calls) =
    Serving running expected fs × Plan gone running expected fs calls
Plan gone running expected fs (release_all ∷ calls) =
    (expected ≡ length fs) × Plan gone running expected fs calls
Plan gone running expected fs (release_and_wait ∷ calls) =
    Serving running expected fs × Plan gone running expected fs calls
Plan gone running expected fs (stop_running ∷ calls) = Plan gone false expected fs calls
Plan gone running expected fs (stop_last ∷ calls) = Plan gone running expected (clear_head fs) calls
Plan gone running expected fs (join_last ∷ calls) =
    IsHeadStopped fs × Plan gone running expected (tail fs) calls
Plan gone running expected fs (join_all ∷ calls) =
    (running ≡ false) × Plan gone running expected [] calls

-- A controller that waits, or is going to, waits for workers that are all expected and all running;
-- it sleeps only while one of them is missing.
abbrev pub Waits : Bool → Barrier → List Bool → Control → Type 0
Waits running b fs cond_wait = Serving running b.no_threads fs × (b.on_barrier < b.no_threads)
Waits running b fs cond_woken = Serving running b.no_threads fs
Waits running b fs (posting prev left true) = Serving running b.no_threads fs
Waits running b fs _ = Unit {0}

-- The part about the barrier and the workers.
pub record Balanced (b : Barrier) (ws : List Worker) (c : Control) (rounds : ℕ) : Type 0 where
  pub index : b.active_sem_idx ≤ 1
  pub counted : b.on_barrier ≡ total (on_sem b.active_sem_idx) ws
  pub fresh : sem_value b b.active_sem_idx ≡ 0
  pub owed :
      sem_value b (1 - b.active_sem_idx) + left_of c ≡ total (on_sem (1 - b.active_sem_idx)) ws
  pub held : b.locked ≡ is_posting c
  pub signals : Signals b.active_sem_idx c
  pub lockstep : All (Lockstep b.active_sem_idx rounds) ws

pub record Inv (s : System) : Type 0 where
  pub balanced : Balanced s.barrier s.workers s.control s.rounds
  pub planned : Plan s.destroyed s.running s.barrier.no_threads (flags s.workers) s.calls
  pub waits : Waits s.running s.barrier (flags s.workers) s.control
