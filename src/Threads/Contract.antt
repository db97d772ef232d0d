-- ===== src/Threads/Contract.antt =====
-- What the pool of src/worker_pool_implementation.h promises, with no barrier, semaphore, mutex or
-- controller: a list of tasks, and the steps that the list may take.
pub mod Refinement
use twine.Prelude.{
  ℕ, zero, suc, ◌+◌, ◌≡◌, Bool, true, false, not, ◌&&◌, some, List, [], ◌∷◌, map, All, get_elem?,
  set, ◌==◌, if◌then◌else◌,
}
use twine.Worker.{Worker, Pc, at_barrier, blocked, woken, in_callback, exited}
use twine.Threads.{System}

-- A task is idle until it is released; then it is due, and starts its callback or, if it has been told
-- to stop, leaves; after its callback it is idle again. A task that has just been created is busy, too.
pub data Phase : Type 0 where
  idle due busy gone : Phase

pub record Task : Type 0 where
  pub phase : Phase
  pub calls : ℕ
  pub told : Bool

pub data TaskStep (k : Task) : Task → Type 0 where
  starts :
      k.phase ≡ due → k.told ≡ false → TaskStep k (record k { phase = busy; calls = k.calls + 1 })
  quits : k.phase ≡ due → k.told ≡ true → TaskStep k (record k { phase = gone })
  rests : k.phase ≡ busy → TaskStep k (record k { phase = idle })

abbrev pub new_task : Task
new_task = record { phase = busy; calls = 0; told = false }

abbrev pub make_due : Task → Task
make_due k = record k { phase = due }

abbrev pub tell : Task → Task
tell k = record k { told = true }

abbrev pub tell_head : List Task → List Task
tell_head [] = []
tell_head (k ∷ ks) = tell k ∷ ks

-- The head of the list is the task that was created last.
pub data ListStep (ks : List Task) : List Task → Type 0 where
  moves :
      (i : ℕ) (k k' : Task) → get_elem? ks i ≡ some k → TaskStep k k' → ListStep ks (set ks i k')
  hires : ListStep ks (new_task ∷ ks)
  tells_last : ListStep ks (tell_head ks)
  tells_all : ListStep ks (map tell ks)
  joins : (k : Task) (rest : List Task) → ks ≡ k ∷ rest → k.phase ≡ gone → ListStep ks rest
  clears : All (λ k. k.phase ≡ gone) ks → ListStep ks []

-- What can become of a pool, with the number of releases: a release needs all tasks idle, and makes
-- them all due.
pub data Allows : ℕ → List Task → Type 0 where
  empty : Allows 0 []
  steps : {n : ℕ} {ks ks' : List Task} → Allows n ks → ListStep ks ks' → Allows n ks'
  releases :
      {n : ℕ} {ks : List Task}
      → Allows n ks
      → All (λ k. k.phase ≡ idle) ks
      → Allows (n + 1) (map make_due ks)

-- What one step of the pool may do to the tasks and the number of releases: nothing, one step of the
-- list, or a release.
pub data Follows (n : ℕ) (ks : List Task) : ℕ → List Task → Type 0 where
  stays : Follows n ks n ks
  advances : {ks' : List Task} → ListStep ks ks' → Follows n ks n ks'
  released : All (λ k. k.phase ≡ idle) ks → Follows n ks (n + 1) (map make_due ks)

-- What a task is of a worker.
abbrev pub phase_of : ℕ → Pc → Phase
phase_of active at_barrier = busy
phase_of active in_callback = busy
phase_of active (blocked k) = if k == active then idle else due
phase_of active woken = due
phase_of active exited = gone

abbrev pub task_of : Bool → ℕ → Worker → Task
task_of running active w = record {
  phase = phase_of active w.pc;
  calls = w.calls;
  told = not (running && w.thread_running);
}

abbrev pub tasks : System → List Task
tasks s = map (task_of s.running s.barrier.active_sem_idx) s.workers
