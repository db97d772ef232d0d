-- ===== src/Threads.antt =====
-- The worker threads and the thread that calls the pool (the controller), interleaved in any order
-- over one barrier: src/worker_pool_implementation.h. A section under the mutex is one step, but
-- each signal of a release is a step of its own, and so is each return from a wait.
pub mod Invariant
pub mod Orderly
pub mod Safety
pub mod Progress
pub mod Termination
pub mod Returns
pub mod Fate
pub mod Effects
pub mod Settling
pub mod Waiting
pub mod Success
pub mod Rounds
pub mod Failure
pub mod Session
pub mod Contract
mod Parity
mod Settled
pub mod Protocol
pub mod Together
pub mod Unchecked
pub mod Bounds
pub mod Destructor
pub mod Completion
pub mod Determined
mod Examples
use twine.Prelude.{
  ℕ, zero, suc, ◌+◌, Bool, true, false, Option, none, some, List, [], ◌∷◌, length, get_elem?, set,
  if◌then◌else◌, ◌≡◌,
}
use twine.Barrier.{Barrier, new_barrier, must_wait, all_on_barrier, begin_release, semaphore_signal}
use twine.Barrier
use twine.Worker.{Worker, exited, Moved, new_worker, worker_step, stop_thread}
use twine.Calls.{
  Call, set_no_threads, run_worker, wait_for_all, release_all, release_and_wait, stop_running,
  stop_last, join_last, join_all, Method, destroy, method_calls,
}

-- Where the controller stands.
pub data Control : Type 0 where
  ready : Control  -- between two calls
  cond_wait : Control  -- in `condition_wait`, with the mutex released
  cond_woken : Control  -- woken there, about to take the mutex again
  -- In the loop of signals, with the mutex held: the semaphore, how many signals are left, and
  -- whether the caller is `release_and_wait`.
  posting : (prev : ℕ) (left : ℕ) (and_wait : Bool) → Control
  aborted : Control  -- the assertion of a release has failed

pub record System : Type 0 where
  pub barrier : Barrier
  pub running : Bool  -- _running
  pub workers : List Worker  -- the head is the back of `_workers`
  pub control : Control
  pub calls : List Call  -- what is left of the method being run
  pub rounds : ℕ  -- how many releases have begun
  pub destroyed : Bool  -- the destructor has been called

pub start : System
start = record {
  barrier = new_barrier;
  running = true;
  workers = [];
  control = ready;
  calls = [];
  rounds = 0;
  destroyed = false;
}

-- The `while` of `wait_for_all` and `release_and_wait`, with the mutex held: go on waiting, which
-- releases the mutex, or leave the loop and unlock.
pub check_all : System → System
check_all s = record s {
  barrier = record s.barrier { locked = false };
  control = if must_wait s.barrier then cond_wait else ready;
}

-- A release up to its loop of signals.
pub release : Bool → System → System
release and_wait s = elim (begin_release s.barrier) [
  | none ↦ record s { control = aborted }
  | some b ↦ record s {
    barrier = b;
    control = posting s.barrier.active_sem_idx b.no_threads and_wait;
    rounds = s.rounds + 1;
  }
]

pub all_exited : List Worker → Bool
all_exited [] = true
all_exited (w ∷ ws) = elim w.pc [ exited ↦ all_exited ws | _ ↦ false ]

pub stop_head : List Worker → List Worker
stop_head [] = []
stop_head (w ∷ ws) = stop_thread w ∷ ws

pub join_head : List Worker → Option (List Worker)
join_head [] = none
join_head (w ∷ ws) = elim w.pc [ exited ↦ some ws | _ ↦ none ]

-- A call that takes the mutex: `none` while another thread holds it.
abbrev pub locking : System → System → Option System
locking s t = if s.barrier.locked then none else some t

pub exec : Call → System → Option System
exec (set_no_threads n) s = locking s (record s { barrier = Barrier.set_no_threads s.barrier n })
exec run_worker s = some (record s { workers = new_worker s.rounds ∷ s.workers })
exec wait_for_all s = locking s (if all_on_barrier s.barrier then s else check_all s)
exec release_all s = locking s (release false s)
exec release_and_wait s = locking s (release true s)
exec stop_running s = some (record s { running = false })
exec stop_last s = some (record s { workers = stop_head s.workers })
exec join_last s = elim (join_head s.workers) [
  | none ↦ none
  | some ws ↦ some (record s { workers = ws })
]
exec join_all s = if all_exited s.workers then some (record s { workers = [] }) else none

pub drive : Control → List Call → System → Option System
unfolding exec
drive ready [] s = none
drive ready (c ∷ calls) s = exec c (record s { calls = calls })
drive cond_wait calls s = none
drive cond_woken calls s = locking s (check_all s)
drive (posting prev (suc left) and_wait) calls s =
    some
      (record s { barrier = semaphore_signal s.barrier prev; control = posting prev left and_wait })
drive (posting prev zero true) calls s = some (check_all s)
drive (posting prev zero false) calls s =
    some (record s { barrier = record s.barrier { locked = false }; control = ready })
drive aborted calls s = none

-- The next step of the controller.
pub control_step : System → Option System
control_step s = drive s.control s.calls s

-- `condition_signal`, or a wakeup with no cause: it wakes the controller if that waits.
unfoldable pub wake : Control → Control
wake cond_wait = cond_woken
wake c = c

pub absorb : System → ℕ → Moved → System
absorb s i m = record s {
  barrier = m.barrier;
  workers = set s.workers i m.worker;
  control = if m.signalled then wake s.control else s.control;
}

-- The next step of worker `i`.
pub thread_step : ℕ → System → Option System
unfolding absorb
thread_step i s = elim (get_elem? s.workers i) [
  | none ↦ none
  | some w ↦ elim (worker_step s.running s.barrier w) [ none ↦ none | some m ↦ some (absorb s i m) ]
]

abbrev pub is_destroy : Method → Bool
is_destroy destroy = true
is_destroy _ = false

-- A method is called when the one before it has returned, and none after the destructor.
pub begin : Method → Control → List Call → System → Option System
begin m ready [] s =
    if s.destroyed
    then none
    else some (record s { calls = method_calls (length s.workers) m; destroyed = is_destroy m })
begin m _ _ s = none

pub invoke : Method → System → Option System
unfolding begin
invoke m s = begin m s.control s.calls s

-- Who moves next.
pub data Action : Type 0 where
  worker : ℕ → Action
  controller : Action
  spurious : Action  -- the controller's wait ends with no signal
  call : Method → Action

pub step : Action → System → Option System
step (worker i) s = thread_step i s
step controller s = control_step s
step spurious s = elim s.control [ cond_wait ↦ some (record s { control = cond_woken }) | _ ↦ none ]
step (call m) s = invoke m s

pub data Step (s : System) : System → Type 0 where
  act : (a : Action) {t : System} → step a s ≡ some t → Step s t

pub data Reach : System → Type 0 where
  begun : Reach start
  later : {s t : System} → Reach s → Step s t → Reach t
