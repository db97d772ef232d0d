-- ===== src/Threads/Orderly/Workers.antt =====
-- About the loop of a worker (src/worker_pool_implementation.h): the order and a step of one
-- worker.
use twine.Prelude.{
  ℕ, ◌≡◌, ◌≢◌, Bool, true, false, none, some, List, All-get, All-set, get_elem?, arith,
  if◌then◌else◌,
}
use twine.Barrier.{Barrier, sem_value, wait, semaphore_wait}
use twine.Worker.{Worker, blocked, Moved, worker_step}
use twine.Threads.{System, Control, ready, cond_wait, cond_woken, posting, aborted, wake, absorb}
use twine.Threads.Invariant.Defs.{Balanced}
use twine.Calls.{Call}
use twine.Threads.Orderly.Defs.{AllBlocked, Stops, Exits, AtControl, Orderly}

worker_step-Stops :
    (running : Bool) (b : Barrier) (w : Worker) (m : Moved)
    → worker_step running b w ≡ some m
    → Stops running b.active_sem_idx w
    → Stops running b.active_sem_idx m.worker
unfolding worker_step wait semaphore_wait
worker_step-Stops running b w m e h = ground arith

worker_step-Exits :
    (running : Bool) (b : Barrier) (w : Worker) (m : Moved)
    → worker_step running b w ≡ some m
    → Exits running w
    → Exits running m.worker
unfolding worker_step wait semaphore_wait
worker_step-Exits running b w m e h = ground arith

-- A worker that is blocked on a semaphore of value 0 has no step.
pub worker_step-blocked :
    (running : Bool) (b : Barrier) (w : Worker)
    → sem_value b b.active_sem_idx ≡ 0
    → w.pc ≡ blocked b.active_sem_idx
    → worker_step running b w ≡ none
unfolding worker_step semaphore_wait
worker_step-blocked running b w h e = ground arith

-- While all workers are blocked on the active semaphore, none can move.
pub AllBlocked-stuck :
    (running : Bool) (b : Barrier) (ws : List Worker) (i : ℕ) {w : Worker} {m : Moved}
    → sem_value b b.active_sem_idx ≡ 0
    → AllBlocked b.active_sem_idx ws
    → get_elem? ws i ≡ some w
    → worker_step running b w ≡ some m
    → ⊥
AllBlocked-stuck running b ws i {w} fresh all at moved =
    let e : worker_step running b w ≡ none =
      worker_step-blocked running b w fresh
        (All-get (λ u. u.pc ≡ blocked b.active_sem_idx) ws i all at) in
    cc

wake-AtControl :
    (active : ℕ) (ws ws' : List Worker) (calls : List Call) (c : Control) (signalled : Bool)
    → (AllBlocked active ws → ⊥)
    → AtControl active ws calls c
    → AtControl active ws' calls (if signalled then wake c else c)
unfolding wake
wake-AtControl active ws ws' calls ready true stuck h = λ d. absurd (stuck (h d))
wake-AtControl active ws ws' calls ready false stuck h = λ d. absurd (stuck (h d))
wake-AtControl active ws ws' calls cond_wait true stuck h = tt
wake-AtControl active ws ws' calls cond_wait false stuck h = tt
wake-AtControl active ws ws' calls cond_woken true stuck h = tt
wake-AtControl active ws ws' calls cond_woken false stuck h = tt
wake-AtControl active ws ws' calls (posting _ _ true) true stuck h = tt
wake-AtControl active ws ws' calls (posting _ _ true) false stuck h = tt
wake-AtControl active ws ws' calls (posting _ _ false) true stuck h = h
wake-AtControl active ws ws' calls (posting _ _ false) false stuck h = h
wake-AtControl active ws ws' calls aborted true stuck h = tt
wake-AtControl active ws ws' calls aborted false stuck h = tt

wake-aborted :
    (c : Control) (signalled : Bool) → (if signalled then wake c else c) ≢ aborted → c ≢ aborted
unfolding wake
wake-aborted c signalled h = ground arith

-- Whatever worker moves, the order is kept.
pub absorb-Orderly :
    (s : System) (i : ℕ) (w : Worker) (m : Moved)
    → Balanced s.barrier s.workers s.control s.rounds
    → Orderly s
    → get_elem? s.workers i ≡ some w
    → worker_step s.running s.barrier w ≡ some m
    → m.barrier.active_sem_idx ≡ s.barrier.active_sem_idx
    → Orderly (absorb s i m)
unfolding absorb
absorb-Orderly s i w m v o at moved same = record {
  shape = o.shape;
  settled = rw same (
      wake-AtControl s.barrier.active_sem_idx s.workers _ s.calls s.control m.signalled
        (λ all. AllBlocked-stuck s.running s.barrier s.workers i v.fresh all at moved) o.settled);
  stops = λ live none_left.
      let old = o.stops (wake-aborted s.control m.signalled live) none_left in
      rw same (
        All-set (Stops s.running s.barrier.active_sem_idx) s.workers i m.worker old
          (worker_step-Stops s.running s.barrier w m moved (All-get _ s.workers i old at)));
  exits =
      All-set (Exits s.running) s.workers i m.worker o.exits
        (worker_step-Exits s.running s.barrier w m moved (All-get _ s.workers i o.exits at));
}
