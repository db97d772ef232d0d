-- ===== src/Threads/Invariant/Workers.antt =====
-- About the loop of a worker (src/worker_pool_implementation.h): the balance of the barrier and a
-- step of one worker.
use twine.Prelude.{
  ℕ, ◌+◌, ◌-◌, ◌≤◌, ◌<◌, ◌≡◌, Bool, true, false, some, List, total-set, All-get, All-set, get_elem?,
  set, arith, ◌∙◌, sym, subst, inl, inr, Bool-cases, if◌then◌else◌,
}
use twine.Barrier.{Barrier, sem_value, wait, semaphore_wait}
use twine.Worker.{Worker, Moved, worker_step}
use twine.Threads.{Control, ready, cond_wait, cond_woken, posting, aborted, wake}
use twine.Threads.Invariant.Defs.{
  on_sem, Lockstep, left_of, is_posting, Signals, Balanced, Serving, Waits,
}

record Kept (b : Barrier) (w : Worker) (rounds : ℕ) (m : Moved) : Type 0 where
  index : m.barrier.active_sem_idx ≡ b.active_sem_idx
  expected : m.barrier.no_threads ≡ b.no_threads
  held : m.barrier.locked ≡ b.locked
  counted :
      m.barrier.on_barrier + on_sem b.active_sem_idx w
      ≡ b.on_barrier + on_sem b.active_sem_idx m.worker
  fresh : sem_value m.barrier b.active_sem_idx ≡ 0
  owed :
      sem_value m.barrier (1 - b.active_sem_idx) + on_sem (1 - b.active_sem_idx) w
      ≡ sem_value b (1 - b.active_sem_idx) + on_sem (1 - b.active_sem_idx) m.worker
  lockstep : Lockstep b.active_sem_idx rounds m.worker

worker_step-Kept :
    (b : Barrier) (w : Worker) (rounds : ℕ)
    → b.active_sem_idx ≤ 1
    → sem_value b b.active_sem_idx ≡ 0
    → Lockstep b.active_sem_idx rounds w
    → (running : Bool) (m : Moved) → worker_step running b w ≡ some m
    → Kept b w rounds m
unfolding worker_step wait semaphore_wait
worker_step-Kept b w rounds index fresh lock running m e = ground arith

pub worker_step-active :
    (running : Bool) (b : Barrier) (w : Worker) {m : Moved}
    → worker_step running b w ≡ some m
    → b.active_sem_idx ≡ m.barrier.active_sem_idx
unfolding worker_step wait semaphore_wait
worker_step-active running b w e = ground arith

pub worker_step-no_threads :
    (running : Bool) (b : Barrier) (w : Worker) {m : Moved}
    → worker_step running b w ≡ some m
    → m.barrier.no_threads ≡ b.no_threads
unfolding worker_step wait semaphore_wait
worker_step-no_threads running b w e = ground arith

pub worker_step-thread_running :
    (running : Bool) (b : Barrier) (w : Worker) {m : Moved}
    → worker_step running b w ≡ some m
    → m.worker.thread_running ≡ w.thread_running
unfolding worker_step wait semaphore_wait
worker_step-thread_running running b w e = ground arith

-- The worker that completes the barrier signals.
worker_step-on_barrier :
    (running : Bool) (b : Barrier) (w : Worker) {m : Moved}
    → worker_step running b w ≡ some m
    → m.signalled ≡ false
    → b.on_barrier < b.no_threads
    → m.barrier.on_barrier < m.barrier.no_threads
unfolding worker_step wait semaphore_wait
worker_step-on_barrier running b w e h lt = ground arith

-- A controller that sleeps is woken when its reason to sleep is gone.
pub wake-Waits :
    (running : Bool) (b : Barrier) (w : Worker) (fs : List Bool) (c : Control) {m : Moved}
    → worker_step running b w ≡ some m
    → Waits running b fs c
    → Waits running m.barrier fs (if m.signalled then wake c else c)
unfolding wake
wake-Waits running b w fs c {m} e h = elim (Bool-cases m.signalled) [
  | inl f ↦ rw f (woken c h)
  | inr f ↦ rw f (asleep c h f)
]
  where
    serving : Serving running b.no_threads fs → Serving running m.barrier.no_threads fs
    serving v = subst (λ n. Serving running n fs) (sym (worker_step-no_threads running b w e)) v

    woken : (c : Control) → Waits running b fs c → Waits running m.barrier fs (wake c)
    woken ready h = tt
    woken cond_wait h = serving h.0
    woken cond_woken h = serving h
    woken (posting prev left true) h = serving h
    woken (posting prev left false) h = tt
    woken aborted h = tt

    asleep :
        (c : Control) → Waits running b fs c → m.signalled ≡ false → Waits running m.barrier fs c
    asleep ready h f = tt
    asleep cond_wait h f = (serving h.0, worker_step-on_barrier running b w e f h.1)
    asleep cond_woken h f = serving h
    asleep (posting prev left true) h f = serving h
    asleep (posting prev left false) h f = tt
    asleep aborted h f = tt

Signals-wake :
    (active : ℕ) (c : Control) (signalled : Bool)
    → Signals active c
    → Signals active (if signalled then wake c else c)
unfolding wake
Signals-wake active c false h = h
Signals-wake active cond_wait true h = tt
Signals-wake active ready true h = h
Signals-wake active cond_woken true h = h
Signals-wake active (posting _ _ _) true h = h
Signals-wake active aborted true h = h

-- Whatever worker moves, the workers and the barrier stay balanced; only a controller that waits can
-- be woken by it.
pub thread_step-Balanced :
    {b : Barrier} {ws : List Worker} {c : Control} {rounds : ℕ}
    → Balanced b ws c rounds
    → (running : Bool) (i : ℕ) (w : Worker) (m : Moved) → get_elem? ws i ≡ some w
    → worker_step running b w ≡ some m
    → Balanced m.barrier (set ws i m.worker) (if m.signalled then wake c else c) rounds
unfolding wake
thread_step-Balanced {b} {ws} {c} {rounds} v running i w m at moved = record {
  index = rw k.index v.index;
  counted =
      rw k.index (
        omega
          (arith, v.counted, k.counted, total-set (on_sem b.active_sem_idx) ws i w m.worker at));
  fresh = rw k.index k.fresh;
  owed = rw k.index (
      omega (
        arith,
        v.owed,
        k.owed,
        same.0,
        total-set (on_sem (1 - b.active_sem_idx)) ws i w m.worker at,
      ));
  held = k.held ∙ v.held ∙ sym same.1;
  signals = rw k.index (Signals-wake b.active_sem_idx c m.signalled v.signals);
  lockstep =
      rw k.index (All-set (Lockstep b.active_sem_idx rounds) ws i m.worker v.lockstep k.lockstep);
}
  where
    k : Kept b w rounds m
    k = worker_step-Kept b w rounds v.index v.fresh (All-get _ ws i v.lockstep at) running m moved

    same :
        (left_of (if m.signalled then wake c else c) ≡ left_of c)
        × (is_posting (if m.signalled then wake c else c) ≡ is_posting c)
    same = ground arith
