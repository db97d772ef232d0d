-- ===== src/Threads/Orderly/Reach.antt =====
-- About all of the pool (src/worker_pool_implementation.h): the order of the calls and the steps
-- of the system.
use twine.Prelude.{
  ℕ, zero, suc, ◌≡◌, ◌≢◌, refl, sym, subst, Bool, true, false, some, List, [], ◌∷◌, All, arith,
  of_some, length,
}
use twine.Barrier.{Barrier, semaphore_signal}
use twine.Worker.{Worker}
use twine.Calls.{
  Call, Method, add_worker, not_created, init_failed, added, wait_for_workers_idle, wakeup_workers,
  wakeup_and_wait, destroy, method_calls,
}
use twine.Threads.{
  System, start, Control, ready, cond_wait, cond_woken, posting, aborted, exec, drive, begin,
  invoke, check_all, control_step, step, Step, act, worker, controller, spurious, call, Reach,
  begun, later,
}
use twine.Threads.Invariant.Defs.{Serving, flags, Inv, Plan}
use twine.Threads.Invariant.{
  worker_step-active, semaphore_signal-active, Inv-Serving, thread_step-some, begin-some,
  spurious-some, Reach-Inv, locking-some, at_wait,
}
use twine.Threads.Orderly.Defs.{Shape, Stops, AtControl, due, Orderly}
use twine.Threads.Orderly.Workers.{absorb-Orderly}
use twine.Threads.Orderly.Calls.{exec-Orderly, check_all-Orderly}

at_control :
    {s : System} {c : Control}
    → s.control ≡ c
    → Orderly s
    → AtControl s.barrier.active_sem_idx s.workers s.calls c
at_control {s} e o = subst (AtControl s.barrier.active_sem_idx s.workers s.calls) e o.settled

check-Orderly :
    (s : System)
    → Inv s
    → Orderly s
    → s.control ≢ aborted
    → Serving s.running s.barrier.no_threads (flags s.workers)
    → Orderly (check_all s)
check-Orderly s v o live serving =
    check_all-Orderly s v.balanced serving.all_expected o.shape (o.stops live) o.exits

next_call-Orderly :
    (c : Call) (calls : List Call) (s : System) {t : System}
    → s.control ≡ ready
    → s.calls ≡ c ∷ calls
    → Inv s
    → Orderly s
    → exec c (record s { calls = calls }) ≡ some t
    → Orderly t
next_call-Orderly c calls s at todo v o e =
    exec-Orderly c (record s { calls = calls })
      (record {
        balanced = v.balanced;
        quiet = at;
        planned =
            subst (Plan s.destroyed s.running s.barrier.no_threads (flags s.workers)) todo
              v.planned;
        shape = subst Shape todo o.shape;
        settled = λ d. at_control at o (rw todo d);
        stops = λ h. o.stops (ground (arith, at)) (rw todo h);
        exits = o.exits;
      })
      e

-- The barrier after a signal is, but for its semaphores, the barrier before it.
posting-AtControl :
    (b : Barrier) (ws : List Worker) (calls : List Call) (prev left : ℕ) (and_wait : Bool)
    → AtControl b.active_sem_idx ws calls (posting prev (suc left) and_wait)
    → AtControl (semaphore_signal b prev).active_sem_idx ws calls (posting prev left and_wait)
posting-AtControl b ws calls prev left true h = tt
posting-AtControl b ws calls prev left false h = h

false-true : {b : Bool} → b ≡ false → b ≡ true → ⊥
false-true f d = cc

drive-Orderly :
    (c : Control) (calls : List Call) (s : System) {t : System}
    → s.control ≡ c
    → s.calls ≡ calls
    → Inv s
    → Orderly s
    → drive c calls s ≡ some t
    → Orderly t
unfolding drive
drive-Orderly ready [] s at todo v o e = absurd (ground arith)
drive-Orderly ready (c ∷ calls) s at todo v o e = next_call-Orderly c calls s at todo v o e
drive-Orderly cond_wait calls s at todo v o e = absurd (ground arith)
drive-Orderly cond_woken calls s at todo v o e =
    subst Orderly (locking-some s _ e) (check-Orderly s v o (ground (arith, at)) (at_wait at v))
drive-Orderly (posting prev (suc left) and_wait) calls s at todo v o e =
    subst Orderly (of_some e) (record {
      shape = o.shape;
      settled = posting-AtControl s.barrier s.workers s.calls prev left and_wait (at_control at o);
      stops =
          λ live h. rw (semaphore_signal-active s.barrier prev) (o.stops (ground (arith, at)) h);
      exits = o.exits;
    })
drive-Orderly (posting prev zero true) calls s at todo v o e =
    subst Orderly (of_some e) (check-Orderly s v o (ground (arith, at)) (at_wait at v))
drive-Orderly (posting prev zero false) calls s at todo v o e = subst Orderly (of_some e) (record {
  shape = o.shape;
  settled = λ d. absurd (false-true (at_control at o) d);
  stops = λ live h. o.stops (ground (arith, at)) h;
  exits = o.exits;
})
drive-Orderly aborted calls s at todo v o e = absurd (ground arith)

method_calls-Shape : (n : ℕ) (m : Method) → Shape (method_calls n m)
unfolding method_calls
method_calls-Shape n (add_worker not_created) = ground arith
method_calls-Shape n (add_worker init_failed) = ground arith
method_calls-Shape n (add_worker added) = ground arith
method_calls-Shape n wait_for_workers_idle = tt
method_calls-Shape n wakeup_workers = ground arith
method_calls-Shape n wakeup_and_wait = ground arith
method_calls-Shape n destroy = ground arith

method_calls-due : (n : ℕ) (m : Method) → due (method_calls n m) ≡ false
unfolding method_calls
method_calls-due n (add_worker not_created) = refl
method_calls-due n (add_worker init_failed) = refl
method_calls-due n (add_worker added) = refl
method_calls-due n wait_for_workers_idle = refl
method_calls-due n wakeup_workers = refl
method_calls-due n wakeup_and_wait = refl
method_calls-due n destroy = refl

-- No worker of a pool that serves has been told to stop.
serving-Stops :
    (running : Bool) (active : ℕ) (ws : List Worker)
    → running ≡ true
    → All (λ f. f ≡ true) (flags ws)
    → All (Stops running active) ws
serving-Stops running active [] r h = tt
serving-Stops running active (w ∷ ws) r h =
    ((λ told. absurd (ground (arith, h.0))), serving-Stops running active ws r h.1)

begin-Orderly :
    (m : Method) (c : Control) (calls : List Call) (s : System) {t : System}
    → s.control ≡ c
    → s.calls ≡ calls
    → Inv s
    → Orderly s
    → begin m c calls s ≡ some t
    → Orderly t
begin-Orderly m ready [] s at todo v o e =
    let (alive, end) = begin-some m s e in
    let serving = Inv-Serving s v todo alive in
    subst Orderly end (record {
      shape = method_calls-Shape (length s.workers) m;
      settled =
          subst (AtControl s.barrier.active_sem_idx s.workers (method_calls (length s.workers) m))
            (sym at) (λ d. absurd (false-true (method_calls-due (length s.workers) m) d));
      stops = λ live h.
          serving-Stops s.running s.barrier.active_sem_idx s.workers serving.pool_running
            serving.all_running;
      exits = o.exits;
    })
begin-Orderly m ready (c ∷ calls) s at todo v o e = absurd (unfold begin in ground arith)
begin-Orderly m cond_wait _ s at todo v o e = absurd (unfold begin in ground arith)
begin-Orderly m cond_woken _ s at todo v o e = absurd (unfold begin in ground arith)
begin-Orderly m (posting _ _ _) _ s at todo v o e = absurd (unfold begin in ground arith)
begin-Orderly m aborted _ s at todo v o e = absurd (unfold begin in ground arith)

pub Step-Orderly : {s t : System} → Step s t → Inv s → Orderly s → Orderly t
unfolding step control_step invoke
Step-Orderly {s} (act (worker i) e) v o =
    let (w, m, at, moved, end) = thread_step-some i s e in
    subst Orderly end (
      absorb-Orderly s i w m v.balanced o at moved
        (sym (worker_step-active s.running s.barrier w moved)))
Step-Orderly {s} (act controller e) v o = drive-Orderly s.control s.calls s refl refl v o e
Step-Orderly {s} (act spurious e) v o =
    let (waits, end) = spurious-some s e in
    subst Orderly end (record {
      shape = o.shape;
      settled = tt;
      stops = λ live h. o.stops (ground (arith, waits)) h;
      exits = o.exits;
    })
Step-Orderly {s} (act (call m) e) v o = begin-Orderly m s.control s.calls s refl refl v o e

-- In every reachable state: only a wait for the workers comes before the calls that stop or release
-- workers in the middle of a method, and when these are next all workers are blocked on the active
-- semaphore; a worker that has been told to stop is, once no release is to come and no assertion has
-- failed, on its way out, or out of its loop: nothing but a signal that it is owed can hold it; and a
-- worker is out of its loop only if it was told to stop.
pub Reach-Orderly : {s : System} → Reach s → Orderly s
unfolding start
Reach-Orderly begun = record { shape = tt; settled = λ d. tt; stops = λ live h. tt; exits = tt }
Reach-Orderly (later r st) = Step-Orderly st (Reach-Inv r) (Reach-Orderly r)
