-- ===== src/Threads/Invariant/Reach.antt =====
-- About all of the pool (src/worker_pool_implementation.h): the invariant and the steps of the
-- system.
use twine.Prelude.{
  ℕ, zero, suc, ◌≡◌, refl, sym, subst, Bool, true, false, some, List, [], ◌∷◌, arith, if◌then◌else◌,
  get_elem?, of_some, Option-cases, inl, inr, map-set, set,
}
use twine.Barrier.{semaphore_signal}
use twine.Worker.{Worker, worker_step, Moved}
use twine.Calls.{Call}
use twine.Threads.{
  System, start, Control, ready, cond_wait, cond_woken, posting, aborted, control_step, thread_step,
  absorb, invoke, worker, controller, spurious, call, step, Step, act, Reach, begun, later, drive,
  wake,
}
use twine.Threads.Invariant.Defs.{Plan, Serving, Waits, flags, Inv}
use twine.Threads.Invariant.Workers.{
  thread_step-Balanced, worker_step-no_threads, worker_step-thread_running, wake-Waits,
}
use twine.Threads.Invariant.Control.{
  signal-Balanced, semaphore_signal-no_threads, unlock-Balanced, quiet-Balanced,
}
use twine.Threads.Invariant.Steps.{exec-Inv, check_all-Inv}
use twine.Threads.Invariant.Removal.{locking-some}
use twine.Threads.Invariant.Methods.{begin-Inv, at_control, at_wait}

signal-Waits :
    (s : System) (prev left : ℕ) (and_wait : Bool)
    → Waits s.running s.barrier (flags s.workers) (posting prev (suc left) and_wait)
    → Waits s.running
        (semaphore_signal s.barrier prev)
        (flags s.workers)
        (posting prev left and_wait)
signal-Waits s prev left false h = tt
signal-Waits s prev left true h =
    subst (λ n. Serving s.running n (flags s.workers))
      (sym (semaphore_signal-no_threads s.barrier prev)) h

drive-Inv :
    (c : Control) (calls : List Call) (s : System) {t : System}
    → s.control ≡ c
    → s.calls ≡ calls
    → Inv s
    → drive c calls s ≡ some t
    → Inv t
unfolding drive
drive-Inv ready [] s at todo v e = absurd (ground arith)
drive-Inv ready (c ∷ calls) s at todo v e =
    exec-Inv c (record s { calls = calls }) v.balanced at
      (subst (Plan s.destroyed s.running s.barrier.no_threads (flags s.workers)) todo v.planned) e
drive-Inv cond_wait calls s at todo v e = absurd (ground arith)
drive-Inv cond_woken calls s at todo v e =
    subst Inv (locking-some s _ e)
      (check_all-Inv s v.balanced (ground arith) (at_wait at v) v.planned)
drive-Inv (posting prev (suc left) and_wait) calls s at todo v e = subst Inv (of_some e) (record {
  balanced = signal-Balanced prev left and_wait (at_control at v);
  planned =
      subst (λ n. Plan s.destroyed s.running n (flags s.workers) s.calls)
        (sym (semaphore_signal-no_threads s.barrier prev)) v.planned;
  waits = signal-Waits s prev left and_wait (at_wait at v);
})
drive-Inv (posting prev zero true) calls s at todo v e =
    subst Inv (of_some e) (check_all-Inv s v.balanced (ground arith) (at_wait at v) v.planned)
drive-Inv (posting prev zero false) calls s at todo v e = subst Inv (of_some e) (record {
  balanced = unlock-Balanced _ ready (at_control at v) refl refl;
  planned = v.planned;
  waits = tt;
})
drive-Inv aborted calls s at todo v e = absurd (ground arith)

pub thread_step-some :
    (i : ℕ) (s : System) {t : System}
    → thread_step i s ≡ some t
    → (w : Worker) × (m : Moved) × (get_elem? s.workers i ≡ some w)
      × (worker_step s.running s.barrier w ≡ some m)
      × (absorb s i m ≡ t)
unfolding thread_step
thread_step-some i s e = elim (Option-cases (get_elem? s.workers i)) [
  | inl f ↦ absurd (ground (arith, f))
  | inr (w, f) ↦ elim (Option-cases (worker_step s.running s.barrier w)) [
    | inl g ↦ absurd (ground (arith, f, g))
    | inr (m, g) ↦ (w, m, f, g, ground (arith, f, g))
  ]
]

replan :
    (gone running : Bool) (calls : List Call) {a b : ℕ} {m n : List Bool}
    → a ≡ b
    → m ≡ n
    → Plan gone running a m calls
    → Plan gone running b n calls
replan gone running calls {a} {n} e f p =
    subst (λ k. Plan gone running k n calls) e (subst (λ k. Plan gone running a k calls) f p)

thread_step-Inv : (i : ℕ) (s : System) {t : System} → Inv s → thread_step i s ≡ some t → Inv t
thread_step-Inv i s v e =
    let (w, m, at, moved, end) = thread_step-some i s e in
    let same : flags (set s.workers i m.worker) ≡ flags s.workers =
      map-set (λ u. u.thread_running) s.workers i w m.worker at
        (worker_step-thread_running s.running s.barrier w moved) in
    subst Inv end (
      unfold absorb in
      record {
        balanced = thread_step-Balanced v.balanced s.running i w m at moved;
        planned =
            replan s.destroyed s.running s.calls
              (sym (worker_step-no_threads s.running s.barrier w moved)) (sym same) v.planned;
        waits =
            subst
              (λ fs.
                Waits s.running m.barrier fs (if m.signalled then wake s.control else s.control))
              (sym same)
              (wake-Waits s.running s.barrier w (flags s.workers) s.control moved v.waits);
      })

pub spurious-some :
    (s : System) {t : System}
    → step spurious s ≡ some t
    → (s.control ≡ cond_wait) × (record s { control = cond_woken } ≡ t)
unfolding step
spurious-some s e = ground arith

spurious-Inv : (s : System) {t : System} → Inv s → step spurious s ≡ some t → Inv t
spurious-Inv s v e =
    let (waits, end) = spurious-some s e in
    subst Inv end (record {
      balanced = quiet-Balanced s.control cond_woken v.balanced (ground (arith, waits)) refl;
      planned = v.planned;
      waits = (at_wait waits v).0;
    })

start-Inv : Inv start
unfolding start
start-Inv = record {
  balanced = record {
    index = omega arith;
    counted = refl;
    fresh = refl;
    owed = refl;
    held = refl;
    signals = tt;
    lockstep = tt;
  };
  planned = inr (record { all_expected = refl; pool_running = refl; all_running = tt });
  waits = tt;
}

-- Every step, of a worker, of the controller, of its client, or for no cause, keeps the invariant: the
-- barrier counts the workers that are blocked on the active semaphore, whose value is 0; the other
-- semaphore has, with the signals still to come, one signal for each worker that is blocked there; the
-- mutex is held just during these signals; each worker is in step with the releases; and the flags, the
-- expected number of threads and the calls that are left fit together.
pub Step-Inv : {s t : System} → Step s t → Inv s → Inv t
unfolding step control_step invoke
Step-Inv {s} (act (worker i) e) v = thread_step-Inv i s v e
Step-Inv {s} (act controller e) v = drive-Inv s.control s.calls s refl refl v e
Step-Inv {s} (act spurious e) v = spurious-Inv s v e
Step-Inv {s} (act (call m) e) v = begin-Inv m s.control s.calls s refl refl v e

pub Reach-Inv : {s : System} → Reach s → Inv s
Reach-Inv begun = start-Inv
Reach-Inv (later r st) = Step-Inv st (Reach-Inv r)
