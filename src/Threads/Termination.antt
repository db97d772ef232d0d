-- ===== src/Threads/Termination.antt =====
-- About the methods of WorkerPoolImpl (src/worker_pool_implementation.h): the measure of how many
-- steps the workers and the controller have before them.
use twine.Prelude.{
  ℕ, suc, ◌+◌, ◌-◌, ◌*◌, ◌≤◌, ◌<◌, ◌≡◌, inl, inr, refl, sym, subst, Bool, true, false, some, List,
  [], ◌∷◌, All-get, arith, length, of_some, ◌==◌, if◌then◌else◌, ℕ_discrete, Bool-cases, ap,
  length-map, length-set, total, total-set, ◌∙◌,
}
use twine.Barrier
use twine.Barrier.{
  Barrier, sem_value, wait, semaphore_wait, must_wait, all_on_barrier, begin_release,
  semaphore_signal,
}
use twine.Worker.{
  Worker, Pc, at_barrier, blocked, woken, in_callback, exited, Moved, worker_step, stop_thread,
}
use twine.Calls.{
  Call, set_no_threads, run_worker, wait_for_all, release_all, release_and_wait, stop_running,
  stop_last, join_last, join_all,
}
use twine.Threads.{
  System, Control, ready, cond_woken, posting, thread_step, exec, release, check_all, stop_head,
  absorb, wake,
}
use twine.Threads.Invariant.Defs.{Lockstep, Inv, flags, Plan}
use twine.Threads.Invariant.{
  worker_step-active, thread_step-some, locking-some, begin_release-some, begin_release-none,
  exec-join_last, exec-join_all, join_head-some,
}

-- Steps that a worker has before it until it is blocked on the active semaphore; the arrival there
-- counts twice, since it can wake the controller.
abbrev pub ahead_at : ℕ → Pc → ℕ
ahead_at active at_barrier = 2
ahead_at active in_callback = 3
ahead_at active woken = 4
ahead_at active (blocked k) = if k == active then 0 else 5
ahead_at active exited = 0

abbrev pub ahead : ℕ → Worker → ℕ
ahead active w = ahead_at active w.pc

abbrev pub control_ahead : Control → ℕ
control_ahead cond_woken = 1
control_ahead (posting prev left and_wait) = left + 1
control_ahead _ = 0

-- What the calls to come can add, with `n` workers in the pool.
abbrev pub cost : ℕ → List Call → ℕ
cost n [] = 0
cost n (run_worker ∷ calls) = 3 + cost (n + 1) calls
cost n (release_all ∷ calls) = 6 * n + 2 + cost n calls
cost n (release_and_wait ∷ calls) = 6 * n + 2 + cost n calls
cost n (join_last ∷ calls) = 1 + cost (n - 1) calls
cost n (join_all ∷ calls) = 1 + cost 0 calls
cost n (c ∷ calls) = 1 + cost n calls

abbrev pub measure : System → ℕ
measure s =
    cost (length s.workers) s.calls
    + total (ahead s.barrier.active_sem_idx) s.workers
    + control_ahead s.control

worker_step-ahead :
    (running : Bool) (b : Barrier) (w : Worker) (rounds : ℕ) (c : Control) (m : Moved)
    → sem_value b b.active_sem_idx ≡ 0
    → Lockstep b.active_sem_idx rounds w
    → worker_step running b w ≡ some m
    → ahead b.active_sem_idx m.worker + control_ahead (if m.signalled then wake c else c)
      < ahead b.active_sem_idx w + control_ahead c
unfolding worker_step wait semaphore_wait wake
worker_step-ahead running b w rounds c m fresh l e = ground arith

pub thread_step-measure :
    (i : ℕ) (s : System) {t : System} → Inv s → thread_step i s ≡ some t → measure t < measure s
thread_step-measure i s {t} v e =
    let (w, m, at, moved, end) = thread_step-some i s e in
    let b = v.balanced in
    subst (λ t. measure t < measure s) end
      (unfold absorb in
        rw (sym (worker_step-active s.running s.barrier w moved), length-set s.workers i m.worker)
          (omega (
            arith,
            total-set (ahead s.barrier.active_sem_idx) s.workers i w m.worker at,
            worker_step-ahead s.running s.barrier w s.rounds s.control m b.fresh
                (All-get _ s.workers i b.lockstep at) moved,
          )))

pub check_all-measure :
    (s : System)
    → measure (check_all s)
      ≤ cost (length s.workers) s.calls + total (ahead s.barrier.active_sem_idx) s.workers
unfolding check_all
check_all-measure s = ground arith

ahead-le : (active : ℕ) (w : Worker) → ahead active w ≤ 5
ahead-le active w = ground arith

total-ahead-le : (active : ℕ) (ws : List Worker) → total (ahead active) ws ≤ 5 * length ws
total-ahead-le active [] = omega arith
total-ahead-le active (w ∷ ws) = omega (arith, ahead-le active w, total-ahead-le active ws)

release-measure :
    (s : System) (and_wait : Bool)
    → s.barrier.no_threads ≡ length s.workers
    → measure (release and_wait s)
      ≤ cost (length s.workers) s.calls
        + 6 * length s.workers
        + 1
        + total (ahead s.barrier.active_sem_idx) s.workers
unfolding release
release-measure s and_wait e = elim (ℕ_discrete s.barrier.on_barrier s.barrier.no_threads) [
  | yes full ↦
      rw (begin_release-some s.barrier full, release)
        (omega (arith, total-ahead-le (1 - s.barrier.active_sem_idx) s.workers))
  | no short ↦ rw (begin_release-none s.barrier short, release) (omega arith)
]

stop_head-measure :
    (active : ℕ) (ws : List Worker)
    → (length (stop_head ws) ≡ length ws)
      × (total (ahead active) (stop_head ws) ≡ total (ahead active) ws)
unfolding stop_head stop_thread
stop_head-measure active [] = (refl, refl)
stop_head-measure active (w ∷ ws) = (refl, refl)

-- The call `c` has not cost more than it may.
abbrev pub Pays : Call → System → System → Type 0
Pays c s t =
    measure t
    < cost (length s.workers) (c ∷ s.calls) + total (ahead s.barrier.active_sem_idx) s.workers

-- The head of the list leaves it.
tail-measure :
    (active : ℕ) (calls : List Call) (ws rest : List Worker) {w : Worker}
    → ws ≡ w ∷ rest
    → cost (length rest) calls + total (ahead active) rest
      ≤ cost (length ws - 1) calls + total (ahead active) ws
tail-measure active calls ws rest {w} e =
    rw e (omega (arith, ap (λ n. cost n calls) (pred_eq (length rest))))
  where
    pred_eq : (n : ℕ) → suc n - 1 ≡ n
    pred_eq n = omega arith

ready_ahead : {c : Control} → c ≡ ready → control_ahead c ≡ 0
ready_ahead e = ap control_ahead e

wait-measure :
    (s : System)
    → s.control ≡ ready
    → Pays wait_for_all s (if all_on_barrier s.barrier then s else check_all s)
wait-measure s at = elim (Bool-cases (all_on_barrier s.barrier)) [
  | inl e ↦ rw e (omega (arith, ready_ahead at))
  | inr e ↦ rw e (omega (arith, check_all-measure s))
]

-- Each call costs what it adds.
pub exec-measure :
    (c : Call) (s : System) {t : System}
    → s.control ≡ ready
    → Plan s.destroyed s.running s.barrier.no_threads (flags s.workers) (c ∷ s.calls)
    → exec c s ≡ some t
    → Pays c s t
unfolding exec Barrier.set_no_threads
exec-measure (set_no_threads n) s at p e =
    subst (Pays (set_no_threads n) s) (locking-some s _ e) (omega (arith, ready_ahead at))
exec-measure run_worker s at p e =
    subst (Pays run_worker s) (of_some e)
      (omega (arith, ready_ahead at, ap (λ n. cost n s.calls) (plus_one (length s.workers))))
  where
    plus_one : (n : ℕ) → n + 1 ≡ suc n
    plus_one n = omega arith
exec-measure wait_for_all s at p e =
    subst (Pays wait_for_all s) (locking-some s _ e) (wait-measure s at)
exec-measure release_all s at p e =
    subst (Pays release_all s) (locking-some s _ e)
      (omega (arith, release-measure s false (p.0 ∙ length-map s.workers _)))
exec-measure release_and_wait s at p e =
    subst (Pays release_and_wait s) (locking-some s _ e)
      (omega (arith, release-measure s true (p.0.all_expected ∙ length-map s.workers _)))
exec-measure stop_running s at p e =
    subst (Pays stop_running s) (of_some e) (omega (arith, ready_ahead at))
exec-measure stop_last s at p e =
    subst (Pays stop_last s) (of_some e) (rw (h.0, h.1) (omega (arith, ready_ahead at)))
  where
    h :
        (length (stop_head s.workers) ≡ length s.workers)
        × (total (ahead s.barrier.active_sem_idx) (stop_head s.workers)
            ≡ total (ahead s.barrier.active_sem_idx) s.workers)
    h = stop_head-measure s.barrier.active_sem_idx s.workers
exec-measure join_last s at p e =
    let (rest, joined, end) = exec-join_last s e in
    let (w, list, gone) = join_head-some s.workers joined in
    subst (Pays join_last s) end (
      omega
        (arith, ready_ahead at, tail-measure s.barrier.active_sem_idx s.calls s.workers rest list))
exec-measure join_all s at p e =
    subst (Pays join_all s) (exec-join_all s e).1 (omega (arith, ready_ahead at))
