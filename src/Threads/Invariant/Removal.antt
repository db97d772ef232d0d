-- ===== src/Threads/Invariant/Removal.antt =====
-- About `_stop_thread` and the destructors of WorkerThread and WorkerPoolImpl
-- (src/worker_pool_implementation.h): the invariant when workers are stopped or joined.
use twine.Prelude.{
  ℕ, ◌-◌, ◌≡◌, refl, sym, ◌∙◌, subst, Bool, true, some, List, [], ◌∷◌, total, All, arith, ap,
  Option-cases, inl, inr,
}
use twine.Barrier.{Barrier}
use twine.Worker.{Worker, exited, stop_thread}
use twine.Calls.{join_last, join_all}
use twine.Threads.{System, Control, ready, exec, locking, stop_head, join_head, all_exited}
use twine.Threads.Invariant.Defs.{
  on_sem, Lockstep, Balanced, Plan, Waits, flags, clear_head, tail, Inv,
}

pub locking-some : (s t : System) {u : System} → locking s t ≡ some u → t ≡ u
locking-some s t e = ground arith

pub stop_head-Lockstep :
    (active rounds : ℕ) (ws : List Worker)
    → All (Lockstep active rounds) ws
    → All (Lockstep active rounds) (stop_head ws)
unfolding stop_head stop_thread
stop_head-Lockstep active rounds [] h = tt
stop_head-Lockstep active rounds (w ∷ ws) h = h

pub total-stop_head :
    (idx : ℕ) (ws : List Worker) → total (on_sem idx) (stop_head ws) ≡ total (on_sem idx) ws
unfolding stop_head stop_thread
total-stop_head idx [] = refl
total-stop_head idx (w ∷ ws) = refl

pub all_exited-total :
    (idx : ℕ) (ws : List Worker) → all_exited ws ≡ true → total (on_sem idx) ws ≡ 0
unfolding all_exited
all_exited-total idx [] h = refl
all_exited-total idx (w ∷ ws) h = ground (arith, all_exited-total idx ws)

-- The thread that is joined was on no semaphore.
pub join_head-some :
    (ws : List Worker) {rest : List Worker}
    → join_head ws ≡ some rest
    → (w : Worker) × (ws ≡ w ∷ rest) × (w.pc ≡ exited)
unfolding join_head
join_head-some [] e = absurd (ground arith)
join_head-some (w ∷ ws) e = (w, ground arith, ground arith)

pub relist-Balanced :
    {b : Barrier} (ws ws' : List Worker) {c : Control} {rounds : ℕ}
    → Balanced b ws c rounds
    → ((idx : ℕ) → total (on_sem idx) ws' ≡ total (on_sem idx) ws)
    → All (Lockstep b.active_sem_idx rounds) ws'
    → Balanced b ws' c rounds
relist-Balanced {b} ws ws' v same lock = record {
  index = v.index;
  counted = v.counted ∙ sym (same b.active_sem_idx);
  fresh = v.fresh;
  owed = v.owed ∙ sym (same (1 - b.active_sem_idx));
  held = v.held;
  signals = v.signals;
  lockstep = lock;
}

pub replan :
    (s : System) {fs fs' : List Bool}
    → fs ≡ fs'
    → Plan s.destroyed s.running s.barrier.no_threads fs s.calls
    → Plan s.destroyed s.running s.barrier.no_threads fs' s.calls
replan s e p = subst (λ fs. Plan s.destroyed s.running s.barrier.no_threads fs s.calls) e p

pub ready-Waits :
    {c : Control} (running : Bool) (b : Barrier) (fs : List Bool) → c ≡ ready → Waits running b fs c
ready-Waits running b fs e = subst (Waits running b fs) (sym e) tt

pub exec-join_last :
    (s : System) {t : System}
    → exec join_last s ≡ some t
    → (rest : List Worker) × (join_head s.workers ≡ some rest) × (record s { workers = rest } ≡ t)
unfolding exec
exec-join_last s e = elim (Option-cases (join_head s.workers)) [
  | inl f ↦ absurd (ground (arith, f))
  | inr (rest, f) ↦ (rest, f, ground (arith, f))
]

pub exec-join_all :
    (s : System) {t : System}
    → exec join_all s ≡ some t
    → (all_exited s.workers ≡ true) × (record s { workers = [] } ≡ t)
unfolding exec
exec-join_all s e = ground arith

pub flags-stop_head : (ws : List Worker) → clear_head (flags ws) ≡ flags (stop_head ws)
unfolding stop_head stop_thread
flags-stop_head [] = refl
flags-stop_head (w ∷ ws) = refl

pub join_last-Inv :
    (s : System) {t : System}
    → Balanced s.barrier s.workers s.control s.rounds
    → s.control ≡ ready
    → Plan s.destroyed s.running s.barrier.no_threads (tail (flags s.workers)) s.calls
    → exec join_last s ≡ some t
    → Inv t
join_last-Inv s {t} v quiet p e =
    let (rest, joined, end) = exec-join_last s e in
    let (w, list, gone) = join_head-some s.workers joined in
    subst Inv end (record {
      balanced =
          relist-Balanced s.workers rest v (λ idx. rw list (ground (arith, gone)))
            (subst (All (Lockstep s.barrier.active_sem_idx s.rounds)) list v.lockstep).1;
      planned = replan s (ap (λ ws. tail (flags ws)) list) p;
      waits = ready-Waits s.running s.barrier (flags rest) quiet;
    })

pub join_all-Inv :
    (s : System) {t : System}
    → Balanced s.barrier s.workers s.control s.rounds
    → s.control ≡ ready
    → Plan s.destroyed s.running s.barrier.no_threads [] s.calls
    → exec join_all s ≡ some t
    → Inv t
join_all-Inv s v quiet p e =
    let (all, end) = exec-join_all s e in
    subst Inv end (record {
      balanced =
          relist-Balanced s.workers [] v (λ idx. sym (all_exited-total idx s.workers all)) tt;
      planned = p;
      waits = ready-Waits s.running s.barrier [] quiet;
    })
