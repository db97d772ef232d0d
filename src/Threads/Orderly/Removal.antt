-- ===== src/Threads/Orderly/Removal.antt =====
-- About `_stop_thread` and the destructor of WorkerThread (src/worker_pool_implementation.h): the
-- order when workers are stopped or joined.
use twine.Prelude.{ℕ, ◌≡◌, refl, sym, subst, Bool, true, false, some, List, [], ◌∷◌, All}
use twine.Worker.{Worker, stop_thread}
use twine.Calls.{Call, join_last}
use twine.Threads.{System, Control, ready, exec, stop_head}
use twine.Threads.Invariant.Defs.{Balanced, Plan, flags}
use twine.Threads.Invariant.{exec-join_last, join_head-some}
use twine.Threads.Orderly.Defs.{
  AllBlocked, Shape, Stops, Exits, AtControl, due, has_release, Orderly,
}

-- What is known when the next call is about to be made.
pub record Before (c : Call) (s : System) : Type 0 where
  pub balanced : Balanced s.barrier s.workers s.control s.rounds
  pub quiet : s.control ≡ ready
  pub planned : Plan s.destroyed s.running s.barrier.no_threads (flags s.workers) (c ∷ s.calls)
  pub shape : Shape (c ∷ s.calls)
  pub settled : due (c ∷ s.calls) ≡ true → AllBlocked s.barrier.active_sem_idx s.workers
  pub stops :
      has_release (c ∷ s.calls) ≡ false → All (Stops s.running s.barrier.active_sem_idx) s.workers
  pub exits : All (Exits s.running) s.workers

pub ready-AtControl :
    {c : Control} (active : ℕ) (ws : List Worker) (calls : List Call)
    → c ≡ ready
    → (due calls ≡ true → AllBlocked active ws)
    → AtControl active ws calls c
ready-AtControl active ws calls e h = subst (AtControl active ws calls) (sym e) h

pub not_due : {A : Type 0} (calls : List Call) → due calls ≡ false → due calls ≡ true → A
not_due calls e f = absurd (cc)

pub stop_head-blocked :
    (active : ℕ) (ws : List Worker) → AllBlocked active ws → AllBlocked active (stop_head ws)
unfolding stop_head stop_thread
stop_head-blocked active [] h = tt
stop_head-blocked active (w ∷ ws) h = h

pub stop_head-Exits :
    (running : Bool) (ws : List Worker)
    → All (Exits running) ws
    → All (Exits running) (stop_head ws)
unfolding stop_head stop_thread
stop_head-Exits running [] h = tt
stop_head-Exits true (w ∷ ws) h = ((λ e. refl), h.1)
stop_head-Exits false (w ∷ ws) h = ((λ e. refl), h.1)

pub vacuous : {A : Type 0} {b : Bool} → b ≡ true → b ≡ false → A
vacuous e f = absurd (cc)

pub join_last-Orderly :
    (s : System) {t : System} → Before join_last s → exec join_last s ≡ some t → Orderly t
join_last-Orderly s v e =
    let (rest, joined, end) = exec-join_last s e in
    let (w, list, gone) = join_head-some s.workers joined in
    subst Orderly end (record {
      shape = v.shape.2;
      settled = ready-AtControl _ rest s.calls v.quiet (not_due s.calls v.shape.0);
      stops = λ live h. (subst (All (Stops s.running s.barrier.active_sem_idx)) list (v.stops h)).1;
      exits = (subst (All (Exits s.running)) list v.exits).1;
    })
