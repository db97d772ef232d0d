-- ===== src/Threads/Progress.antt =====
-- About all of the pool (src/worker_pool_implementation.h): which thread has a step while a method
-- is running.
pub mod Search
use twine.Prelude.{
  ℕ, zero, suc, ◌-◌, ◌≤◌, ◌<◌, ◌≡◌, ◌≢◌, ◌⊎◌, inl, inr, refl, subst, Bool, true, false, none, some,
  List, [], ◌∷◌, All, All-get, arith, get_elem?, length, ◌&&◌, Option-cases, Bool-cases, length-map,
  ◌∙◌, total,
}
use twine.Barrier.{Barrier, sem_value, wait, semaphore_wait}
use twine.Worker.{Worker, Pc, at_barrier, blocked, exited, Moved, worker_step, Pc-discrete}
use twine.Calls.{Call, join_last, join_all}
use twine.Threads.{
  System, Control, ready, cond_wait, cond_woken, posting, aborted, control_step, thread_step, drive,
  all_exited, join_head, absorb, step, Action, worker, controller, Reach,
}
use twine.Threads.Invariant.Defs.{
  Lockstep, Inv, Balanced, flags, Serving, Plan, Waits, on_sem, left_of, is_posting, IsHeadStopped,
}
use twine.Threads.Invariant.{Reach-Inv}
use twine.Threads.Orderly.Defs.{Stops, Exits, IsLeaving, Orderly, Shape}
use twine.Threads.Orderly.{Reach-Orderly}
use twine.Threads.Progress.Search.{
  Finds, find_next, on_sem_cases, find_missing, find_alive, total-get, worker_step-some, flag-get,
}

-- A step that is not a call of the client and not a spurious wakeup.
abbrev pub Own : Action → Type 0
Own (worker i) = Unit {0}
Own controller = Unit {0}
Own _ = ⊥

abbrev pub CanStep : System → Type 0
CanStep s = (a : Action) × (t : System) × Own a × (step a s ≡ some t)

worker-CanStep :
    (s : System)
    → Balanced s.barrier s.workers s.control s.rounds
    → left_of s.control ≡ 0
    → is_posting s.control ≡ false
    → (i : ℕ) (w : Worker) → get_elem? s.workers i ≡ some w
    → w.pc ≢ exited
    → w.pc ≢ blocked s.barrier.active_sem_idx
    → CanStep s
unfolding step thread_step
worker-CanStep s v quiet free i w at live away =
    let (m, moved) =
      worker_step-some s.running s.barrier w s.rounds
        (All-get (Lockstep s.barrier.active_sem_idx s.rounds) s.workers i v.lockstep at) v.index
        (omega (arith, v.owed, total-get (on_sem (1 - s.barrier.active_sem_idx)) s.workers i w at))
        (λ e. v.held ∙ free) live away in
    (worker i, absorb s i m, tt, ground (arith, at, moved))

controller-CanStep : (s t : System) → drive s.control s.calls s ≡ some t → CanStep s
unfolding step control_step
controller-CanStep s t e = (controller, t, tt, e)

defined-CanStep : (s : System) → drive s.control s.calls s ≢ none → CanStep s
defined-CanStep s h = elim (Option-cases (drive s.control s.calls s)) [
  | inl e ↦ absurd (h e)
  | inr (t, e) ↦ controller-CanStep s t e
]

-- While the controller waits for the workers, one of them moves.
waiting-CanStep :
    (s : System)
    → Balanced s.barrier s.workers s.control s.rounds
    → Orderly s
    → s.control ≡ cond_wait
    → Serving s.running s.barrier.no_threads (flags s.workers)
    → s.barrier.on_barrier < s.barrier.no_threads
    → CanStep s
waiting-CanStep s v o at serving short =
    let (i, w, here, away) = find_missing s.barrier.active_sem_idx s.workers (
      omega
        (arith, v.counted, serving.all_expected, length-map s.workers (λ w. w.thread_running))) in
    worker-CanStep s v (ground (arith, at)) (ground (arith, at)) i w here
      (λ gone. absurd (
        ground (
          arith,
          serving.pool_running,
          flag-get s.workers i w serving.all_running here,
          All-get (Exits s.running) s.workers i o.exits here gone,
        )))
      away

IsLeaving-ne : (active : ℕ) (pc : Pc) → active ≤ 1 → IsLeaving active pc → pc ≢ blocked active
IsLeaving-ne active pc a h e = absurd (ground arith)

-- While the controller joins a thread that is to stop, the thread moves or has left its loop.
leaving-CanStep :
    (s : System)
    → Balanced s.barrier s.workers s.control s.rounds
    → s.control ≡ ready
    → All (Stops s.running s.barrier.active_sem_idx) s.workers
    → (i : ℕ) (w : Worker) → get_elem? s.workers i ≡ some w
    → (s.running && w.thread_running) ≡ false
    → w.pc ≢ exited
    → CanStep s
leaving-CanStep s v at stops i w here told live =
    worker-CanStep s v (ground (arith, at)) (ground (arith, at)) i w here live (
      IsLeaving-ne s.barrier.active_sem_idx w.pc v.index
        (All-get (Stops s.running s.barrier.active_sem_idx) s.workers i stops here told))

join_all-CanStep :
    (s : System) (calls : List Call)
    → Balanced s.barrier s.workers s.control s.rounds
    → s.control ≡ ready
    → s.calls ≡ join_all ∷ calls
    → s.running ≡ false
    → All (Stops s.running s.barrier.active_sem_idx) s.workers
    → CanStep s
unfolding drive
join_all-CanStep s calls v at todo stopped stops = elim (Bool-cases (all_exited s.workers)) [
  | inl all ↦
      controller-CanStep s (record s { calls = calls; workers = [] })
        (ground (arith, at, todo, all))
  | inr some_left ↦
      let (i, w, here, live) = find_alive s.workers some_left in
      leaving-CanStep s v at stops i w here (ground (arith, stopped)) live
]

join_last-CanStep :
    (s : System) (calls : List Call) (ws : List Worker)
    → s.workers ≡ ws
    → Balanced s.barrier s.workers s.control s.rounds
    → s.control ≡ ready
    → s.calls ≡ join_last ∷ calls
    → IsHeadStopped (flags ws)
    → All (Stops s.running s.barrier.active_sem_idx) s.workers
    → CanStep s
unfolding drive join_head
join_last-CanStep s calls [] list v at todo stopped stops = elim stopped [ ]
join_last-CanStep s calls (w ∷ ws) list v at todo stopped stops = elim (Pc-discrete w.pc exited) [
  | yes gone ↦
      controller-CanStep s (record s { calls = calls; workers = ws })
        (ground (arith, at, todo, gone, list))
  | no live ↦ leaving-CanStep s v at stops 0 w (ground (arith, list)) (ground (arith, stopped)) live
]

-- The next call is made, unless it joins a thread that is still in its loop.
call-CanStep :
    (c : Call) (calls : List Call) (s : System)
    → Inv s
    → Orderly s
    → s.control ≡ ready
    → s.calls ≡ c ∷ calls
    → CanStep s
unfolding drive
call-CanStep join_last calls s v o at todo =
    join_last-CanStep s calls s.workers refl v.balanced at todo
      (subst (Plan s.destroyed s.running s.barrier.no_threads (flags s.workers)) todo v.planned).0
      (o.stops (ground (arith, at)) (rw todo (subst Shape todo o.shape).1))
call-CanStep join_all calls s v o at todo =
    join_all-CanStep s calls v.balanced at todo
      (subst (Plan s.destroyed s.running s.barrier.no_threads (flags s.workers)) todo v.planned).0
      (o.stops (ground (arith, at)) (rw todo (subst Shape todo o.shape).1))
call-CanStep c calls s v o at todo =
    defined-CanStep s (λ stuck. ground (arith, at, todo, stuck, v.balanced.held))

progress :
    (c : Control) (calls : List Call) (s : System)
    → s.control ≡ c
    → s.calls ≡ calls
    → Inv s
    → Orderly s
    → s.control ≢ aborted
    → (s.control ≢ ready) ⊎ (s.calls ≢ [])
    → CanStep s
unfolding drive
progress ready [] s at todo v o live busy = absurd (ground arith)
progress ready (c ∷ calls) s at todo v o live busy = call-CanStep c calls s v o at todo
progress cond_wait calls s at todo v o live busy =
    let w = subst (Waits s.running s.barrier (flags s.workers)) at v.waits in
    waiting-CanStep s v.balanced o at w.0 w.1
progress cond_woken calls s at todo v o live busy =
    defined-CanStep s (λ stuck. ground (arith, at, stuck, v.balanced.held))
progress (posting prev (suc left) and_wait) calls s at todo v o live busy =
    defined-CanStep s (λ stuck. ground (arith, at, stuck))
progress (posting prev zero true) calls s at todo v o live busy =
    defined-CanStep s (λ stuck. ground (arith, at, stuck))
progress (posting prev zero false) calls s at todo v o live busy =
    defined-CanStep s (λ stuck. ground (arith, at, stuck))
progress aborted calls s at todo v o live busy = absurd (live at)

-- No deadlock: as long as a method has not returned, and no assertion has failed, the controller or
-- some worker has a step of its own.
pub no_deadlock :
    {s : System} → Reach s → s.control ≢ aborted → (s.control ≢ ready) ⊎ (s.calls ≢ []) → CanStep s
no_deadlock {s} r live busy =
    progress s.control s.calls s refl refl (Reach-Inv r) (Reach-Orderly r) live busy
