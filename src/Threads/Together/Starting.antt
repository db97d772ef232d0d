-- ===== src/Threads/Together/Starting.antt =====
-- About the loop of a worker (src/worker_pool_implementation.h) from the end of its wait to its callback.
use twine.Prelude.{
  ℕ, zero, suc, ◌+◌, ◌-◌, ◌<◌, ◌≡◌, ◌≢◌, refl, sym, ◌∙◌, ap, subst, true, false, some, List, [],
  ◌∷◌, arith, All, All-get, All-set, set, total, total-set, ℕ_discrete, map-set,
}
use twine.Barrier.{Barrier, wait, semaphore_wait}
use twine.Worker.{Worker, Pc, blocked, woken, in_callback, Moved, worker_step}
use twine.Threads.{System, ready, thread_step, absorb, step, worker, Reach}
use twine.Threads.Invariant.Defs.{Lockstep, on_sem, left_of}
use twine.Threads.Invariant.{Reach-Inv, released}
use twine.Threads.Progress.Search.{Finds, find_next, worker_step-some, total-get}
use twine.Threads.Fate.{since_of}
use twine.Threads.Returns.{Runs, own, Runs-Reach}

-- A worker that has been released and has not ended its callback.
abbrev pub IsReleased : ℕ → Pc → Type 0
IsReleased active (blocked k) = k + active ≡ 1
IsReleased active woken = Unit {0}
IsReleased active in_callback = Unit {0}
IsReleased active _ = ⊥

abbrev pub Released : ℕ → Worker → Type 0
Released active w = IsReleased active w.pc × (w.thread_running ≡ true)

-- How many steps it is before its callback.
abbrev pub before : Pc → ℕ
before (blocked k) = 2
before woken = 1
before _ = 0

abbrev pub steps_before : Worker → ℕ
steps_before w = before w.pc

-- The workers on the way to their callbacks; the controller has nothing to do.
pub record Starts (born : List ℕ) (s : System) : Type 0 where
  pub at : s.control ≡ ready
  pub going : s.running ≡ true
  pub all : All (Released s.barrier.active_sem_idx) s.workers
  pub same : since_of s.workers ≡ born

find_waiting : (ws : List Worker) → total steps_before ws ≢ 0 → Finds (λ w. steps_before w ≢ 0) ws
find_waiting [] h = absurd (h refl)
find_waiting (w ∷ ws) h = elim (ℕ_discrete (steps_before w) 0) [
  | yes e ↦ find_next _ w ws (find_waiting ws (λ q. h (omega (arith, q, e))))
  | no e ↦ (0, w, refl, e)
]

none_before :
    (active : ℕ) (ws : List Worker)
    → All (Released active) ws
    → total steps_before ws ≡ 0
    → All (λ w. w.pc ≡ in_callback) ws
none_before active [] h e = tt
none_before active (w ∷ ws) h e =
    (ground (arith, h.0, e), none_before active ws h.1 (omega (arith, e)))

worker_step-Released :
    (b : Barrier) (w : Worker) {m : Moved}
    → Released b.active_sem_idx w
    → steps_before w ≢ 0
    → worker_step true b w ≡ some m
    → Released b.active_sem_idx m.worker
      × (m.signalled ≡ false)
      × (steps_before m.worker < steps_before w)
      × (m.barrier.active_sem_idx ≡ b.active_sem_idx)
      × (m.worker.since ≡ w.since)
unfolding worker_step wait semaphore_wait
worker_step-Released b w h n e = ground (arith, h.0, h.1, n, e)

-- One of them takes its next step.
start_one :
    (born : List ℕ) (s : System)
    → Reach s
    → Starts born s
    → total steps_before s.workers ≢ 0
    → (i : ℕ) × (t : System) × (step (worker i) s ≡ some t)
      × Starts born t
      × (total steps_before t.workers < total steps_before s.workers)
unfolding step thread_step absorb
start_one born s r h more =
    let (i, w, here, n) = find_waiting s.workers more in
    let b = (Reach-Inv r).balanced in
    let mine = All-get (Released s.barrier.active_sem_idx) s.workers i h.all here in
    let (m, moved) =
      worker_step-some true s.barrier w s.rounds
        (All-get (Lockstep s.barrier.active_sem_idx s.rounds) s.workers i b.lockstep here) b.index
        (omega (
          arith,
          b.owed,
          ap left_of h.at,
          total-get (on_sem (1 - s.barrier.active_sem_idx)) s.workers i w here,
        ))
        (λ e. absurd (ground (arith, e, n))) (λ e. absurd (ground (arith, e, n)))
        (λ e. absurd (ground (arith, e, mine.0, b.index))) in
    let (released, quiet, fewer, active, since) = worker_step-Released s.barrier w mine n moved in
    (
      i,
      absorb s i m,
      ground (arith, here, h.going, moved),
      record {
        at = ground (arith, quiet, h.at);
        going = h.going;
        all =
            subst (λ a. All (Released a) (set s.workers i m.worker)) (sym active)
              (All-set (Released s.barrier.active_sem_idx) s.workers i m.worker h.all released);
        same = map-set (λ w. w.since) s.workers i w m.worker here since ∙ h.same;
      },
      omega (arith, total-set steps_before s.workers i w m.worker here, fewer),
    )

-- They all get there.
pub start_workers :
    (fuel : ℕ) (born : List ℕ) (u s : System) (n : ℕ)
    → Reach u
    → Runs u n zero s
    → Starts born s
    → total steps_before s.workers < fuel
    → (m : ℕ) × (t : System) × Runs u m zero t
      × All (λ w. w.pc ≡ in_callback) t.workers
      × (since_of t.workers ≡ born)
start_workers zero born u s n r run h few = absurd (omega arith)
start_workers (suc fuel) born u s n r run h few =
    elim (ℕ_discrete (total steps_before s.workers) 0) [
      | yes none_left ↦
          (n, s, run, none_before s.barrier.active_sem_idx s.workers h.all none_left, h.same)
      | no more ↦
          let (i, t, e, h', fewer) = start_one born s (Runs-Reach r run) h more in
          start_workers fuel born u t (suc n) r (own (worker i) run tt e) h'
            (omega (arith, few, fewer))
    ]
