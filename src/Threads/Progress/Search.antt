-- ===== src/Threads/Progress/Search.antt =====
-- About the loop of a worker (src/worker_pool_implementation.h): the search for a worker that has
-- a step.
use twine.Prelude.{
  ℕ, zero, suc, ◌-◌, ◌≤◌, ◌<◌, ◌≡◌, ◌≢◌, ◌⊎◌, inl, inr, refl, Bool, true, false, some, List, [],
  ◌∷◌, All, arith, get_elem?, length, Option-cases, total,
}
use twine.Barrier.{Barrier, sem_value, wait, semaphore_wait}
use twine.Worker.{Worker, at_barrier, blocked, exited, Moved, worker_step, Pc-discrete}
use twine.Threads.{all_exited}
use twine.Threads.Invariant.Defs.{Lockstep, flags, on_sem}

-- A worker that has a step: where it stands and which one it is.
abbrev pub Finds : (Worker → Type 0) → List Worker → Type 0
Finds P ws = (i : ℕ) × (w : Worker) × (get_elem? ws i ≡ some w) × P w

pub find_next :
    (P : Worker → Type 0) (w : Worker) (ws : List Worker) → Finds P ws → Finds P (w ∷ ws)
find_next P w ws (i, u, at, p) = (suc i, u, at, p)

pub on_sem_cases :
    (idx : ℕ) (w : Worker) → (w.pc ≡ blocked idx) ⊎ ((on_sem idx w ≡ 0) × (w.pc ≢ blocked idx))
on_sem_cases idx w = elim (Pc-discrete w.pc (blocked idx)) [
  | yes e ↦ inl e
  | no e ↦ inr (ground (arith, e), e)
]

pub find_missing :
    (idx : ℕ) (ws : List Worker)
    → total (on_sem idx) ws < length ws
    → Finds (λ w. w.pc ≢ blocked idx) ws
find_missing idx [] h = absurd (omega arith)
find_missing idx (w ∷ ws) h = elim (on_sem_cases idx w) [
  | inl e ↦ find_next _ w ws (find_missing idx ws (ground (arith, e)))
  | inr e ↦ (0, w, refl, e.1)
]

pub find_alive : (ws : List Worker) → all_exited ws ≡ false → Finds (λ w. w.pc ≢ exited) ws
unfolding all_exited
find_alive [] h = absurd (cc)
find_alive (w ∷ ws) h = elim (Pc-discrete w.pc exited) [
  | yes e ↦ find_next _ w ws (find_alive ws (ground (arith, e)))
  | no e ↦ (0, w, refl, e)
]

pub total-get :
    (f : Worker → ℕ) (ws : List Worker) (i : ℕ) (w : Worker)
    → get_elem? ws i ≡ some w
    → f w ≤ total f ws
total-get f [] i w e = absurd (ground arith)
total-get f (u ∷ ws) zero w e = ground arith
total-get f (u ∷ ws) (suc i) w e = omega (arith, total-get f ws i w e)

-- A worker is held only by the active semaphore, by the mutex, or by the end of its loop.
pub worker_step-some :
    (running : Bool) (b : Barrier) (w : Worker) (rounds : ℕ)
    → Lockstep b.active_sem_idx rounds w
    → b.active_sem_idx ≤ 1
    → on_sem (1 - b.active_sem_idx) w ≤ sem_value b (1 - b.active_sem_idx)
    → (w.pc ≡ at_barrier → b.locked ≡ false)
    → w.pc ≢ exited
    → w.pc ≢ blocked b.active_sem_idx
    → (m : Moved) × (worker_step running b w ≡ some m)
unfolding worker_step wait semaphore_wait
worker_step-some running b w rounds l a owed free live away =
    elim (Option-cases (worker_step running b w)) [ inl e ↦ absurd (ground (arith, e)) | inr h ↦ h ]

pub flag-get :
    (ws : List Worker) (i : ℕ) (w : Worker)
    → All (λ f. f ≡ true) (flags ws)
    → get_elem? ws i ≡ some w
    → w.thread_running ≡ true
flag-get [] i w h e = absurd (ground arith)
flag-get (u ∷ ws) zero w h e = ground (arith, h.0)
flag-get (u ∷ ws) (suc i) w h e = flag-get ws i w h.1 e
