-- ===== src/Threads/Orderly/Defs.antt =====
-- About the calls that the methods of WorkerPoolImpl make (src/worker_pool_implementation.h), the
-- definitions of their order: what the calls that are left say of the workers.
use twine.Prelude.{ℕ, ◌+◌, ◌≡◌, ◌≢◌, Bool, true, false, ◌&&◌, List, [], ◌∷◌, All}
use twine.Worker.{Worker, Pc, blocked, woken, exited}
use twine.Calls.{
  Call, wait_for_all, release_all, release_and_wait, stop_running, stop_last, join_last, join_all,
}
use twine.Threads.{System, Control, ready, posting, aborted}

abbrev pub AllBlocked : ℕ → List Worker → Type 0
AllBlocked active = All λ w. w.pc ≡ blocked active

-- Whether the next calls stop workers and release them, or release them in the middle of a method.
abbrev pub due : List Call → Bool
due (stop_running ∷ calls) = true
due (stop_last ∷ calls) = true
due (release_all ∷ c ∷ calls) = true
due _ = false

abbrev pub has_release : List Call → Bool
has_release [] = false
has_release (release_all ∷ calls) = true
has_release (release_and_wait ∷ calls) = true
has_release (c ∷ calls) = has_release calls

-- Only a wait comes before such calls, a stop comes before a release, and a join after it.
abbrev pub Shape : List Call → Type 0
Shape [] = Unit {0}
Shape (wait_for_all ∷ calls) = Shape calls
Shape (stop_running ∷ calls) = (has_release calls ≡ true) × Shape calls
Shape (stop_last ∷ calls) = (has_release calls ≡ true) × Shape calls
Shape (join_last ∷ calls) = (due calls ≡ false) × (has_release calls ≡ false) × Shape calls
Shape (join_all ∷ calls) = (due calls ≡ false) × (has_release calls ≡ false) × Shape calls
Shape (c ∷ calls) = (due calls ≡ false) × Shape calls

-- No signal is missing to a thread that is to leave its loop: it is not held by the barrier.
abbrev pub IsLeaving : ℕ → Pc → Type 0
IsLeaving active (blocked k) = k + active ≡ 1
IsLeaving active woken = Unit {0}
IsLeaving active exited = Unit {0}
IsLeaving active _ = ⊥

abbrev pub Stops : Bool → ℕ → Worker → Type 0
Stops running active w = (running && w.thread_running) ≡ false → IsLeaving active w.pc

abbrev pub Exits : Bool → Worker → Type 0
Exits running w = w.pc ≡ exited → (running && w.thread_running) ≡ false

-- What is known while the controller stands at each place.
abbrev pub AtControl : ℕ → List Worker → List Call → Control → Type 0
AtControl active ws calls ready = due calls ≡ true → AllBlocked active ws
AtControl active ws calls (posting prev left false) = due calls ≡ false
AtControl active ws calls _ = Unit {0}

pub record Orderly (s : System) : Type 0 where
  pub shape : Shape s.calls
  pub settled : AtControl s.barrier.active_sem_idx s.workers s.calls s.control
  pub stops :
      s.control ≢ aborted
      → has_release s.calls ≡ false
      → All (Stops s.running s.barrier.active_sem_idx) s.workers
  pub exits : All (Exits s.running) s.workers
