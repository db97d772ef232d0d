-- ===== src/Threads/Invariant/Control.antt =====
-- About the methods of BarrierWithTrigger (src/worker_pool_implementation.h) that the controller
-- calls: the balance of the barrier.
use twine.Prelude.{
  ℕ, suc, ◌+◌, ◌-◌, ◌≤◌, ◌≡◌, ◌≢◌, refl, sym, subst, Bool, true, false, none, some, List, [], ◌∷◌,
  length, total, All, arith,
}
use twine.Barrier.{Barrier, begin_release, semaphore_signal, set_no_threads}
use twine.Worker.{Worker, blocked, new_worker}
use twine.Threads.{Control, posting}
use twine.Threads.Invariant.Defs.{on_sem, Lockstep, left_of, is_posting, Balanced}

on_sem-le : (idx : ℕ) (w : Worker) → on_sem idx w ≤ 1
on_sem-le idx w = ground arith

pub total-on_sem-le : (idx : ℕ) (ws : List Worker) → total (on_sem idx) ws ≤ length ws
total-on_sem-le idx [] = omega arith
total-on_sem-le idx (w ∷ ws) = omega (arith, on_sem-le idx w, total-on_sem-le idx ws)

-- If as many workers as there are hang on a semaphore, all of them do.
pub All-blocked :
    (idx : ℕ) (ws : List Worker)
    → total (on_sem idx) ws ≡ length ws
    → All (λ w. w.pc ≡ blocked idx) ws
All-blocked idx [] h = tt
All-blocked idx (w ∷ ws) h = (
  one (omega (arith, on_sem-le idx w, total-on_sem-le idx ws)),
  All-blocked idx ws (omega (arith, on_sem-le idx w, total-on_sem-le idx ws)),
)
  where
    one : on_sem idx w ≡ 1 → w.pc ≡ blocked idx
    one e = ground arith

pub none_blocked :
    (idx other : ℕ) (ws : List Worker)
    → idx + other ≡ 1
    → All (λ w. w.pc ≡ blocked idx) ws
    → total (on_sem other) ws ≡ 0
none_blocked idx other [] e h = refl
none_blocked idx other (w ∷ ws) e h = ground (arith, none_blocked idx other ws e h.1)

pub blocked-total :
    (idx : ℕ) (ws : List Worker)
    → All (λ w. w.pc ≡ blocked idx) ws
    → total (on_sem idx) ws ≡ length ws
blocked-total idx [] h = refl
blocked-total idx (w ∷ ws) h = ground (arith, blocked-total idx ws h.1)

flip-Lockstep :
    (active rounds : ℕ) (ws : List Worker)
    → active ≤ 1
    → All (Lockstep active rounds) ws
    → All (λ w. w.pc ≡ blocked active) ws
    → All (Lockstep (1 - active) (rounds + 1)) ws
flip-Lockstep active rounds [] a l h = tt
flip-Lockstep active rounds (w ∷ ws) a l h =
    (ground arith, flip-Lockstep active rounds ws a l.1 h.1)

-- The barrier when a release begins its loop of signals.
abbrev pub released : Barrier → Barrier
released b = record b { on_barrier = 0; locked = true; active_sem_idx = 1 - b.active_sem_idx }

pub begin_release-some :
    (b : Barrier) → b.on_barrier ≡ b.no_threads → begin_release b ≡ some (released b)
unfolding begin_release
begin_release-some b h = ground arith

pub begin_release-none : (b : Barrier) → b.on_barrier ≢ b.no_threads → begin_release b ≡ none
unfolding begin_release
begin_release-none b h = ground arith

pub Balanced-All_blocked :
    {b : Barrier} {ws : List Worker} {c : Control} {rounds : ℕ}
    → Balanced b ws c rounds
    → length ws ≤ b.on_barrier
    → All (λ w. w.pc ≡ blocked b.active_sem_idx) ws
Balanced-All_blocked {b} {ws} v full =
    All-blocked b.active_sem_idx ws (omega (arith, v.counted, total-on_sem-le b.active_sem_idx ws))

-- A release whose assertion holds swaps the roles of the two semaphores.
pub release-Balanced :
    {b : Barrier} {ws : List Worker} {c : Control} {rounds : ℕ}
    → Balanced b ws c rounds
    → b.no_threads ≡ length ws
    → is_posting c ≡ false
    → b.on_barrier ≡ b.no_threads
    → (and_wait : Bool)
    → Balanced (released b) ws (posting b.active_sem_idx b.no_threads and_wait) (rounds + 1)
release-Balanced {b} {ws} {c} {rounds} v expected quiet full and_wait = record {
  index = omega arith;
  counted = sym empty;
  fresh = omega (arith, v.owed, empty);
  owed = ground (arith, v.index, v.fresh, blocked-total b.active_sem_idx ws all);
  held = refl;
  signals = omega (arith, v.index);
  lockstep = flip-Lockstep b.active_sem_idx rounds ws v.index v.lockstep all;
}
  where
    all : All (λ w. w.pc ≡ blocked b.active_sem_idx) ws
    all = Balanced-All_blocked v (omega arith)

    empty : total (on_sem (1 - b.active_sem_idx)) ws ≡ 0
    empty = none_blocked b.active_sem_idx (1 - b.active_sem_idx) ws (omega (arith, v.index)) all

pub semaphore_signal-active :
    (b : Barrier) (idx : ℕ) → (semaphore_signal b idx).active_sem_idx ≡ b.active_sem_idx
unfolding semaphore_signal
semaphore_signal-active b idx = ground arith

pub semaphore_signal-no_threads :
    (b : Barrier) (idx : ℕ) → (semaphore_signal b idx).no_threads ≡ b.no_threads
unfolding semaphore_signal
semaphore_signal-no_threads b idx = ground arith

module _ {b : Barrier} {ws : List Worker} {rounds : ℕ} where
  pub signal-Balanced :
      (prev left : ℕ) (and_wait : Bool)
      → Balanced b ws (posting prev (suc left) and_wait) rounds
      → Balanced (semaphore_signal b prev) ws (posting prev left and_wait) rounds
  unfolding semaphore_signal
  signal-Balanced prev left and_wait v = record {
    index = ground (arith, v.index);
    counted = ground (arith, v.counted);
    fresh = ground (arith, v.index, v.signals, v.fresh);
    owed = ground (arith, v.index, v.signals, v.owed);
    held = ground (arith, v.held);
    signals = ground (arith, v.signals);
    lockstep =
        subst (λ a. All (Lockstep a rounds) ws) (sym (semaphore_signal-active b prev)) v.lockstep;
  }

  -- The mutex is given back when no signal is left.
  pub unlock-Balanced :
      (c c' : Control)
      → Balanced b ws c rounds
      → left_of c ≡ 0
      → is_posting c' ≡ false
      → Balanced (record b { locked = false }) ws c' rounds
  unlock-Balanced c c' v done quiet = record {
    index = v.index;
    counted = v.counted;
    fresh = v.fresh;
    owed = ground (arith, v.owed);
    held = sym quiet;
    signals = ground arith;
    lockstep = v.lockstep;
  }

  pub set_no_threads-Balanced :
      (c : Control) (n : ℕ) → Balanced b ws c rounds → Balanced (set_no_threads b n) ws c rounds
  unfolding set_no_threads
  set_no_threads-Balanced c n v = record {
    index = v.index;
    counted = v.counted;
    fresh = v.fresh;
    owed = v.owed;
    held = v.held;
    signals = v.signals;
    lockstep = v.lockstep;
  }

  pub new_worker-Balanced :
      (c : Control) → Balanced b ws c rounds → Balanced b (new_worker rounds ∷ ws) c rounds
  new_worker-Balanced c v = record {
    index = v.index;
    counted = omega (arith, v.counted);
    fresh = v.fresh;
    owed = omega (arith, v.owed);
    held = v.held;
    signals = v.signals;
    lockstep = (omega arith, v.lockstep);
  }

  -- Where no signal is left to send, the balance does not depend on where the controller stands.
  pub quiet-Balanced :
      (c c' : Control)
      → Balanced b ws c rounds
      → is_posting c ≡ false
      → is_posting c' ≡ false
      → Balanced b ws c' rounds
  quiet-Balanced c c' v quiet quiet' = record {
    index = v.index;
    counted = v.counted;
    fresh = v.fresh;
    owed = ground (arith, v.owed);
    held = ground (arith, v.held);
    signals = ground arith;
    lockstep = v.lockstep;
  }
