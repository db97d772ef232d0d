-- ===== src/Threads/Settled.antt =====
-- About the pool of src/worker_pool_implementation.h when no method is running and all workers wait:
-- what there is of its state.
use twine.Prelude.{
  ℕ, ◌+◌, ◌-◌, ◌%◌, ◌≤◌, ◌≡◌, refl, sym, ◌∙◌, ap, true, false, List, [], ◌∷◌, arith, All, length,
  length-map, map,
}
use twine.Barrier.{Barrier, sem_value}
use twine.Worker.{Worker, blocked}
use twine.Threads.{System, ready, Reach}
use twine.Threads.Invariant.Defs.{flags, is_posting}
use twine.Threads.Invariant.{Reach-Inv, Inv-Serving, blocked-total, none_blocked}
use twine.Threads.Orderly.Defs.{AllBlocked}
use twine.Threads.Safety.{AllBlocked-IsIdle}
use twine.Threads.Fate.{Fate, now, since_of}
use twine.Threads.Parity.{Reach-Parity}

abbrev idle_worker : ℕ → ℕ → Worker
idle_worker rounds since = record {
  pc = blocked (rounds % 2);
  thread_running = true;
  calls = rounds - since;
  since = since;
}

-- The state of a pool whose workers all wait, from its history alone.
unfoldable pub settled : Fate → System
settled f = record {
  barrier = record {
    sem_0 = 0;
    sem_1 = 0;
    active_sem_idx = f.rounds % 2;
    on_barrier = length f.born;
    no_threads = length f.born;
    locked = false;
  };
  running = true;
  workers = map (idle_worker f.rounds) f.born;
  control = ready;
  calls = [];
  rounds = f.rounds;
  destroyed = false;
}

system_ext :
    (s t : System)
    → s.barrier ≡ t.barrier
    → s.running ≡ t.running
    → s.workers ≡ t.workers
    → s.control ≡ t.control
    → s.calls ≡ t.calls
    → s.rounds ≡ t.rounds
    → s.destroyed ≡ t.destroyed
    → s ≡ t
system_ext s t a b c d e f g = λ i. record {
  barrier = a i;
  running = b i;
  workers = c i;
  control = d i;
  calls = e i;
  rounds = f i;
  destroyed = g i;
}

barrier_ext :
    (s t : Barrier)
    → s.sem_0 ≡ t.sem_0
    → s.sem_1 ≡ t.sem_1
    → s.active_sem_idx ≡ t.active_sem_idx
    → s.on_barrier ≡ t.on_barrier
    → s.no_threads ≡ t.no_threads
    → s.locked ≡ t.locked
    → s ≡ t
barrier_ext s t a b c d e f = λ i. record {
  sem_0 = a i;
  sem_1 = b i;
  active_sem_idx = c i;
  on_barrier = d i;
  no_threads = e i;
  locked = f i;
}

both_zero :
    (b : Barrier)
    → b.active_sem_idx ≤ 1
    → sem_value b b.active_sem_idx ≡ 0
    → sem_value b (1 - b.active_sem_idx) ≡ 0
    → (b.sem_0 ≡ 0) × (b.sem_1 ≡ 0)
both_zero b h active other = ground (arith, h, active, other)

idle_workers :
    (rounds active : ℕ) (ws : List Worker)
    → active ≡ rounds % 2
    → All (λ w. (w.pc ≡ blocked active) × (w.since + w.calls ≡ rounds)) ws
    → All (λ f. f ≡ true) (flags ws)
    → ws ≡ map (idle_worker rounds) (since_of ws)
idle_workers rounds active [] p h run = refl
idle_workers rounds active (w ∷ ws) p h run =
    let calls : w.calls ≡ rounds - w.since = omega (arith, h.0) in
    let at : w.pc ≡ blocked (rounds % 2) = h.0.0 ∙ ap blocked p in
    let head : w ≡ idle_worker rounds w.since =
      λ i. record { pc = at i; thread_running = run.0 i; calls = calls i; since = w.since } in
    λ i. head i ∷ idle_workers rounds active ws p h.1 run.1 i

-- Between two methods of a pool, if all workers wait, the whole state is what the number of releases and
-- the number of releases before each worker's creation say.
pub idle-settled :
    (s : System)
    → Reach s
    → s.control ≡ ready
    → s.calls ≡ []
    → s.destroyed ≡ false
    → AllBlocked s.barrier.active_sem_idx s.workers
    → s ≡ settled (now s)
unfolding settled
idle-settled s r at todo alive all =
    let v = Reach-Inv r in
    let b = v.balanced in
    let serving = Inv-Serving s v todo alive in
    let parity = Reach-Parity r in
    let born : length (since_of s.workers) ≡ length s.workers =
      length-map s.workers (λ w. w.since) in
    let other =
      none_blocked s.barrier.active_sem_idx (1 - s.barrier.active_sem_idx) s.workers
        (omega (arith, b.index)) all in
    let (zero_0, zero_1) = both_zero s.barrier b.index b.fresh (omega (arith, b.owed, other)) in
    system_ext s (settled (now s))
      (barrier_ext s.barrier (settled (now s)).barrier zero_0 zero_1 parity
        (b.counted ∙ blocked-total s.barrier.active_sem_idx s.workers all ∙ sym born)
        (serving.all_expected ∙ length-map s.workers (λ w. w.thread_running) ∙ sym born)
        (b.held ∙ ap is_posting at))
      serving.pool_running
      (idle_workers s.rounds s.barrier.active_sem_idx s.workers parity (AllBlocked-IsIdle r all)
        serving.all_running)
      at todo refl alive
