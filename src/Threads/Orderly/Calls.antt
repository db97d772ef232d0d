-- ===== src/Threads/Orderly/Calls.antt =====
-- About the calls that the methods of WorkerPoolImpl make (src/worker_pool_implementation.h): the
-- order and each call.
use twine.Prelude.{
  ℕ, ◌-◌, ◌≤◌, ◌≡◌, refl, sym, subst, Bool, true, false, some, List, [], ◌∷◌, length, All, All-map,
  arith, if◌then◌else◌, of_some, length-map, ℕ_discrete, ==_iff, not_==, dec_lt, lt→ltb, not_ltb,
}
use twine.Barrier.{all_on_barrier, must_wait, set_no_threads}
use twine.Worker.{Worker, new_worker}
use twine.Calls.{
  Call, set_no_threads as set_threads, run_worker, wait_for_all, release_all, release_and_wait,
  stop_running, stop_last, join_last, join_all,
}
use twine.Threads.{System, ready, cond_wait, posting, check_all, release, exec, stop_head}
use twine.Threads.Invariant.Defs.{Balanced, flags}
use twine.Threads.Invariant.{
  Balanced-All_blocked, begin_release-some, begin_release-none, exec-join_all, locking-some,
}
use twine.Threads.Orderly.Defs.{
  AllBlocked, Shape, Stops, Exits, IsLeaving, AtControl, due, has_release, Orderly,
}
use twine.Threads.Orderly.Removal.{
  Before, ready-AtControl, not_due, stop_head-blocked, stop_head-Exits, vacuous, join_last-Orderly,
}

all_here :
    (s : System)
    → Balanced s.barrier s.workers s.control s.rounds
    → s.barrier.no_threads ≡ length (flags s.workers)
    → s.barrier.no_threads ≤ s.barrier.on_barrier
    → AllBlocked s.barrier.active_sem_idx s.workers
all_here s v expected full =
    Balanced-All_blocked v (omega (arith, length-map s.workers (λ w. w.thread_running)))

check-AtControl :
    (s : System)
    → Balanced s.barrier s.workers s.control s.rounds
    → s.barrier.no_threads ≡ length (flags s.workers)
    → AtControl s.barrier.active_sem_idx s.workers s.calls
        (if must_wait s.barrier then cond_wait else ready)
unfolding must_wait
check-AtControl s v expected = elim (dec_lt s.barrier.on_barrier s.barrier.no_threads) [
  | yes short ↦ rw (lt→ltb _ _ short) tt
  | no full ↦ rw (not_ltb _ _ full) (λ d. all_here s v expected (omega arith))
]

pub check_all-Orderly :
    (s : System)
    → Balanced s.barrier s.workers s.control s.rounds
    → s.barrier.no_threads ≡ length (flags s.workers)
    → Shape s.calls
    → (has_release s.calls ≡ false → All (Stops s.running s.barrier.active_sem_idx) s.workers)
    → All (Exits s.running) s.workers
    → Orderly (check_all s)
unfolding check_all
check_all-Orderly s v expected shape stops exits = record {
  shape = shape;
  settled = check-AtControl s v expected;
  stops = λ live. stops;
  exits = exits;
}

wait-Orderly :
    (s : System)
    → Before wait_for_all s
    → Orderly (if all_on_barrier s.barrier then s else check_all s)
unfolding all_on_barrier
wait-Orderly s v = elim (ℕ_discrete s.barrier.on_barrier s.barrier.no_threads) [
  | yes full ↦ rw ((==_iff _ _).1 full) (record {
    shape = v.shape;
    settled =
        ready-AtControl _ s.workers s.calls v.quiet
          (λ d. all_here s v.balanced v.planned.0.all_expected (omega arith));
    stops = λ live. v.stops;
    exits = v.exits;
  })
  | no short ↦
      rw (not_== _ _ short)
        (check_all-Orderly s v.balanced v.planned.0.all_expected v.shape v.stops v.exits)
]

-- After a release the workers that are told to stop are not held by the barrier any more.
leaving :
    (running : Bool) (active : ℕ) (ws : List Worker)
    → active ≤ 1
    → AllBlocked active ws
    → All (Stops running (1 - active)) ws
leaving running active [] h all = tt
leaving running active (w ∷ ws) h all = (
  (λ told. subst (IsLeaving (1 - active)) (sym all.0) (omega arith)),
  leaving running active ws h all.1,
)

posting-undue :
    (active : ℕ) (ws : List Worker) (calls : List Call) (prev left : ℕ) (and_wait : Bool)
    → due calls ≡ false
    → AtControl active ws calls (posting prev left and_wait)
posting-undue active ws calls prev left true undue = tt
posting-undue active ws calls prev left false undue = undue

release-Orderly :
    (s : System) (and_wait : Bool)
    → Balanced s.barrier s.workers s.control s.rounds
    → s.barrier.no_threads ≡ length (flags s.workers)
    → Shape s.calls
    → due s.calls ≡ false
    → All (Exits s.running) s.workers
    → Orderly (release and_wait s)
unfolding release
release-Orderly s and_wait v expected shape undue exits =
    elim (ℕ_discrete s.barrier.on_barrier s.barrier.no_threads) [
      | yes full ↦
          rw (begin_release-some s.barrier full, release)
            (record {
              shape = shape;
              settled =
                  posting-undue (1 - s.barrier.active_sem_idx) s.workers s.calls
                    s.barrier.active_sem_idx s.barrier.no_threads and_wait undue;
              stops = λ live h.
                  leaving s.running s.barrier.active_sem_idx s.workers v.index
                    (all_here s v expected (omega arith));
              exits = exits;
            })
      | no short ↦
          rw (begin_release-none s.barrier short, release)
            (record {
              shape = shape;
              settled = tt;
              stops = λ live h. absurd (live refl);
              exits = exits;
            })
    ]

-- A call that is made in its order keeps the order.
pub exec-Orderly : (c : Call) (s : System) {t : System} → Before c s → exec c s ≡ some t → Orderly t
unfolding exec set_no_threads
exec-Orderly (set_threads n) s v e = subst Orderly (locking-some s _ e) (record {
  shape = v.shape.1;
  settled = ready-AtControl _ s.workers s.calls v.quiet (not_due s.calls v.shape.0);
  stops = λ live. v.stops;
  exits = v.exits;
})
exec-Orderly run_worker s v e = subst Orderly (of_some e) (record {
  shape = v.shape.1;
  settled =
      ready-AtControl _ (new_worker s.rounds ∷ s.workers) s.calls v.quiet
        (not_due s.calls v.shape.0);
  stops = λ live h. ((λ told. absurd (ground (arith, v.planned.0))), v.stops h);
  exits = ((λ gone. absurd (ground arith)), v.exits);
})
exec-Orderly wait_for_all s v e = subst Orderly (locking-some s _ e) (wait-Orderly s v)
exec-Orderly release_all s v e =
    subst Orderly (locking-some s _ e)
      (release-Orderly s false v.balanced v.planned.0 v.shape.1 v.shape.0 v.exits)
exec-Orderly release_and_wait s v e =
    subst Orderly (locking-some s _ e)
      (release-Orderly s true v.balanced v.planned.0.all_expected v.shape.1 v.shape.0 v.exits)
exec-Orderly stop_running s v e = subst Orderly (of_some e) (record {
  shape = v.shape.1;
  settled = ready-AtControl _ s.workers s.calls v.quiet (λ d. v.settled refl);
  stops = λ live. vacuous v.shape.0;
  exits = All-map (Exits s.running) (Exits false) s.workers (λ w h gone. refl) v.exits;
})
exec-Orderly stop_last s v e = subst Orderly (of_some e) (record {
  shape = v.shape.1;
  settled =
      ready-AtControl _ (stop_head s.workers) s.calls v.quiet
        (λ d. stop_head-blocked _ s.workers (v.settled refl));
  stops = λ live. vacuous v.shape.0;
  exits = stop_head-Exits s.running s.workers v.exits;
})
exec-Orderly join_last s v e = join_last-Orderly s v e
exec-Orderly join_all s v e =
    let (all, end) = exec-join_all s e in
    subst Orderly end (record {
      shape = v.shape.2;
      settled =
          ready-AtControl s.barrier.active_sem_idx [] s.calls v.quiet (not_due s.calls v.shape.0);
      stops = λ live h. tt;
      exits = tt;
    })
