-- ===== src/Threads/Invariant/Steps.antt =====
-- About the calls that the methods of WorkerPoolImpl make (src/worker_pool_implementation.h): the
-- invariant and each call.
use twine.Prelude.{
  ℕ, ◌≡◌, refl, ◌∙◌, subst, Bool, true, false, some, List, ◌∷◌, length, arith, if◌then◌else◌,
  of_some, ℕ_discrete, Bool-cases, lt→ltb, not_ltb, dec_lt, length-map, inl, inr,
}
use twine.Barrier.{Barrier, all_on_barrier, must_wait, set_no_threads}
use twine.Calls.{
  Call, set_no_threads as set_threads, run_worker, wait_for_all, release_all, release_and_wait,
  stop_running, stop_last, join_last, join_all,
}
use twine.Threads.{System, ready, cond_wait, posting, aborted, exec, release, check_all, stop_head}
use twine.Threads.Invariant.Defs.{left_of, Balanced, Plan, Serving, Waits, flags, Inv}
use twine.Threads.Invariant.Control.{
  released, release-Balanced, begin_release-some, begin_release-none, unlock-Balanced,
  set_no_threads-Balanced, new_worker-Balanced, quiet-Balanced,
}
use twine.Threads.Invariant.Removal.{
  locking-some, stop_head-Lockstep, total-stop_head, relist-Balanced, flags-stop_head, replan,
  ready-Waits, join_last-Inv, join_all-Inv,
}

check-Waits :
    (running : Bool) (b : Barrier) (fs : List Bool)
    → Serving running b.no_threads fs
    → Waits running (record b { locked = false }) fs (if must_wait b then cond_wait else ready)
unfolding must_wait
check-Waits running b fs serving = elim (dec_lt b.on_barrier b.no_threads) [
  | yes short ↦ rw (lt→ltb _ _ short) (serving, short)
  | no full ↦ rw (not_ltb _ _ full) tt
]

pub check_all-Inv :
    (s : System)
    → Balanced s.barrier s.workers s.control s.rounds
    → left_of s.control ≡ 0
    → Serving s.running s.barrier.no_threads (flags s.workers)
    → Plan s.destroyed s.running s.barrier.no_threads (flags s.workers) s.calls
    → Inv (check_all s)
unfolding check_all
check_all-Inv s v done serving p = record {
  balanced =
      unlock-Balanced s.control (if must_wait s.barrier then cond_wait else ready) v done
        (ground arith);
  planned = p;
  waits = check-Waits s.running s.barrier (flags s.workers) serving;
}

-- What a waiting release needs does not depend on the semaphores.
posting-Waits :
    (s : System) (and_wait : Bool)
    → Waits s.running s.barrier (flags s.workers) (posting 0 0 and_wait)
    → Waits s.running
        (released s.barrier)
        (flags s.workers)
        (posting s.barrier.active_sem_idx s.barrier.no_threads and_wait)
posting-Waits s true h = h
posting-Waits s false h = tt

release-Inv :
    (s : System) (and_wait : Bool)
    → Balanced s.barrier s.workers s.control s.rounds
    → s.control ≡ ready
    → s.barrier.no_threads ≡ length (flags s.workers)
    → ((prev left : ℕ) → Waits s.running s.barrier (flags s.workers) (posting prev left and_wait))
    → Plan s.destroyed s.running s.barrier.no_threads (flags s.workers) s.calls
    → Inv (release and_wait s)
unfolding release
release-Inv s and_wait v quiet expected waits p =
    elim (ℕ_discrete s.barrier.on_barrier s.barrier.no_threads) [
      | yes full ↦
          rw (begin_release-some s.barrier full, release)
            (record {
              balanced =
                  release-Balanced v (expected ∙ length-map s.workers _) (ground arith) full
                    and_wait;
              planned = p;
              waits = posting-Waits s and_wait (waits 0 0);
            })
      | no short ↦
          rw (begin_release-none s.barrier short, release)
            (record {
              balanced = quiet-Balanced s.control aborted v (ground arith) refl;
              planned = p;
              waits = tt;
            })
    ]

wait-Inv :
    (s : System)
    → Balanced s.barrier s.workers s.control s.rounds
    → s.control ≡ ready
    → Serving s.running s.barrier.no_threads (flags s.workers)
    → Plan s.destroyed s.running s.barrier.no_threads (flags s.workers) s.calls
    → Inv (if all_on_barrier s.barrier then s else check_all s)
wait-Inv s v quiet serving p = elim (Bool-cases (all_on_barrier s.barrier)) [
  | inl e ↦ rw e (record {
    balanced = v;
    planned = p;
    waits = ready-Waits s.running s.barrier (flags s.workers) quiet;
  })
  | inr e ↦ rw e (check_all-Inv s v (ground arith) serving p)
]

-- A call that the plan allows keeps the invariant.
pub exec-Inv :
    (c : Call) (s : System) {t : System}
    → Balanced s.barrier s.workers s.control s.rounds
    → s.control ≡ ready
    → Plan s.destroyed s.running s.barrier.no_threads (flags s.workers) (c ∷ s.calls)
    → exec c s ≡ some t
    → Inv t
unfolding exec set_no_threads
exec-Inv (set_threads n) s v quiet p e = subst Inv (locking-some s _ e) (record {
  balanced = set_no_threads-Balanced s.control n v;
  planned = p;
  waits = ready-Waits s.running (set_no_threads s.barrier n) (flags s.workers) quiet;
})
exec-Inv run_worker s v quiet p e = subst Inv (of_some e) (record {
  balanced = new_worker-Balanced s.control v;
  planned = p.1;
  waits = ready-Waits s.running s.barrier (true ∷ flags s.workers) quiet;
})
exec-Inv wait_for_all s v quiet p e = subst Inv (locking-some s _ e) (wait-Inv s v quiet p.0 p.1)
exec-Inv release_all s v quiet p e =
    subst Inv (locking-some s _ e) (release-Inv s false v quiet p.0 (λ prev left. tt) p.1)
exec-Inv release_and_wait s v quiet p e =
    subst Inv (locking-some s _ e)
      (release-Inv s true v quiet p.0.all_expected (λ prev left. p.0) p.1)
exec-Inv stop_running s v quiet p e = subst Inv (of_some e) (record {
  balanced = v;
  planned = p;
  waits = ready-Waits false s.barrier (flags s.workers) quiet;
})
exec-Inv stop_last s v quiet p e = subst Inv (of_some e) (record {
  balanced =
      relist-Balanced s.workers (stop_head s.workers) v (λ idx. total-stop_head idx s.workers)
        (stop_head-Lockstep _ _ s.workers v.lockstep);
  planned = replan s (flags-stop_head s.workers) p;
  waits = ready-Waits s.running s.barrier (flags (stop_head s.workers)) quiet;
})
exec-Inv join_last s v quiet p e = join_last-Inv s v quiet p.1 e
exec-Inv join_all s v quiet p e = join_all-Inv s v quiet p.1 e
