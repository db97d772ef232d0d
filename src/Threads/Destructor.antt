-- ===== src/Threads/Destructor.antt =====
-- About the destructor of WorkerPoolImpl (src/worker_pool_implementation.h): which callbacks the
-- workers still enter.
use twine.Prelude.{
  ℕ, zero, suc, ◌+◌, ◌≤◌, ◌≡◌, ◌⊎◌, inl, inr, refl, sym, ◌∙◌, subst, true, false, some, List, [],
  ◌∷◌, arith, All, All-get, All-set, All-map, of_some,
}
use twine.Barrier.{Barrier, wait, semaphore_wait, begin_release}
use twine.Worker.{Worker, Moved, worker_step}
use twine.Calls.{Call, wait_for_all, release_all, stop_running, join_all, destroy, method_calls}
use twine.Threads.{
  System, Control, ready, cond_wait, cond_woken, posting, aborted, exec, release, check_all, drive,
  control_step, thread_step, absorb, invoke, step, Action, worker, controller, spurious, call,
  Reach, later, act,
}
use twine.Threads.Invariant.Defs.{Lockstep}
use twine.Threads.Invariant.{Reach-Inv, thread_step-some, spurious-some, invoke-some, exec-join_all}
use twine.Threads.Fate.{IsInner}
use twine.Threads.Effects.{Own-IsInner}
use twine.Threads.Returns.{Runs, begins, own, spurs, Runs-Reach}

-- A worker has entered its callback for none but the first `rounds` releases.
abbrev pub Within : ℕ → Worker → Type 0
Within rounds w = w.since + w.calls ≤ rounds

-- The calls of the destructor after it has stopped the workers.
abbrev Ends : List Call → Type 0
Ends [] = Unit {0}
Ends (release_all ∷ calls) = Ends calls
Ends (join_all ∷ calls) = Ends calls
Ends _ = ⊥

-- And before that.
abbrev Begins : List Call → Type 0
Begins (wait_for_all ∷ stop_running ∷ calls) = Ends calls
Begins (stop_running ∷ calls) = Ends calls
Begins _ = ⊥

abbrev Closes : ℕ → System → Type 0
Closes rounds s =
    (Begins s.calls × (s.rounds ≡ rounds))
    ⊎ (Ends s.calls × (s.running ≡ false) × All (Within rounds) s.workers)

Lockstep-Within : (active rounds : ℕ) (w : Worker) → Lockstep active rounds w → Within rounds w
Lockstep-Within active rounds w h = ground (arith, h)

Reach-Within : {s : System} → Reach s → All (Within s.rounds) s.workers
Reach-Within {s} r =
    All-map (Lockstep s.barrier.active_sem_idx s.rounds) (Within s.rounds) s.workers
      (Lockstep-Within s.barrier.active_sem_idx s.rounds) (Reach-Inv r).balanced.lockstep

Closes-Within :
    {rounds : ℕ} (s : System) → Reach s → Closes rounds s → All (Within rounds) s.workers
Closes-Within s r (inl (calls, same)) = subst (λ n. All (Within n) s.workers) same (Reach-Within r)
Closes-Within s r (inr (calls, stopped, all)) = all

-- No callback is entered while the pool is not running.
worker_step-Within :
    (rounds : ℕ) (b : Barrier) (w : Worker) {m : Moved}
    → worker_step false b w ≡ some m
    → Within rounds w
    → Within rounds m.worker
unfolding worker_step wait semaphore_wait
worker_step-Within rounds b w e h = ground (arith, e, h)

thread_step-Closes :
    (rounds i : ℕ) (s : System) {t : System}
    → thread_step i s ≡ some t
    → Closes rounds s
    → Closes rounds t
unfolding absorb
thread_step-Closes rounds i s e (inl h) =
    let (w, m, at, moved, end) = thread_step-some i s e in subst (Closes rounds) end (inl h)
thread_step-Closes rounds i s e (inr (calls, stopped, all)) =
    let (w, m, at, moved, end) = thread_step-some i s e in
    let moved' : worker_step false s.barrier w ≡ some m =
      subst (λ running. worker_step running s.barrier w ≡ some m) stopped moved in
    subst (Closes rounds) end (
      inr (
        calls,
        stopped,
        All-set (Within rounds) s.workers i m.worker all (
            worker_step-Within rounds s.barrier w moved'
              (All-get (Within rounds) s.workers i all at)),
      ))

-- What a call or a part of one leaves alone.
abbrev Kept : System → System → Type 0
Kept s t = (t.calls ≡ s.calls) × (t.running ≡ s.running) × (t.workers ≡ s.workers)

release_all-Kept : (s : System) {t : System} → exec release_all s ≡ some t → Kept s t
unfolding exec release begin_release
release_all-Kept s e = ground (arith, e)

wait_for_all-Kept :
    (s : System) {t : System}
    → exec wait_for_all s ≡ some t
    → (t.calls ≡ s.calls) × (t.rounds ≡ s.rounds)
unfolding exec check_all
wait_for_all-Kept s e = ground (arith, e)

drive-Kept :
    (c : Control) (calls : List Call) (s : System) {t : System}
    → (c ≡ ready → ⊥)
    → drive c calls s ≡ some t
    → Kept s t × (t.rounds ≡ s.rounds)
unfolding drive check_all
drive-Kept ready calls s h e = absurd (h refl)
drive-Kept cond_wait calls s h e = absurd (ground (arith, e))
drive-Kept cond_woken calls s h e = ground (arith, e)
drive-Kept (posting prev zero false) calls s h e = ground (arith, e)
drive-Kept (posting prev zero true) calls s h e = ground (arith, e)
drive-Kept (posting prev (suc left) and_wait) calls s h e = ground (arith, e)
drive-Kept aborted calls s h e = absurd (ground (arith, e))

Kept-Closes :
    (rounds : ℕ) (s t : System)
    → Kept s t
    → Ends s.calls × (s.running ≡ false) × All (Within rounds) s.workers
    → Closes rounds t
Kept-Closes rounds s t (todo, run, list) (calls, stopped, all) =
    inr (subst Ends (sym todo) calls, run ∙ stopped, subst (All (Within rounds)) (sym list) all)

still-Closes :
    (rounds : ℕ) (s t : System)
    → Kept s t × (t.rounds ≡ s.rounds)
    → Closes rounds s
    → Closes rounds t
still-Closes rounds s t ((todo, run, list), same) (inl (calls, at)) =
    inl (subst Begins (sym todo) calls, same ∙ at)
still-Closes rounds s t (kept, same) (inr h) = Kept-Closes rounds s t kept h

-- The destructor goes on until it has stopped the workers.
waiting_call :
    (rounds : ℕ) (c : Call) (calls : List Call) (s : System) {t : System}
    → Begins (c ∷ calls)
    → s.rounds ≡ rounds
    → Reach s
    → exec c (record s { calls = calls }) ≡ some t
    → Closes rounds t
unfolding exec
waiting_call rounds wait_for_all (stop_running ∷ calls) s h at r e =
    let (todo, same) = wait_for_all-Kept (record s { calls = stop_running ∷ calls }) e in
    inl (subst Begins (sym todo) h, same ∙ at)
waiting_call rounds stop_running calls s h at r e =
    subst (Closes rounds) (of_some e)
      (inr (h, refl, subst (λ n. All (Within n) s.workers) at (Reach-Within r)))
waiting_call rounds c calls s h at r e = elim h [ ]

-- And then no call makes a worker.
ending_call :
    (rounds : ℕ) (c : Call) (calls : List Call) (s : System) {t : System}
    → Ends (c ∷ calls)
    → (s.running ≡ false) × All (Within rounds) s.workers
    → exec c (record s { calls = calls }) ≡ some t
    → Closes rounds t
unfolding exec
ending_call rounds release_all calls s {t} h all e =
    let before = record s { calls = calls } in
    Kept-Closes rounds before t (release_all-Kept before e) (h, all.0, all.1)
ending_call rounds join_all calls s h all e =
    subst (Closes rounds) (exec-join_all (record s { calls = calls }) e).1 (inr (h, all.0, tt))
ending_call rounds c calls s h all e = elim h [ ]

drive-Closes :
    (rounds : ℕ) (c : Control) (calls : List Call) (s : System) {t : System}
    → s.calls ≡ calls
    → Reach s
    → drive c calls s ≡ some t
    → Closes rounds s
    → Closes rounds t
unfolding drive
drive-Closes rounds ready [] s todo r e h = absurd (ground (arith, e))
drive-Closes rounds ready (c ∷ calls) s todo r e (inl (h, at)) =
    waiting_call rounds c calls s (subst Begins todo h) at r e
drive-Closes rounds ready (c ∷ calls) s todo r e (inr (h, stopped, all)) =
    ending_call rounds c calls s (subst Ends todo h) (stopped, all) e
drive-Closes rounds c calls s {t} todo r e h =
    still-Closes rounds s t (drive-Kept c calls s (λ q. ground (arith, q)) e) h

step-Closes :
    (rounds : ℕ) (a : Action) (s : System) {t : System}
    → IsInner a
    → Reach s
    → step a s ≡ some t
    → Closes rounds s
    → Closes rounds t
unfolding step control_step
step-Closes rounds (worker i) s o r e h = thread_step-Closes rounds i s e h
step-Closes rounds controller s o r e h = drive-Closes rounds s.control s.calls s refl r e h
step-Closes rounds spurious s o r e h = subst (Closes rounds) (spurious-some s e).1 h
step-Closes rounds (call m) s o r e h = elim o [ ]

Runs-Closes :
    (rounds : ℕ) {s t : System} {n k : ℕ}
    → Reach s
    → Runs s n k t
    → Closes rounds s
    → Closes rounds t
Runs-Closes rounds r begins h = h
Runs-Closes rounds r (own {t = u} a run o e) h =
    step-Closes rounds a u (Own-IsInner a o) (Runs-Reach r run) e (Runs-Closes rounds r run h)
Runs-Closes rounds r (spurs {t = u} run e) h =
    step-Closes rounds spurious u tt (Runs-Reach r run) e (Runs-Closes rounds r run h)

-- The destructor makes no callback of its own: it wakes the workers by one more release, but at each point
-- of it, whatever the schedule is and whatever the workers were doing when it was called, each worker that
-- is left has entered its callback at most once for each release, from its creation on, that had begun
-- before the call.
pub destroy-Within :
    (s : System) {u t : System} {n k : ℕ}
    → Reach s
    → invoke destroy s ≡ some u
    → Runs u n k t
    → All (Within s.rounds) t.workers
unfolding step method_calls
destroy-Within s {u} {t} r e run =
    let called = later r (act (call destroy) e) in
    let closes : Closes s.rounds u =
      subst (Closes s.rounds) (invoke-some destroy s e).3 (inl (tt, refl)) in
    Closes-Within t (Runs-Reach called run) (Runs-Closes s.rounds called run closes)
