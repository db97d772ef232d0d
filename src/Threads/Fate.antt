-- ===== src/Threads/Fate.antt =====
-- About the methods of WorkerPoolImpl (src/worker_pool_implementation.h): what the calls of a method
-- make of the list of workers and of the number of releases, whatever the schedule is.
use twine.Prelude.{
  ℕ, zero, suc, ◌+◌, ◌≡◌, ◌≢◌, refl, subst, Bool, true, false, some, List, [], ◌∷◌, map, arith,
  if◌then◌else◌, of_some, map-set, ap,
}
use twine.Barrier
use twine.Barrier.{Barrier, wait, semaphore_wait, all_on_barrier, must_wait}
use twine.Worker.{Worker, Moved, worker_step, stop_thread}
use twine.Calls.{
  Call, set_no_threads, run_worker, wait_for_all, release_all, release_and_wait, stop_running,
  stop_last, join_last, join_all,
}
use twine.Threads.{
  System, Control, ready, cond_wait, cond_woken, posting, aborted, exec, release, check_all, drive,
  control_step, thread_step, stop_head, absorb, locking, step, Action, worker, controller, spurious,
  call,
}
use twine.Threads.Invariant.{
  thread_step-some, spurious-some, locking-some, exec-join_last, exec-join_all, join_head-some,
}

-- How many releases have begun, and for each worker how many had when it was created.
pub record Fate : Type 0 where
  pub rounds : ℕ
  pub born : List ℕ

abbrev pub drop_head : List ℕ → List ℕ
drop_head [] = []
drop_head (n ∷ ns) = ns

abbrev pub effect : Call → Fate → Fate
effect run_worker f = record f { born = f.rounds ∷ f.born }
effect release_all f = record f { rounds = f.rounds + 1 }
effect release_and_wait f = record f { rounds = f.rounds + 1 }
effect join_last f = record f { born = drop_head f.born }
effect join_all f = record f { born = [] }
effect c f = f

-- What the calls that are left will make of it, when they are done one after the other.
abbrev pub fate : List Call → Fate → Fate
fate [] f = f
fate (c ∷ calls) f = fate calls (effect c f)

abbrev pub since_of : List Worker → List ℕ
since_of = map λ w. w.since

abbrev pub now : System → Fate
now s = record { rounds = s.rounds; born = since_of s.workers }

-- Any action but a call of the client.
abbrev pub IsInner : Action → Type 0
IsInner (call m) = ⊥
IsInner _ = Unit {0}

-- A worker keeps the number that it was created with.
worker_step-since :
    (running : Bool) (b : Barrier) (w : Worker) (m : Moved)
    → worker_step running b w ≡ some m
    → m.worker.since ≡ w.since
unfolding worker_step wait semaphore_wait
worker_step-since running b w m e = ground arith

since_of-stop_head : (ws : List Worker) → since_of (stop_head ws) ≡ since_of ws
unfolding stop_head stop_thread
since_of-stop_head [] = refl
since_of-stop_head (w ∷ ws) = refl

check_all-now : (s : System) → now (check_all s) ≡ now s
unfolding check_all
check_all-now s = refl

release-now :
    (s : System) (and_wait : Bool)
    → (release and_wait s).control ≢ aborted
    → now (release and_wait s) ≡ record (now s) { rounds = s.rounds + 1 }
unfolding release Barrier.begin_release
release-now s and_wait live = ground arith

-- The calls that are left are fated to end in what the calls before them were fated to.
abbrev pub Keeps : Fate → System → Type 0
Keeps f t = fate t.calls (now t) ≡ f

release-Keeps :
    (s : System) (and_wait : Bool) (f : Fate)
    → (release and_wait s).control ≢ aborted
    → fate s.calls (record (now s) { rounds = s.rounds + 1 }) ≡ f
    → Keeps f (release and_wait s)
unfolding release Barrier.begin_release
release-Keeps s and_wait f live e = ground (arith, e)

wait-Keeps :
    (s : System)
    → Keeps (fate s.calls (now s)) (if all_on_barrier s.barrier then s else check_all s)
unfolding check_all all_on_barrier
wait-Keeps s = ground arith

released_call :
    (s : System) (and_wait : Bool) {t : System}
    → t.control ≢ aborted
    → locking s (release and_wait s) ≡ some t
    → Keeps (fate s.calls (record (now s) { rounds = s.rounds + 1 })) t
released_call s and_wait live e =
    subst
      (λ t. t.control ≢ aborted → Keeps (fate s.calls (record (now s) { rounds = s.rounds + 1 })) t)
      (locking-some s _ e) (λ live. release-Keeps s and_wait _ live refl) live

join_last-Keeps :
    (s : System) (ws rest : List Worker) {w : Worker}
    → ws ≡ w ∷ rest
    → fate s.calls (record { rounds = s.rounds; born = since_of rest })
      ≡ fate s.calls (record { rounds = s.rounds; born = drop_head (since_of ws) })
join_last-Keeps s ws rest e = rw e refl

exec-Keeps :
    (c : Call) (s : System) {t : System}
    → t.control ≢ aborted
    → exec c s ≡ some t
    → Keeps (fate (c ∷ s.calls) (now s)) t
unfolding exec
exec-Keeps (set_no_threads n) s live e = ground (arith, e)
exec-Keeps run_worker s live e = ground (arith, e)
exec-Keeps wait_for_all s live e =
    subst (Keeps (fate s.calls (now s))) (locking-some s _ e) (wait-Keeps s)
exec-Keeps release_all s live e = released_call s false live e
exec-Keeps release_and_wait s live e = released_call s true live e
exec-Keeps stop_running s live e = ground (arith, e)
exec-Keeps stop_last s live e =
    subst (Keeps (fate s.calls (now s))) (of_some e) (
      ap (λ b. fate s.calls (record { rounds = s.rounds; born = b }))
        (since_of-stop_head s.workers))
exec-Keeps join_last s live e =
    let (rest, joined, end) = exec-join_last s e in
    let (w, list, gone) = join_head-some s.workers joined in
    subst (Keeps (fate (join_last ∷ s.calls) (now s))) end (join_last-Keeps s s.workers rest list)
exec-Keeps join_all s live e =
    subst (Keeps (fate (join_all ∷ s.calls) (now s))) (exec-join_all s e).1 refl

drive-Keeps :
    (c : Control) (calls : List Call) (s : System) {t : System}
    → t.control ≢ aborted
    → s.calls ≡ calls
    → drive c calls s ≡ some t
    → Keeps (fate s.calls (now s)) t
unfolding drive check_all
drive-Keeps ready [] s live todo e = absurd (ground arith)
drive-Keeps ready (c ∷ calls) s {t} live todo e =
    rw todo (exec-Keeps c (record s { calls = calls }) live e)
drive-Keeps cond_wait calls s live todo e = absurd (ground arith)
drive-Keeps cond_woken calls s live todo e =
    subst (Keeps (fate s.calls (now s))) (locking-some s _ e) (ap (fate s.calls) (check_all-now s))
drive-Keeps (posting prev (suc left) and_wait) calls s live todo e =
    subst (Keeps (fate s.calls (now s))) (of_some e) refl
drive-Keeps (posting prev zero true) calls s live todo e =
    subst (Keeps (fate s.calls (now s))) (of_some e) (ap (fate s.calls) (check_all-now s))
drive-Keeps (posting prev zero false) calls s live todo e =
    subst (Keeps (fate s.calls (now s))) (of_some e) refl
drive-Keeps aborted calls s live todo e = absurd (ground arith)

thread_step-Keeps :
    (i : ℕ) (s : System) {t : System} → thread_step i s ≡ some t → Keeps (fate s.calls (now s)) t
unfolding absorb
thread_step-Keeps i s e =
    let (w, m, at, moved, end) = thread_step-some i s e in
    subst (Keeps (fate s.calls (now s))) end (
      ap (λ b. fate s.calls (record { rounds = s.rounds; born = b }))
        (map-set (λ w. w.since) s.workers i w m.worker at
          (worker_step-since s.running s.barrier w m moved)))

-- While no assertion fails, every step of the workers and the controller, and every spurious wakeup,
-- keeps what the calls that are left will make of the workers and of the number of releases.
pub step-Keeps :
    (a : Action) (s : System) {t : System}
    → IsInner a
    → t.control ≢ aborted
    → step a s ≡ some t
    → Keeps (fate s.calls (now s)) t
unfolding step control_step
step-Keeps (worker i) s o live e = thread_step-Keeps i s e
step-Keeps controller s o live e = drive-Keeps s.control s.calls s live refl e
step-Keeps spurious s o live e = subst (Keeps (fate s.calls (now s))) (spurious-some s e).1 refl
step-Keeps (call m) s o live e = elim o [ ]
