-- ===== src/Threads/Parity.antt =====
-- About BarrierWithTrigger and its use by WorkerPoolImpl (src/worker_pool_implementation.h): which
-- semaphore is the active one, and whether the destructor has been called.
use twine.Prelude.{
  ℕ, zero, suc, ◌+◌, ◌-◌, ◌%◌, ◌≡◌, refl, sym, ◌∙◌, subst, Bool, true, false, some, List, [], ◌∷◌,
  arith, of_some, if◌then◌else◌,
}
use twine.Barrier
use twine.Calls.{
  Call, set_no_threads, run_worker, wait_for_all, release_all, release_and_wait, stop_running,
  stop_last, join_last, join_all,
}
use twine.Threads.{
  System, start, Control, ready, cond_wait, cond_woken, posting, aborted, exec, release, check_all,
  drive, control_step, step, Action, worker, controller, spurious, call, act, Reach, begun, later,
  absorb,
}
use twine.Threads.Invariant.{
  worker_step-active, thread_step-some, spurious-some, locking-some, exec-join_last, exec-join_all,
  invoke-some, semaphore_signal-active,
}

-- Each release makes the other semaphore the active one.
abbrev pub Parity : System → Type 0
Parity s = s.barrier.active_sem_idx ≡ s.rounds % 2

flip : (active rounds : ℕ) → active ≡ rounds % 2 → 1 - active ≡ (rounds + 1) % 2
flip active rounds h = omega arith

release-Parity : (and_wait : Bool) (s : System) → Parity s → Parity (release and_wait s)
unfolding release Barrier.begin_release Barrier.swap_semaphores
release-Parity and_wait s h = ground (arith, flip s.barrier.active_sem_idx s.rounds h)

check_all-Parity : (s : System) → Parity s → Parity (check_all s)
unfolding check_all
check_all-Parity s h = h

wait-Parity :
    (s : System) → Parity s → Parity (if Barrier.all_on_barrier s.barrier then s else check_all s)
wait-Parity s h = ground (arith, h, check_all-Parity s h)

exec-Parity : (c : Call) (s : System) {t : System} → Parity s → exec c s ≡ some t → Parity t
unfolding exec Barrier.set_no_threads
exec-Parity (set_no_threads n) s h e = subst Parity (locking-some s _ e) h
exec-Parity run_worker s h e = subst Parity (of_some e) h
exec-Parity wait_for_all s h e = subst Parity (locking-some s _ e) (wait-Parity s h)
exec-Parity release_all s h e = subst Parity (locking-some s _ e) (release-Parity false s h)
exec-Parity release_and_wait s h e = subst Parity (locking-some s _ e) (release-Parity true s h)
exec-Parity stop_running s h e = subst Parity (of_some e) h
exec-Parity stop_last s h e = subst Parity (of_some e) h
exec-Parity join_last s h e = let (rest, joined, end) = exec-join_last s e in subst Parity end h
exec-Parity join_all s h e = subst Parity (exec-join_all s e).1 h

drive-Parity :
    (c : Control) (calls : List Call) (s : System) {t : System}
    → Parity s
    → drive c calls s ≡ some t
    → Parity t
unfolding drive
drive-Parity ready [] s h e = absurd (ground arith)
drive-Parity ready (c ∷ calls) s h e = exec-Parity c (record s { calls = calls }) h e
drive-Parity cond_wait calls s h e = absurd (ground arith)
drive-Parity cond_woken calls s h e = subst Parity (locking-some s _ e) (check_all-Parity s h)
drive-Parity (posting prev (suc left) and_wait) calls s h e =
    subst Parity (of_some e) (semaphore_signal-active s.barrier prev ∙ h)
drive-Parity (posting prev zero true) calls s h e = subst Parity (of_some e) (check_all-Parity s h)
drive-Parity (posting prev zero false) calls s h e = subst Parity (of_some e) h
drive-Parity aborted calls s h e = absurd (ground arith)

step-Parity : (a : Action) (s : System) {t : System} → step a s ≡ some t → Parity s → Parity t
unfolding step control_step absorb
step-Parity (worker i) s e h =
    let (w, m, at, moved, end) = thread_step-some i s e in
    subst Parity end (sym (worker_step-active s.running s.barrier w moved) ∙ h)
step-Parity controller s e h = drive-Parity s.control s.calls s h e
step-Parity spurious s e h = subst Parity (spurious-some s e).1 h
step-Parity (call m) s e h = subst Parity (invoke-some m s e).3 h

pub Reach-Parity : {s : System} → Reach s → Parity s
unfolding start
Reach-Parity begun = refl
Reach-Parity (later {s} r (act a e)) = step-Parity a s e (Reach-Parity r)
