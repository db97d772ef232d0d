-- ===== src/Threads/Contract/Refinement.antt =====
-- About all of the pool (src/worker_pool_implementation.h): its steps and those of the contract.
use twine.Prelude.{
  ℕ, zero, suc, ◌+◌, ◌-◌, ◌≡◌, ◌⊎◌, inl, inr, refl, sym, subst, ap, Bool, true, false, some, List,
  [], ◌∷◌, map, All, arith, of_some, Bool-cases, if◌then◌else◌, get_elem?-map, set-map, ◌≤◌,
  map-set, not, ◌&&◌, length, length-map, ℕ_discrete,
}
use twine.Barrier
use twine.Barrier.{Barrier, sem_value, wait, semaphore_wait, all_on_barrier}
use twine.Worker.{Worker, Moved, worker_step, stop_thread, blocked}
use twine.Calls.{
  Call, set_no_threads, run_worker, wait_for_all, release_all, release_and_wait, stop_running,
  stop_last, join_last, join_all,
}
use twine.Threads.{
  System, Control, ready, cond_wait, cond_woken, posting, aborted, exec, release, check_all, drive,
  absorb, control_step, thread_step, stop_head, all_exited, step, Action, worker, controller, Step,
  spurious, call, act, Reach, begun, start, later,
}
use twine.Threads.Invariant.Defs.{Inv, Balanced, Plan, flags}
use twine.Threads.Invariant.{
  Reach-Inv, thread_step-some, spurious-some, invoke-some, locking-some, exec-join_last,
  exec-join_all, join_head-some, Balanced-All_blocked, begin_release-some, begin_release-none,
  semaphore_signal-active, worker_step-active,
}
use twine.Threads.Contract.{
  idle, due, busy, gone, Task, TaskStep, starts, quits, rests, new_task, make_due, tell, tell_head,
  moves, hires, tells_last, tells_all, joins, clears, Allows, empty, steps, releases, Follows,
  stays, advances, released, phase_of, task_of, tasks,
}

-- The three steps of a task, as equations.
abbrev Advances : Task → Task → Type 0
Advances k k' =
    ((k.phase ≡ due) × (k.told ≡ false) × (record k { phase = busy; calls = k.calls + 1 } ≡ k'))
    ⊎ ((k.phase ≡ due) × (k.told ≡ true) × (record k { phase = gone } ≡ k'))
    ⊎ ((k.phase ≡ busy) × (record k { phase = idle } ≡ k'))

Advances-TaskStep : (k k' : Task) → Advances k k' → TaskStep k k'
Advances-TaskStep k k' (inl (p, t, e)) = subst (TaskStep k) e (starts p t)
Advances-TaskStep k k' (inr (inl (p, t, e))) = subst (TaskStep k) e (quits p t)
Advances-TaskStep k k' (inr (inr (p, e))) = subst (TaskStep k) e (rests p)

-- A worker's step is one of its task, or none.
worker_step-Advances :
    (running : Bool) (b : Barrier) (w : Worker) (m : Moved)
    → sem_value b b.active_sem_idx ≡ 0
    → worker_step running b w ≡ some m
    → (task_of running b.active_sem_idx w ≡ task_of running b.active_sem_idx m.worker)
      ⊎ Advances (task_of running b.active_sem_idx w) (task_of running b.active_sem_idx m.worker)
unfolding worker_step wait semaphore_wait
worker_step-Advances running b w m fresh e = ground arith

-- From one state to another, the tasks have taken at most one step of the contract.
abbrev Follow : System → System → Type 0
Follow s t = Follows s.rounds (tasks s) t.rounds (tasks t)

thread_step-Follow :
    (i : ℕ) (s : System) {t : System} → Inv s → thread_step i s ≡ some t → Follow s t
unfolding absorb
thread_step-Follow i s v e =
    let (w, m, at, moved, end) = thread_step-some i s e in
    let task = task_of s.running s.barrier.active_sem_idx in
    subst (Follow s) end (
      rw (sym (worker_step-active s.running s.barrier w moved))
        (elim (worker_step-Advances s.running s.barrier w m v.balanced.fresh moved) [
          | inl same ↦
              subst (Follows s.rounds (tasks s) s.rounds)
                (sym (map-set task s.workers i w m.worker at (sym same))) stays
          | inr adv ↦
              subst (Follows s.rounds (tasks s) s.rounds) (set-map task s.workers i m.worker) (
                advances (
                  moves i (task w) (task m.worker) (get_elem?-map task s.workers i at)
                    (Advances-TaskStep _ _ adv)))
        ]))

release-tasks :
    (running : Bool) (active : ℕ) (ws : List Worker)
    → active ≤ 1
    → All (λ w. w.pc ≡ blocked active) ws
    → All (λ k. k.phase ≡ idle) (map (task_of running active) ws)
      × (map make_due (map (task_of running active) ws) ≡ map (task_of running (1 - active)) ws)
release-tasks running active [] a h = (tt, refl)
release-tasks running active (w ∷ ws) a h =
    let (i, d) = release-tasks running active ws a h.1 in
    ((ground (arith, h.0), i), ground (arith, h.0, d))

tell-tasks :
    (running : Bool) (active : ℕ) (ws : List Worker)
    → map tell (map (task_of running active) ws) ≡ map (task_of false active) ws
tell-tasks running active [] = refl
tell-tasks running active (w ∷ ws) =
    ap (◌∷◌ (tell (task_of running active w))) (tell-tasks running active ws)

stop_head-tasks :
    (running : Bool) (active : ℕ) (ws : List Worker)
    → tell_head (map (task_of running active) ws) ≡ map (task_of running active) (stop_head ws)
unfolding stop_head stop_thread
stop_head-tasks running active [] = refl
stop_head-tasks running active (w ∷ ws) = ground arith

all_exited-gone :
    (running : Bool) (active : ℕ) (ws : List Worker)
    → all_exited ws ≡ true
    → All (λ k. k.phase ≡ gone) (map (task_of running active) ws)
unfolding all_exited
all_exited-gone running active [] e = tt
all_exited-gone running active (w ∷ ws) e =
    (ground (arith, e), all_exited-gone running active ws (ground (arith, e)))

release-Follow :
    (s : System) (and_wait : Bool)
    → Balanced s.barrier s.workers s.control s.rounds
    → s.barrier.no_threads ≡ length (flags s.workers)
    → Follow s (release and_wait s)
unfolding release
release-Follow s and_wait v expected = elim (ℕ_discrete s.barrier.on_barrier s.barrier.no_threads) [
  | yes full ↦
      let (all, same) = release-tasks s.running s.barrier.active_sem_idx s.workers v.index (
        Balanced-All_blocked v
          (omega (arith, full, expected, length-map s.workers (λ w. w.thread_running)))) in
      rw (begin_release-some s.barrier full, release)
        (subst (Follows s.rounds (tasks s) (s.rounds + 1)) same (released all))
  | no short ↦ rw (begin_release-none s.barrier short, release) stays
]

wait-Follow : (s : System) → Follow s (if all_on_barrier s.barrier then s else check_all s)
unfolding check_all
wait-Follow s = elim (Bool-cases (all_on_barrier s.barrier)) [
  | inl e ↦ rw e stays
  | inr e ↦ rw e stays
]

exec-Follow :
    (c : Call) (s : System) {t : System}
    → Balanced s.barrier s.workers s.control s.rounds
    → Plan s.destroyed s.running s.barrier.no_threads (flags s.workers) (c ∷ s.calls)
    → exec c s ≡ some t
    → Follow s t
unfolding exec Barrier.set_no_threads
exec-Follow (set_no_threads n) s v p e = subst (Follow s) (locking-some s _ e) stays
exec-Follow run_worker s v p e = subst (Follow s) (of_some e) (
    subst
      (λ r.
        Follows s.rounds (tasks s) s.rounds (record new_task { told = not (r && true) } ∷ tasks s))
      (sym p.0) (advances hires))
exec-Follow wait_for_all s v p e = subst (Follow s) (locking-some s _ e) (wait-Follow s)
exec-Follow release_all s v p e =
    subst (Follow s) (locking-some s _ e) (release-Follow s false v p.0)
exec-Follow release_and_wait s v p e =
    subst (Follow s) (locking-some s _ e) (release-Follow s true v p.0.all_expected)
exec-Follow stop_running s v p e = subst (Follow s) (of_some e) (
    subst (Follows s.rounds (tasks s) s.rounds)
      (tell-tasks s.running s.barrier.active_sem_idx s.workers) (advances tells_all))
exec-Follow stop_last s v p e = subst (Follow s) (of_some e) (
    subst (Follows s.rounds (tasks s) s.rounds)
      (stop_head-tasks s.running s.barrier.active_sem_idx s.workers) (advances tells_last))
exec-Follow join_last s v p e =
    let (rest, joined, end) = exec-join_last s e in
    let (w, list, left) = join_head-some s.workers joined in
    let task = task_of s.running s.barrier.active_sem_idx in
    subst (Follow s) end (
      advances (
        joins (task w) (map task rest) (ap (map task) list)
          (ap (phase_of s.barrier.active_sem_idx) left)))
exec-Follow join_all s v p e =
    let (all, end) = exec-join_all s e in
    subst (Follow s) end
      (advances (clears (all_exited-gone s.running s.barrier.active_sem_idx s.workers all)))

drive-Follow :
    (c : Control) (calls : List Call) (s : System) {t : System}
    → s.calls ≡ calls
    → Inv s
    → drive c calls s ≡ some t
    → Follow s t
unfolding drive check_all
drive-Follow ready [] s todo v e = absurd (ground arith)
drive-Follow ready (c ∷ calls) s todo v e =
    exec-Follow c (record s { calls = calls }) v.balanced
      (subst (Plan s.destroyed s.running s.barrier.no_threads (flags s.workers)) todo v.planned) e
drive-Follow cond_wait calls s todo v e = absurd (ground arith)
drive-Follow cond_woken calls s todo v e = subst (Follow s) (locking-some s _ e) stays
drive-Follow (posting prev (suc left) and_wait) calls s todo v e =
    subst (Follow s) (of_some e) (rw (semaphore_signal-active s.barrier prev) stays)
drive-Follow (posting prev zero true) calls s todo v e = subst (Follow s) (of_some e) stays
drive-Follow (posting prev zero false) calls s todo v e = subst (Follow s) (of_some e) stays
drive-Follow aborted calls s todo v e = absurd (ground arith)

step-Follow : (a : Action) (s : System) {t : System} → Inv s → step a s ≡ some t → Follow s t
unfolding step control_step
step-Follow (worker i) s v e = thread_step-Follow i s v e
step-Follow controller s v e = drive-Follow s.control s.calls s refl v e
step-Follow spurious s v e = subst (Follow s) (spurious-some s e).1 stays
step-Follow (call m) s v e = subst (Follow s) (invoke-some m s e).3 stays

-- The pool does what its contract allows, step by step: from every reachable state, each step, of a
-- worker, of the controller, of its client, or for no cause, leaves the tasks that are seen of the workers
-- as they are, or does to them what one step of the contract does: a task that is due starts its callback
-- if it has not been told to stop, and leaves if it has; one that is busy becomes idle; a task is created,
-- told to stop, or, when it has left, removed; or, when all are idle, one more release makes all of them
-- due.
pub Step-Follows :
    {s t : System} → Reach s → Step s t → Follows s.rounds (tasks s) t.rounds (tasks t)
Step-Follows {s} r (act a e) = step-Follow a s (Reach-Inv r) e

Follows-Allows : {n n' : ℕ} {ks ks' : List Task} → Allows n ks → Follows n ks n' ks' → Allows n' ks'
Follows-Allows h stays = h
Follows-Allows h (advances st) = steps h st
Follows-Allows h (released all) = releases h all

-- In every reachable state the tasks are what the contract makes of an empty pool, with as many releases
-- as have begun.
pub Reach-Allows : {s : System} → Reach s → Allows s.rounds (tasks s)
unfolding start
Reach-Allows begun = empty
Reach-Allows (later r st) = Follows-Allows (Reach-Allows r) (Step-Follows r st)
