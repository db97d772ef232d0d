-- ===== src/Threads/Protocol.antt =====
-- About the methods of WorkerPoolImpl (src/worker_pool_implementation.h), by a client that
-- wakes the workers only when it knows that they are idle.
use twine.Prelude.{
  ℕ, ◌+◌, ◌≤◌, ◌≡◌, ◌≢◌, ◌⊎◌, inl, refl, sym, ◌∙◌, subst, Bool, true, false, some, List, [], ◌∷◌,
  arith, All-map, length,
}
use twine.Barrier
use twine.Worker.{blocked}
use twine.Calls.{
  Call, set_no_threads, Method, add_worker, not_created, init_failed, added, wait_for_workers_idle,
  wakeup_workers, wakeup_and_wait, destroy, method_calls,
}
use twine.Threads.{
  System, start, ready, aborted, exec, drive, control_step, invoke, step, Action, worker,
  controller, spurious, call, Reach, begun, later, act,
}
use twine.Threads.Invariant.{invoke-some, spurious-some, locking-some}
use twine.Threads.Orderly.Defs.{AllBlocked}
use twine.Threads.Safety.{IsIdle, idle_stuck}
use twine.Threads.Fate.{IsInner}
use twine.Threads.Effects.{Own-IsInner}
use twine.Threads.Waiting.{IsWaiting, waiting_methods-IsIdle}
use twine.Threads.Progress.{CanStep}
use twine.Threads.Termination.{measure}
use twine.Threads.Success.{Tame, Succeeds, Runs-Succeeds, idle_methods_never_abort}
use twine.Threads.Returns.{
  Runs, begins, own, spurs, Returned, returned, Returned-Reach, Runs-Reach, runs_bounded,
}
use twine.Threads.Completion.{returned_or_CanStep}

-- Whether the client may call a method, if it knows that the workers are idle or does not know it.
abbrev pub MayCall : (idle : Bool) → Method → Type 0
MayCall idle wakeup_workers = idle ≡ true
MayCall idle wakeup_and_wait = idle ≡ true
MayCall idle m = Unit {0}

-- What it knows when the method has returned.
abbrev pub knows : (idle : Bool) → Method → Bool
knows idle (add_worker added) = true
knows idle (add_worker not_created) = idle
knows idle (add_worker init_failed) = false
knows idle wait_for_workers_idle = true
knows idle wakeup_workers = false
knows idle wakeup_and_wait = true
knows idle destroy = false

pub data Conforms : (idle : Bool) → System → Type 0 where
  opened : Conforms true start
  has_called :
      {idle : Bool} {s t : System} (m : Method)
      → Conforms idle s
      → MayCall idle m
      → Returned m s t
      → (after : Bool) → after ≡ knows idle m
      → Conforms after t

Conforms-Reach : {idle : Bool} {s : System} → Conforms idle s → Reach s
Conforms-Reach opened = begun
Conforms-Reach (has_called m c may done after e) = Returned-Reach m (Conforms-Reach c) done

-- While the calls that are left only set the number of threads, idle workers stay idle.
abbrev OnlySets : List Call → Type 0
OnlySets [] = Unit {0}
OnlySets (set_no_threads n ∷ calls) = OnlySets calls
OnlySets _ = ⊥

abbrev Quiet : System → Type 0
Quiet s = (s.control ≡ ready) × OnlySets s.calls × AllBlocked s.barrier.active_sem_idx s.workers

exec-Quiet :
    (c : Call) (calls : List Call) (s : System) {t : System}
    → s.calls ≡ calls
    → exec c s ≡ some t
    → OnlySets (c ∷ calls)
    → s.control ≡ ready
    → AllBlocked s.barrier.active_sem_idx s.workers
    → Quiet t
unfolding exec Barrier.set_no_threads
exec-Quiet (set_no_threads n) calls s todo e h at all =
    subst Quiet (locking-some s _ e) (at, subst OnlySets (sym todo) h, all)
exec-Quiet c calls s todo e h at all = elim h [ ]

drive-Quiet :
    (calls : List Call) (s : System) {t : System}
    → s.calls ≡ calls
    → drive ready calls s ≡ some t
    → Quiet s
    → Quiet t
unfolding drive
drive-Quiet [] s todo e h = absurd (ground (arith, e))
drive-Quiet (c ∷ calls) s todo e (at, sets, all) =
    exec-Quiet c calls (record s { calls = calls }) refl e (subst OnlySets todo sets) at all

step-Quiet :
    (a : Action) (s : System) {t : System}
    → IsInner a
    → Reach s
    → step a s ≡ some t
    → Quiet s
    → Quiet t
unfolding step control_step
step-Quiet (worker i) s o r e (at, sets, all) =
    absurd (let stuck = idle_stuck r all i in ground (arith, stuck, e))
step-Quiet controller s {t} o r e h =
    drive-Quiet s.calls s refl (subst (λ c. drive c s.calls s ≡ some t) h.0 e) h
step-Quiet spurious s o r e h =
    absurd (let (waits, end) = spurious-some s e in ground (arith, h.0, waits))
step-Quiet (call m) s o r e h = elim o [ ]

Runs-Quiet : {s t : System} {n k : ℕ} → Reach s → Runs s n k t → Quiet s → Quiet t
Runs-Quiet r begins h = h
Runs-Quiet r (own {t = u} a run o e) h =
    step-Quiet a u (Own-IsInner a o) (Runs-Reach r run) e (Runs-Quiet r run h)
Runs-Quiet r (spurs {t = u} run e) h =
    step-Quiet spurious u tt (Runs-Reach r run) e (Runs-Quiet r run h)

waiting-AllBlocked :
    (m : Method) (s : System) {t : System}
    → Reach s
    → IsWaiting m
    → Returned m s t
    → AllBlocked t.barrier.active_sem_idx t.workers
waiting-AllBlocked m s {t} r h (returned e run at todo) =
    All-map (IsIdle t) (λ w. w.pc ≡ blocked t.barrier.active_sem_idx) t.workers (λ w i. i.0)
      (waiting_methods-IsIdle m s r h e run at todo)

not_created-AllBlocked :
    (s : System) {t : System}
    → Reach s
    → AllBlocked s.barrier.active_sem_idx s.workers
    → Returned (add_worker not_created) s t
    → AllBlocked t.barrier.active_sem_idx t.workers
unfolding step method_calls
not_created-AllBlocked s r all (returned e run at todo) =
    let (ready_then, none_left, alive, end) = invoke-some (add_worker not_created) s e in
    (Runs-Quiet (later r (act (call (add_worker not_created)) e)) run
      (subst Quiet end (ready_then, tt, all))).2

-- What the client knows is true.
Conforms-AllBlocked :
    {idle : Bool} {s : System}
    → Conforms idle s
    → idle ≡ true
    → AllBlocked s.barrier.active_sem_idx s.workers
unfolding start
Conforms-AllBlocked opened k = tt
Conforms-AllBlocked (has_called {s = s} (add_worker added) c may done after e) k =
    waiting-AllBlocked (add_worker added) s (Conforms-Reach c) tt done
Conforms-AllBlocked (has_called {s = s} (add_worker not_created) c may done after e) k =
    not_created-AllBlocked s (Conforms-Reach c) (Conforms-AllBlocked c (sym e ∙ k)) done
Conforms-AllBlocked (has_called (add_worker init_failed) c may done after e) k =
    absurd (ground (arith, e, k))
Conforms-AllBlocked (has_called {s = s} wait_for_workers_idle c may done after e) k =
    waiting-AllBlocked wait_for_workers_idle s (Conforms-Reach c) tt done
Conforms-AllBlocked (has_called wakeup_workers c may done after e) k = absurd (ground (arith, e, k))
Conforms-AllBlocked (has_called {s = s} wakeup_and_wait c may done after e) k =
    waiting-AllBlocked wakeup_and_wait s (Conforms-Reach c) tt done
Conforms-AllBlocked (has_called destroy c may done after e) k = absurd (ground (arith, e, k))

-- The methods that a client may call while workers are running wake none that is to be idle.
MayCall-Tame : (m : Method) (n : ℕ) → MayCall false m → Tame (method_calls n m)
unfolding method_calls
MayCall-Tame (add_worker not_created) n h = ground arith
MayCall-Tame (add_worker init_failed) n h = ground arith
MayCall-Tame (add_worker added) n h = ground arith
MayCall-Tame wait_for_workers_idle n h = ground arith
MayCall-Tame wakeup_workers n h = absurd (ground (arith, h))
MayCall-Tame wakeup_and_wait n h = absurd (ground (arith, h))
MayCall-Tame destroy n h = ground arith

conforming_calls_never_abort :
    (idle : Bool) (m : Method) (s : System) {u t : System} {n k : ℕ}
    → Conforms idle s
    → MayCall idle m
    → invoke m s ≡ some u
    → Runs u n k t
    → t.control ≢ aborted
unfolding step
conforming_calls_never_abort true m s c may e run =
    idle_methods_never_abort m s (Conforms-Reach c) (Conforms-AllBlocked c refl) e run
conforming_calls_never_abort false m s {u} c may e run =
    let (at, todo, alive, end) = invoke-some m s e in
    let succeeds : Succeeds u =
      subst Succeeds end
        ((λ q. ground (arith, at, q)), inl (MayCall-Tame m (length s.workers) may)) in
    (Runs-Succeeds (later (Conforms-Reach c) (act (call m) e)) run succeeds).0

-- Total correctness of the pool for a client that wakes the workers only when it knows that they are idle:
-- at the start, after a method that waits for them, and after an `add_worker` that creates no thread if it
-- knew so before. Each method that such a client calls returns, under every schedule: however it has run so
-- far, no assertion has failed, and it has returned, or the controller or some worker has a step of its own
-- to make; the steps that they make are at most as many as the measure of the state after the call says, and
-- one more for each spurious wakeup.
pub conforming_calls_complete :
    (idle : Bool) (m : Method) (s : System) {u t : System} {n k : ℕ}
    → Conforms idle s
    → MayCall idle m
    → invoke m s ≡ some u
    → Runs u n k t
    → (t.control ≢ aborted)
      × (((t.control ≡ ready) × (t.calls ≡ [])) ⊎ CanStep t)
      × (n ≤ measure u + k)
unfolding step
conforming_calls_complete idle m s {u} {t} c may e run =
    let called = later (Conforms-Reach c) (act (call m) e) in
    let live = conforming_calls_never_abort idle m s c may e run in
    (
      live,
      returned_or_CanStep t (Runs-Reach called run) live,
      omega (arith, runs_bounded called run),
    )
