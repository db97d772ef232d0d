-- ===== src/Threads/Determined.antt =====
-- About the methods of WorkerPoolImpl that end in a wait for the workers
-- (src/worker_pool_implementation.h): what the schedule of the threads has to do with their result.
use twine.Prelude.{ℕ, ◌≡◌, refl, sym, ◌∙◌, ap, false, some, [], ◌∷◌, arith, All-map, List}
use twine.Barrier.{begin_release}
use twine.Worker.{blocked}
use twine.Calls.{Call, join_last, Method, wait_for_workers_idle, wakeup_workers, wakeup_and_wait}
use twine.Threads.{
  System, Control, ready, exec, release, check_all, drive, control_step, absorb, step, Action,
  worker, controller, spurious, call, is_destroy, Reach,
}
use twine.Threads.Invariant.{exec-join_last, thread_step-some, spurious-some, invoke-some}
use twine.Threads.Safety.{IsIdle}
use twine.Threads.Fate.{IsInner, now}
use twine.Threads.Effects.{Own-IsInner, method_effect, Returned-effect}
use twine.Threads.Waiting.{IsWaiting, waiting_methods-IsIdle}
use twine.Threads.Returns.{Runs, begins, own, spurs, Returned, returned, Returned-Reach}
use twine.Threads.Settled.{settled, idle-settled}

exec-destroyed :
    (c : Call) (s : System) {t : System} → exec c s ≡ some t → t.destroyed ≡ s.destroyed
unfolding exec release check_all begin_release
exec-destroyed join_last s e =
    let (rest, joined, end) = exec-join_last s e in sym (ap (λ t. t.destroyed) end)
exec-destroyed c s e = ground (arith, e)

drive-destroyed :
    (c : Control) (calls : List Call) (s : System) {t : System}
    → drive c calls s ≡ some t
    → t.destroyed ≡ s.destroyed
unfolding drive check_all
drive-destroyed ready [] s e = absurd (ground (arith, e))
drive-destroyed ready (c ∷ calls) s e = exec-destroyed c (record s { calls = calls }) e
drive-destroyed c calls s e = ground (arith, e)

-- Only the client's call of the destructor marks the pool as destroyed.
step-destroyed :
    (a : Action) (s : System) {t : System}
    → IsInner a
    → step a s ≡ some t
    → t.destroyed ≡ s.destroyed
unfolding step control_step absorb
step-destroyed (worker i) s o e =
    let (w, m, at, moved, end) = thread_step-some i s e in sym (ap (λ t. t.destroyed) end)
step-destroyed controller s o e = drive-destroyed s.control s.calls s e
step-destroyed spurious s o e = sym (ap (λ t. t.destroyed) (spurious-some s e).1)
step-destroyed (call m) s o e = elim o [ ]

Runs-destroyed : {s t : System} {n k : ℕ} → Runs s n k t → t.destroyed ≡ s.destroyed
Runs-destroyed begins = refl
Runs-destroyed (own {t = u} a run o e) = step-destroyed a u (Own-IsInner a o) e ∙ Runs-destroyed run
Runs-destroyed (spurs {t = u} run e) = step-destroyed spurious u tt e ∙ Runs-destroyed run

IsWaiting-stays : (m : Method) → IsWaiting m → is_destroy m ≡ false
IsWaiting-stays m h = ground (arith, h)

-- The schedule does not matter: whatever it is, with spurious wakeups or without, when
-- `wait_for_workers_idle`, `wakeup_and_wait` or an `add_worker` that adds a worker has returned, the whole
-- state of the pool, of its barrier and of its workers is one that depends on nothing but the method, the
-- number of releases before it and the number of releases before each worker's creation.
pub waiting_methods-settled :
    (m : Method) (s : System) {t : System}
    → Reach s
    → IsWaiting m
    → Returned m s t
    → t ≡ settled (method_effect m (now s))
waiting_methods-settled m s {t} r h (returned e run at todo) =
    let done : Returned m s t = returned e run at todo in
    let alive =
      Runs-destroyed run
      ∙ sym (ap (λ u. u.destroyed) (invoke-some m s e).3)
      ∙ IsWaiting-stays m h in
    let idle = waiting_methods-IsIdle m s r h e run at todo in
    idle-settled t (Returned-Reach m r done) at todo alive (
      All-map (IsIdle t) (λ w. w.pc ≡ blocked t.barrier.active_sem_idx) t.workers (λ w i. i.0) idle)
    ∙ ap settled (Returned-effect m s done)

-- `wakeup_workers` with `wait_for_workers_idle` after it does what `wakeup_and_wait` does: from the same
-- state, they end in the same state of the pool, its barrier and its workers, whatever the schedules of the
-- two are.
pub wakeup_workers-wait_for_workers_idle :
    (s : System) {t u v : System}
    → Reach s
    → Returned wakeup_workers s t
    → Returned wait_for_workers_idle t u
    → Returned wakeup_and_wait s v
    → u ≡ v
wakeup_workers-wait_for_workers_idle s {t} r woken waited both =
    waiting_methods-settled wait_for_workers_idle t (Returned-Reach wakeup_workers r woken) tt
      waited
    ∙ ap settled (Returned-effect wakeup_workers s woken)
    ∙ sym (waiting_methods-settled wakeup_and_wait s r tt both)
