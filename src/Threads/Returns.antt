-- ===== src/Threads/Returns.antt =====
-- About the methods of WorkerPoolImpl (src/worker_pool_implementation.h): how long they run.
use twine.Prelude.{
  ℕ, zero, suc, ◌+◌, ◌≤◌, ◌<◌, ◌≡◌, ◌≢◌, ◌⊎◌, inl, inr, refl, ap, subst, true, false, some, List,
  [], ◌∷◌, arith, length, total, of_some,
}
use twine.Calls.{Call, Method}
use twine.Threads.{
  System, Control, ready, cond_wait, cond_woken, posting, aborted, control_step, drive, invoke,
  step, Action, worker, controller, spurious, call, act, Reach, later,
}
use twine.Threads.Invariant.Defs.{Inv, flags, Plan}
use twine.Threads.Invariant.{Reach-Inv, spurious-some, locking-some, semaphore_signal-active}
use twine.Threads.Progress.{Own, no_deadlock}
use twine.Threads.Termination.{
  measure, ahead, control_ahead, cost, thread_step-measure, exec-measure, check_all-measure,
}

abbrev Falls : System → List Call → Control → System → Type 0
Falls s calls c t =
    measure t
    < cost (length s.workers) calls
      + total (ahead s.barrier.active_sem_idx) s.workers
      + control_ahead c

drive-measure :
    (c : Control) (calls : List Call) (s : System) {t : System}
    → s.control ≡ c
    → s.calls ≡ calls
    → Inv s
    → drive c calls s ≡ some t
    → Falls s calls c t
unfolding drive
drive-measure ready [] s at todo v e = absurd (ground arith)
drive-measure ready (c ∷ calls) s at todo v e = omega (
  arith,
  exec-measure c (record s { calls = calls }) at
      (subst (Plan s.destroyed s.running s.barrier.no_threads (flags s.workers)) todo v.planned) e,
)
drive-measure cond_wait calls s at todo v e = absurd (ground arith)
drive-measure cond_woken calls s at todo v e =
    subst (Falls s calls cond_woken) (locking-some s _ e)
      (rw (← todo) (omega (arith, check_all-measure s)))
drive-measure (posting prev (suc left) and_wait) calls s at todo v e =
    subst (Falls s calls (posting prev (suc left) and_wait)) (of_some e)
      (rw (semaphore_signal-active s.barrier prev, ← todo) (omega arith))
drive-measure (posting prev zero true) calls s at todo v e =
    subst (Falls s calls (posting prev zero true)) (of_some e)
      (rw (← todo) (omega (arith, check_all-measure s)))
drive-measure (posting prev zero false) calls s at todo v e = ground (arith, todo)
drive-measure aborted calls s at todo v e = absurd (ground arith)

Own-measure :
    (a : Action) (s : System) {t : System}
    → Own a
    → Inv s
    → step a s ≡ some t
    → measure t < measure s
unfolding step control_step
Own-measure (worker i) s o v e = thread_step-measure i s v e
Own-measure controller s o v e = drive-measure s.control s.calls s refl refl v e
Own-measure spurious s o v e = elim o [ ]
Own-measure (call m) s o v e = elim o [ ]

-- A run with no new call of the client: of `n` steps of the workers and the controller, and of `k`
-- spurious wakeups.
pub data Runs (s : System) : ℕ → ℕ → System → Type 0 where
  begins : Runs s zero zero s
  own :
      {n k : ℕ} {t u : System} (a : Action)
      → Runs s n k t
      → Own a
      → step a t ≡ some u
      → Runs s (suc n) k u
  spurs : {n k : ℕ} {t u : System} → Runs s n k t → step spurious t ≡ some u → Runs s n (suc k) u

pub Runs-Reach : {s t : System} {n k : ℕ} → Reach s → Runs s n k t → Reach t
Runs-Reach r begins = r
Runs-Reach r (own a run o e) = later (Runs-Reach r run) (act a e)
Runs-Reach r (spurs run e) = later (Runs-Reach r run) (act spurious e)

spurious-measure : (s : System) {t : System} → step spurious s ≡ some t → measure t ≡ measure s + 1
spurious-measure s e =
    let (waits, end) = spurious-some s e in
    subst (λ t. measure t ≡ measure s + 1) end (omega (arith, ap control_ahead waits))

-- Whatever the schedule is, it ends: from a reachable state the workers and the controller make at
-- most `measure s` steps, and one more for each spurious wakeup, until the client calls a method.
pub runs_bounded : {s t : System} {n k : ℕ} → Reach s → Runs s n k t → n + measure t ≤ measure s + k
runs_bounded r begins = omega arith
runs_bounded r (own {t = u} a run o e) =
    omega (arith, runs_bounded r run, Own-measure a u o (Reach-Inv (Runs-Reach r run)) e)
runs_bounded r (spurs {t = u} run e) = omega (arith, runs_bounded r run, spurious-measure u e)

-- The method has returned, or an assertion has failed.
abbrev pub HasReturned : System → Type 0
HasReturned s = (s.control ≡ aborted) ⊎ ((s.control ≡ ready) × (s.calls ≡ []))

abbrev pub Busy : System → Type 0
Busy s = (s.control ≢ aborted) × ((s.control ≢ ready) ⊎ (s.calls ≢ []))

pub returned_cases :
    (c : Control) (calls : List Call) (s : System)
    → s.control ≡ c
    → s.calls ≡ calls
    → HasReturned s ⊎ Busy s
returned_cases ready [] s at todo = inl (inr (at, todo))
returned_cases ready (c ∷ calls) s at todo = inr ((λ e. ground arith), inr (λ e. ground arith))
returned_cases cond_wait calls s at todo = inr ((λ e. ground arith), inl (λ e. ground arith))
returned_cases cond_woken calls s at todo = inr ((λ e. ground arith), inl (λ e. ground arith))
returned_cases (posting _ _ _) calls s at todo = inr ((λ e. ground arith), inl (λ e. ground arith))
returned_cases aborted calls s at todo = inl (inl at)

keep_running :
    (fuel : ℕ) (s t : System) (n : ℕ)
    → Reach s
    → Runs s n zero t
    → measure t < fuel
    → (m : ℕ) × (u : System) × Runs s m zero u × HasReturned u
keep_running zero s t n r run h = absurd (omega arith)
keep_running (suc fuel) s t n r run h = elim (returned_cases t.control t.calls t refl refl) [
  | inl done ↦ (n, t, run, done)
  | inr busy ↦
      let reached = Runs-Reach r run in
      let (a, u, o, e) = no_deadlock reached busy.0 busy.1 in
      keep_running fuel s u (suc n) r (own a run o e)
        (omega (arith, Own-measure a t o (Reach-Inv reached) e))
]

-- Every method returns: from each reachable state the workers and the controller can go on, with no
-- help of the client and no spurious wakeup, until the method has returned or an assertion has failed,
-- in at most as many steps as the measure of that state says.
pub method_returns :
    {s : System}
    → Reach s
    → (n : ℕ) × (t : System) × Runs s n zero t × HasReturned t × (n ≤ measure s)
method_returns {s} r =
    let (n, t, run, done) = keep_running (measure s + 1) s s zero r begins (omega arith) in
    (n, t, run, done, omega (arith, runs_bounded r run))

-- A call of a method that has returned, with all that the threads did meanwhile.
pub data Returned (m : Method) (s : System) : System → Type 0 where
  returned :
      {u t : System} {n k : ℕ}
      → invoke m s ≡ some u
      → Runs u n k t
      → t.control ≡ ready
      → t.calls ≡ []
      → Returned m s t

pub Returned-Reach : (m : Method) {s t : System} → Reach s → Returned m s t → Reach t
unfolding step
Returned-Reach m r (returned e run at todo) = Runs-Reach (later r (act (call m) e)) run
