-- ===== src/Threads/Rounds.antt =====
-- About wakeup_and_wait of WorkerPoolImpl (src/worker_pool_implementation.h), as an audio callback uses
-- it: one call after the other.
use twine.Prelude.{
  ℕ, zero, suc, ◌+◌, ◌*◌, ◌≤◌, ◌≡◌, refl, subst, some, length, total, ◌∙◌, ap, List, [], ◌∷◌, arith,
  All, All-map, map,
}
use twine.Worker.{Worker, blocked}
use twine.Calls.{wakeup_and_wait, method_calls}
use twine.Threads.{System, Reach, later, act, call, step, invoke}
use twine.Threads.Invariant.{invoke-some}
use twine.Threads.Termination.{measure, ahead, control_ahead}
use twine.Threads.Safety.{IsIdle}
use twine.Threads.Fate.{since_of}
use twine.Threads.Effects.{Returned-effect}
use twine.Threads.Waiting.{waiting_methods-IsIdle}
use twine.Threads.Returns.{Runs, runs_bounded, Returned, returned, Returned-Reach}

-- Calls of `wakeup_and_wait` that have returned, with all that the threads did meanwhile.
pub data Rounds (s : System) : ℕ → System → Type 0 where
  no_round : Rounds s zero s
  then_round :
      {k : ℕ} {t u : System} → Rounds s k t → Returned wakeup_and_wait t u → Rounds s (suc k) u

Rounds-Reach : {s t : System} {k : ℕ} → Reach s → Rounds s k t → Reach t
Rounds-Reach r no_round = r
Rounds-Reach r (then_round rounds one) = Returned-Reach wakeup_and_wait (Rounds-Reach r rounds) one

Returned-now :
    (s : System) {t : System}
    → Returned wakeup_and_wait s t
    → (t.rounds ≡ s.rounds + 1) × (since_of t.workers ≡ since_of s.workers)
Returned-now s done =
    let same = Returned-effect wakeup_and_wait s done in
    (ap (λ f. f.rounds) same, ap (λ f. f.born) same)

Rounds-now :
    (s : System) {t : System} {k : ℕ}
    → Rounds s k t
    → (t.rounds ≡ s.rounds + k) × (since_of t.workers ≡ since_of s.workers)
Rounds-now s no_round = (omega arith, refl)
Rounds-now s (then_round {t = t} rounds one) =
    let (more, same) = Rounds-now s rounds in
    let (last, still) = Returned-now t one in (omega (arith, more, last), still ∙ same)

Rounds-IsIdle :
    (s : System) {t : System} {k : ℕ}
    → Reach s
    → All (IsIdle s) s.workers
    → Rounds s k t
    → All (IsIdle t) t.workers
Rounds-IsIdle s r h no_round = h
Rounds-IsIdle s r h (then_round {t = t} rounds (returned e run at todo)) =
    waiting_methods-IsIdle wakeup_and_wait t (Rounds-Reach r rounds) tt e run at todo

calls_of : List Worker → List ℕ
calls_of = map λ w. w.calls

pub calls_after :
    (rounds k : ℕ) (ws ws' : List Worker)
    → since_of ws' ≡ since_of ws
    → All (λ w. w.since + w.calls ≡ rounds) ws
    → All (λ w. w.since + w.calls ≡ rounds + k) ws'
    → map (λ w. w.calls) ws' ≡ map (λ w. w.calls + k) ws
calls_after rounds k [] [] e h h' = refl
calls_after rounds k [] (w' ∷ ws') e h h' = absurd (ground (arith, e))
calls_after rounds k (w ∷ ws) [] e h h' = absurd (ground (arith, e))
calls_after rounds k (w ∷ ws) (w' ∷ ws') e h h' =
    ground (arith, e, h.0, h'.0, calls_after rounds k ws ws' (ground (arith, e)) h.1 h'.1)

-- `k` calls of `wakeup_and_wait`, one after the other, on a pool whose workers are idle: whatever the
-- schedules are, with spurious wakeups or without, each worker has then entered its callback exactly `k`
-- times more, and all of them are idle again.
pub Rounds-calls :
    (s : System) {t : System} {k : ℕ}
    → Reach s
    → All (IsIdle s) s.workers
    → Rounds s k t
    → All (IsIdle t) t.workers × (map (λ w. w.calls) t.workers ≡ map (λ w. w.calls + k) s.workers)
Rounds-calls s {t} {k} r h rounds =
    let (more, same) = Rounds-now s rounds in
    let h' = Rounds-IsIdle s r h rounds in
    (
      h',
      calls_after s.rounds k s.workers t.workers same
          (All-map (IsIdle s) (λ w. w.since + w.calls ≡ s.rounds) s.workers (λ w h. h.1) h)
          (All-map (IsIdle t) (λ w. w.since + w.calls ≡ s.rounds + k) t.workers (λ w h. h.1 ∙ more)
            h'),
    )

blocked-ahead :
    (active : ℕ) (ws : List Worker)
    → All (λ w. w.pc ≡ blocked active) ws
    → total (ahead active) ws ≡ 0
blocked-ahead active [] h = refl
blocked-ahead active (w ∷ ws) h = ground (arith, h.0, blocked-ahead active ws h.1)

invoke-measure :
    (s : System) {u : System}
    → All (IsIdle s) s.workers
    → invoke wakeup_and_wait s ≡ some u
    → measure u ≡ 6 * length s.workers + 2
unfolding method_calls
invoke-measure s h e =
    let (at, todo, alive, end) = invoke-some wakeup_and_wait s e in
    let all =
      All-map (IsIdle s) (λ w. w.pc ≡ blocked s.barrier.active_sem_idx) s.workers (λ w h. h.0) h in
    subst (λ u. measure u ≡ 6 * length s.workers + 2) end
      (omega (arith, blocked-ahead s.barrier.active_sem_idx s.workers all, ap control_ahead at))

-- A bound on a round: called while the workers are idle, `wakeup_and_wait` takes at most six steps for
-- each worker and two more, of all threads together and whatever the schedule is, and one more for each
-- spurious wakeup.
pub wakeup_and_wait-bound :
    (s : System) {u t : System} {n k : ℕ}
    → Reach s
    → All (IsIdle s) s.workers
    → invoke wakeup_and_wait s ≡ some u
    → Runs u n k t
    → n ≤ 6 * length s.workers + 2 + k
unfolding step
wakeup_and_wait-bound s r h e run =
    omega (arith, runs_bounded (later r (act (call wakeup_and_wait) e)) run, invoke-measure s h e)
