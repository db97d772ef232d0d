-- ===== src/Threads/Session.antt =====
-- The pool and its threads together (src/worker_pool_implementation.h): what a client does with a pool,
-- one method after the other, from the constructor on.
use twine.Prelude.{
  ℕ, ◌+◌, ◌≤◌, ◌≡◌, ◌≢◌, inl, inr, refl, sym, ◌∙◌, ap, subst, Option, some, List, [], length,
  length-map, arith, ℤ,
}
use twine.CondVar.{Build}
use twine.Realtime.{ThreadType}
use twine.Cores.Usage.{usage}
use twine.Calls.{
  Outcome, not_created, init_failed, added, add_worker_calls, Method, method_calls, add_worker,
  wait_for_workers_idle, wakeup_workers, wakeup_and_wait,
}
use twine.Pool
use twine.Pool.{Platform, Pool, Reply, make_pool, core_info}
use twine.Pool.Replies.{Leaves, add_worker_replies}
use twine.Threads.{System, start, invoke, Reach, begun}
use twine.Threads.Invariant.{invoke-some}
use twine.Threads.Returns.{Returned, Returned-Reach}
use twine.Threads.Fate.{Fate, now}
use twine.Threads.Effects.{method_effect, Returned-effect}

-- The methods besides `add_worker` and the destructor.
abbrev pub IsPlain : Method → Type 0
IsPlain wait_for_workers_idle = Unit {0}
IsPlain wakeup_workers = Unit {0}
IsPlain wakeup_and_wait = Unit {0}
IsPlain _ = ⊥

-- What the platform answers can differ from call to call.
pub data Session : Pool → System → Type 0 where
  opened :
      (build : Build) (type : ThreadType) (line : Option (List ℕ)) (cores : ℤ)
      → Session (make_pool build type line cores) start
  refused :
      {p : Pool} {s : System} {r : Reply} (env : Platform) (priority : ℤ) (cpu_id : Option ℤ)
      → Session p s
      → Pool.add_worker env p priority cpu_id ≡ some r
      → r.calls ≡ []
      → Session r.pool s
  asked :
      {p : Pool} {s t : System} {r : Reply} (env : Platform) (priority : ℤ) (cpu_id : Option ℤ)
      (o : Outcome)
      → Session p s
      → Pool.add_worker env p priority cpu_id ≡ some r
      → r.calls ≡ add_worker_calls p.no_workers o
      → Returned (add_worker o) s t
      → Session r.pool t
  called :
      {p : Pool} {s t : System} (m : Method)
      → Session p s
      → IsPlain m
      → Returned m s t
      → Session p t

pub Session-Reach : {p : Pool} {s : System} → Session p s → Reach s
Session-Reach (opened build type line cores) = begun
Session-Reach (refused env priority cpu_id session e none) = Session-Reach session
Session-Reach (asked env priority cpu_id o session e calls done) =
    Returned-Reach (add_worker o) (Session-Reach session) done
Session-Reach (called m session plain done) = Returned-Reach m (Session-Reach session) done

add_worker_calls-injective :
    (n : ℕ) (o o' : Outcome) → add_worker_calls n o ≡ add_worker_calls n o' → o ≡ o'
unfolding add_worker_calls
add_worker_calls-injective n o o' e = ground (arith, e)

add_worker_calls-some : (n : ℕ) (o : Outcome) → add_worker_calls n o ≢ []
unfolding add_worker_calls
add_worker_calls-some n o e = ground (arith, e)

-- How many workers there are after a call of `add_worker`.
abbrev grown : Outcome → ℕ → ℕ
grown added n = n + 1
grown _ n = n

born-length :
    (o : Outcome) (f : Fate)
    → length (method_effect (add_worker o) f).born ≡ grown o (length f.born)
born-length not_created f = refl
born-length init_failed f = refl
born-length added f = omega arith

Returned-length :
    (o : Outcome) (s : System) {t : System}
    → Returned (add_worker o) s t
    → length t.workers ≡ grown o (length s.workers)
Returned-length o s {t} done =
    sym (length-map t.workers (λ w. w.since))
    ∙ (ap (λ f. length f.born) (Returned-effect (add_worker o) s done)
        ∙ (born-length o (now s) ∙ ap (grown o) (length-map s.workers (λ w. w.since))))

plain-length :
    (m : Method) (s : System) {t : System}
    → IsPlain m
    → Returned m s t
    → length t.workers ≡ length s.workers
plain-length m s {t} plain done =
    sym (length-map t.workers (λ w. w.since))
    ∙ (ap (λ f. length f.born) (Returned-effect m s done)
        ∙ (plain-born m (now s) plain ∙ length-map s.workers (λ w. w.since)))
  where
    plain-born :
        (m : Method) (f : Fate) → IsPlain m → length (method_effect m f).born ≡ length f.born
    plain-born wait_for_workers_idle f h = refl
    plain-born wakeup_workers f h = refl
    plain-born wakeup_and_wait f h = refl
    plain-born _ f h = elim h [ ]

-- What the pool has noted of its workers agrees with the threads that there are.
pub record Agrees (p : Pool) (s : System) : Type 0 where
  pub counted : p.no_workers ≡ length s.workers
  pub listed : length p.workers ≡ length s.workers
  pub in_use : length s.workers ≤ usage (core_info p)

asked-Agrees :
    (o : Outcome) (p : Pool) (r : Reply) (s t : System)
    → Agrees p s
    → Leaves o p r
    → length t.workers ≡ grown o (length s.workers)
    → Agrees r.pool t
asked-Agrees not_created p r s t a (bad, same, list, taken) e = record {
  counted = same ∙ (a.counted ∙ sym e);
  listed = ap length list ∙ (a.listed ∙ sym e);
  in_use = omega (arith, e, taken, a.in_use);
}
asked-Agrees init_failed p r s t a (bad, why, same) e = record {
  counted = ap (λ p. p.no_workers) same ∙ (a.counted ∙ sym e);
  listed = ap (λ p. length p.workers) same ∙ (a.listed ∙ sym e);
  in_use = omega (arith, e, ap (λ p. usage p.cores) same, a.in_use);
}
asked-Agrees added p r s t a (fine, more, list, taken) e = record {
  counted = omega (arith, e, more, a.counted);
  listed = omega (arith, e, list, a.listed);
  in_use = omega (arith, e, taken, a.in_use);
}

-- In every session, with any schedules, answers of the platform and failures, the pool has noted as many
-- workers as there are threads, and the usage of the cores that `core_info` gives covers them all.
pub Session-Agrees : {p : Pool} {s : System} → Session p s → Agrees p s
unfolding start make_pool
Session-Agrees (opened build type line cores) = record {
  counted = refl;
  listed = refl;
  in_use = omega arith;
}
Session-Agrees (refused {p} {s} {r} env priority cpu_id session e none_made) =
    elim (add_worker_replies env p priority cpu_id e) [
      | inl (missing, status, same, calls) ↦
          subst (λ p. Agrees p s) (sym same) (Session-Agrees session)
      | inr (o, calls, h) ↦ absurd (add_worker_calls-some p.no_workers o (sym calls ∙ none_made))
    ]
Session-Agrees (asked {p} {s} {t} {r} env priority cpu_id o session e calls done) =
    elim (add_worker_replies env p priority cpu_id e) [
      | inl (missing, status, same, none_made) ↦
          absurd (add_worker_calls-some p.no_workers o (sym calls ∙ none_made))
      | inr (o', calls', h) ↦
          asked-Agrees o p r s t (Session-Agrees session)
            (subst (λ o. Leaves o p r)
              (add_worker_calls-injective p.no_workers o' o (sym calls' ∙ calls)) h)
            (Returned-length o s done)
    ]
Session-Agrees (called {p} {s} {t} m session plain done) =
    let a = Session-Agrees session in
    let e = plain-length m s plain done in
    record {
      counted = a.counted ∙ sym e;
      listed = a.listed ∙ sym e;
      in_use = omega (arith, e, a.in_use);
    }

-- In every session, the calls that the reply of `add_worker` stands for are those that the threads then
-- see: the pool's count of its workers is the number that the barrier is told.
pub add_worker-invoke :
    {p : Pool} {s u : System} {r : Reply} (env : Platform) (priority : ℤ) (cpu_id : Option ℤ)
    (o : Outcome)
    → Session p s
    → Pool.add_worker env p priority cpu_id ≡ some r
    → r.calls ≡ add_worker_calls p.no_workers o
    → invoke (add_worker o) s ≡ some u
    → u.calls ≡ r.calls
unfolding method_calls
add_worker-invoke {p} {s} env priority cpu_id o session e calls i =
    sym (ap (λ u. u.calls) (invoke-some (add_worker o) s i).3)
    ∙ (ap (λ n. add_worker_calls n o) (sym (Session-Agrees session).counted) ∙ sym calls)
