-- ===== src/Threads/Effects.antt =====
-- About the methods of WorkerPoolImpl (src/worker_pool_implementation.h): what each of them makes of
-- the list of workers and of the number of releases, when it has returned.
use twine.Prelude.{
  ℕ, ◌+◌, ◌≡◌, ◌≢◌, refl, sym, ◌∙◌, subst, Bool, some, [], ◌∷◌, arith, length, ap, if◌then◌else◌,
}
use twine.Calls.{
  Method, add_worker, not_created, init_failed, added, wait_for_workers_idle, wakeup_workers,
  wakeup_and_wait, destroy, method_calls,
}
use twine.Threads.{
  System, Control, ready, aborted, step, Action, worker, controller, spurious, call, control_step,
  drive, absorb, wake, invoke,
}
use twine.Threads.Invariant.{thread_step-some, invoke-some}
use twine.Threads.Progress.{Own}
use twine.Threads.Returns.{Runs, begins, own, spurs, Returned, returned}
use twine.Threads.Fate.{Fate, fate, now, Keeps, IsInner, step-Keeps}

pub Own-IsInner : (a : Action) → Own a → IsInner a
Own-IsInner (worker i) o = tt
Own-IsInner controller o = tt
Own-IsInner spurious o = elim o [ ]
Own-IsInner (call m) o = elim o [ ]

absorb-aborted :
    (c : Control) (signalled : Bool) → c ≡ aborted → (if signalled then wake c else c) ≡ aborted
unfolding wake
absorb-aborted c signalled e = ground (arith, e)

-- A failed assertion is final.
pub step-aborted :
    (a : Action) (s : System) {t : System}
    → s.control ≡ aborted
    → step a s ≡ some t
    → t.control ≡ aborted
unfolding step control_step drive absorb
step-aborted (worker i) s at e =
    let (w, m, here, moved, end) = thread_step-some i s e in
    subst (λ t. t.control ≡ aborted) end (absorb-aborted s.control m.signalled at)
step-aborted controller s at e = absurd (ground (arith, at, e))
step-aborted spurious s at e = absurd (ground (arith, at, e))
step-aborted (call m) s at e = absurd (ground (arith, at, (invoke-some m s e).0))

Runs-Keeps :
    {s t : System} {n k : ℕ} → Runs s n k t → t.control ≢ aborted → Keeps (fate s.calls (now s)) t
Runs-Keeps begins live = refl
Runs-Keeps (own {t = u} a run o e) live =
    step-Keeps a u (Own-IsInner a o) live e ∙ Runs-Keeps run (λ at. live (step-aborted a u at e))
Runs-Keeps (spurs {t = u} run e) live =
    step-Keeps spurious u tt live e ∙ Runs-Keeps run (λ at. live (step-aborted spurious u at e))

-- What a method does, for a client: a worker joins the pool, or all leave it, or they are released.
abbrev pub method_effect : Method → Fate → Fate
method_effect (add_worker added) f = record f { born = f.rounds ∷ f.born }
method_effect (add_worker not_created) f = f
method_effect (add_worker init_failed) f = record f { rounds = f.rounds + 1 }
method_effect wait_for_workers_idle f = f
method_effect wakeup_workers f = record f { rounds = f.rounds + 1 }
method_effect wakeup_and_wait f = record f { rounds = f.rounds + 1 }
method_effect destroy f = record { rounds = f.rounds + 1; born = [] }

fate-method_calls : (m : Method) (n : ℕ) (f : Fate) → fate (method_calls n m) f ≡ method_effect m f
unfolding method_calls
fate-method_calls (add_worker added) n f = refl
fate-method_calls (add_worker not_created) n f = refl
fate-method_calls (add_worker init_failed) n f = refl
fate-method_calls wait_for_workers_idle n f = refl
fate-method_calls wakeup_workers n f = refl
fate-method_calls wakeup_and_wait n f = refl
fate-method_calls destroy n f = refl

-- When a method has returned, whatever the schedule was, it has had its effect and no other: `add_worker`
-- has put one new worker at the end of the pool, or none where the thread is not created or its
-- initialisation fails, the destructor has removed all of them, and no other method changes which workers
-- there are; each wakeup, a failed initialisation and the destructor are one release each.
pub method_effects :
    (m : Method) (s : System) {u t : System} {n k : ℕ}
    → invoke m s ≡ some u
    → Runs u n k t
    → t.control ≡ ready
    → t.calls ≡ []
    → now t ≡ method_effect m (now s)
method_effects m s {u} {t} e run at todo =
    subst (λ u. Keeps (fate u.calls (now u)) t → now t ≡ method_effect m (now s))
      (invoke-some m s e).3
      (λ keeps.
        sym (ap (λ calls. fate calls (now t)) todo)
        ∙ keeps
        ∙ fate-method_calls m (length s.workers) (now s))
      (Runs-Keeps run (λ gone. ground (arith, at, gone)))

pub Returned-effect :
    (m : Method) (s : System) {t : System} → Returned m s t → now t ≡ method_effect m (now s)
Returned-effect m s (returned e run at todo) = method_effects m s e run at todo
