-- ===== src/Threads/Invariant/Methods.antt =====
-- About the methods of WorkerPoolImpl (src/worker_pool_implementation.h): the invariant when one
-- is called.
use twine.Prelude.{
  ℕ, ◌≡◌, subst, Bool, false, some, List, [], ◌∷◌, length, arith, inl, inr, length-map, ◌∙◌,
}
use twine.Calls.{
  Call, Method, add_worker, not_created, init_failed, added, destroy, method_calls,
  wait_for_workers_idle, wakeup_workers, wakeup_and_wait,
}
use twine.Threads.{
  System, Control, ready, cond_wait, cond_woken, posting, aborted, is_destroy, begin, invoke,
}
use twine.Threads.Invariant.Defs.{Balanced, Plan, Serving, Waits, flags, Inv}

pub at_control :
    {s : System} {c : Control} → s.control ≡ c → Inv s → Balanced s.barrier s.workers c s.rounds
at_control {s} e v = subst (λ c. Balanced s.barrier s.workers c s.rounds) e v.balanced

pub at_wait :
    {s : System} {c : Control}
    → s.control ≡ c
    → Inv s
    → Waits s.running s.barrier (flags s.workers) c
at_wait {s} e v = subst (Waits s.running s.barrier (flags s.workers)) e v.waits

-- The calls of a method are in good order if the pool serves when it begins.
pub method_calls-Plan :
    (running : Bool) (n : ℕ) (fs : List Bool) (m : Method)
    → Serving running n fs
    → Plan (is_destroy m) running n fs (method_calls n m)
unfolding method_calls
method_calls-Plan running n fs (add_worker not_created) v = inr v
method_calls-Plan running n fs (add_worker init_failed) v =
    ground (arith, v.all_expected, v.pool_running)
method_calls-Plan running n fs (add_worker added) v = ground (arith, v.all_expected, v.pool_running)
method_calls-Plan running n fs wait_for_workers_idle v = (v, inr v)
method_calls-Plan running n fs wakeup_workers v = (v.all_expected, inr v)
method_calls-Plan running n fs wakeup_and_wait v = (v, inr v)
method_calls-Plan running n fs destroy v = ground (arith, v.all_expected)

pub begin-some :
    (m : Method) (s : System) {t : System}
    → begin m ready [] s ≡ some t
    → (s.destroyed ≡ false)
      × (record s { calls = method_calls (length s.workers) m; destroyed = is_destroy m } ≡ t)
unfolding begin
begin-some m s e = ground arith

-- A method begins only when the one before it has returned.
pub invoke-some :
    (m : Method) (s : System) {t : System}
    → invoke m s ≡ some t
    → (s.control ≡ ready)
      × (s.calls ≡ [])
      × (s.destroyed ≡ false)
      × (record s { calls = method_calls (length s.workers) m; destroyed = is_destroy m } ≡ t)
unfolding invoke begin
invoke-some m s e = ground arith

-- Between two methods the barrier expects as many threads as there are workers, and none has been
-- told to stop.
pub Inv-Serving :
    (s : System)
    → Inv s
    → s.calls ≡ []
    → s.destroyed ≡ false
    → Serving s.running s.barrier.no_threads (flags s.workers)
Inv-Serving s v todo alive =
    elim (subst (Plan s.destroyed s.running s.barrier.no_threads (flags s.workers)) todo
      v.planned) [ inl gone ↦ absurd (ground (arith, gone)) | inr e ↦ e ]

pub begin-Inv :
    (m : Method) (c : Control) (calls : List Call) (s : System) {t : System}
    → s.control ≡ c
    → s.calls ≡ calls
    → Inv s
    → begin m c calls s ≡ some t
    → Inv t
begin-Inv m ready [] s at todo v e =
    let (alive, end) = begin-some m s e in
    let serving = Inv-Serving s v todo alive in
    subst Inv end (record {
      balanced = v.balanced;
      planned =
          subst
            (λ n.
              Plan (is_destroy m) s.running s.barrier.no_threads (flags s.workers)
                (method_calls n m))
            (serving.all_expected ∙ length-map s.workers _)
            (method_calls-Plan s.running s.barrier.no_threads (flags s.workers) m serving);
      waits = v.waits;
    })
begin-Inv m ready (c ∷ calls) s at todo v e = absurd (unfold begin in ground arith)
begin-Inv m cond_wait _ s at todo v e = absurd (unfold begin in ground arith)
begin-Inv m cond_woken _ s at todo v e = absurd (unfold begin in ground arith)
begin-Inv m (posting _ _ _) _ s at todo v e = absurd (unfold begin in ground arith)
begin-Inv m aborted _ s at todo v e = absurd (unfold begin in ground arith)
