-- ===== src/Threads/Failure.antt =====
-- About `add_worker` of WorkerPoolImpl (src/worker_pool_implementation.h) when the initialisation of the
-- new worker fails: what it does to the other workers.
use twine.Prelude.{◌+◌, ◌≡◌, ◌∙◌, ap, All, All-map, map}
use twine.Calls.{add_worker, init_failed, wait_for_workers_idle}
use twine.Threads.{System, Reach}
use twine.Threads.Safety.{IsIdle}
use twine.Threads.Fate.{since_of}
use twine.Threads.Effects.{Returned-effect}
use twine.Threads.Waiting.{waiting_methods-IsIdle}
use twine.Threads.Returns.{Returned, returned, Returned-Reach}
use twine.Threads.Rounds.{calls_after}

-- A worker that cannot be initialised makes the others run: when `add_worker` has failed so on a pool
-- whose workers are idle, and the workers are idle again, they are the same workers, and each of them has
-- entered its callback once more, though the client has woken none of them.
pub init_failed-calls :
    (s : System) {t u : System}
    → Reach s
    → All (IsIdle s) s.workers
    → Returned (add_worker init_failed) s t
    → Returned wait_for_workers_idle t u
    → (since_of u.workers ≡ since_of s.workers)
      × (map (λ w. w.calls) u.workers ≡ map (λ w. w.calls + 1) s.workers)
init_failed-calls s {t} {u} r h failed (returned e run at todo) =
    let same =
      Returned-effect wait_for_workers_idle t (returned e run at todo)
      ∙ Returned-effect (add_worker init_failed) s failed in
    let idle =
      waiting_methods-IsIdle wait_for_workers_idle t
        (Returned-Reach (add_worker init_failed) r failed) tt e run at todo in
    (
      ap (λ f. f.born) same,
      calls_after s.rounds 1 s.workers u.workers (ap (λ f. f.born) same)
          (All-map (IsIdle s) (λ w. w.since + w.calls ≡ s.rounds) s.workers (λ w h. h.1) h)
          (All-map (IsIdle u) (λ w. w.since + w.calls ≡ s.rounds + 1) u.workers
            (λ w h. h.1 ∙ ap (λ f. f.rounds) same) idle),
    )
