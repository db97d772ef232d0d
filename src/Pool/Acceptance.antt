-- ===== src/Pool/Acceptance.antt =====
-- About `add_worker` of src/worker_pool_implementation.h: when it answers that all went well.
use twine.Prelude.{Bool, ℕ, ◌≡◌, ◌↔◌, subst, List, Option, some, ℤ, arith, get_elem?}
use twine.Status.{WorkerPoolStatus, Errno, errno_to_worker_status, AppleThreadingStatus}
use twine.Cores.{CpuInfo, add_usage}
use twine.Pool.{
  Platform, Pool, WorkerInfo, Reply, run, choose_core, start_worker, finish_start, keep_worker,
  drop_worker, joins_no_thread, add_worker,
}

pub errno_to_worker_status-ok :
    (e : Errno) (error : ℕ) → (errno_to_worker_status e error ≡ WorkerPoolStatus.ok) ↔ (error ≡ 0)
unfolding errno_to_worker_status
errno_to_worker_status-ok e error = ((λ q. ground (arith, q)), (λ q. ground (arith, q)))

finish_start-ok :
    (p : Pool) (cores : List CpuInfo) (core : ℕ) (w : WorkerInfo) (init : AppleThreadingStatus)
    (res : WorkerPoolStatus) (stray_join : Bool)
    → ((finish_start p cores core w init res stray_join).status ≡ WorkerPoolStatus.ok)
      ↔ ((res ≡ WorkerPoolStatus.ok) × (init ≡ AppleThreadingStatus.ok))
unfolding finish_start keep_worker drop_worker
finish_start-ok p cores core w init res stray_join =
    ((λ q. (ground (arith, q), ground (arith, q))), (λ q. ground (arith, q)))

start_worker-ok :
    (env : Platform) (p : Pool) (priority : ℤ) (core : ℕ) (info : CpuInfo)
    → ((start_worker env p priority core info).status ≡ WorkerPoolStatus.ok)
      ↔ ((run env priority info.id ≡ 0) × (env.init_status info.id ≡ AppleThreadingStatus.ok))
unfolding start_worker
start_worker-ok env p priority core info =
    let res = errno_to_worker_status-ok env.errno (run env priority info.id) in
    let finish =
      finish_start-ok p (add_usage p.cores core) core
        (record { priority = priority; cpu_id = info.id }) (env.init_status info.id)
        (errno_to_worker_status env.errno (run env priority info.id))
        (joins_no_thread env priority info.id) in
    ((λ q. let (a, b) = finish.0 q in (res.0 a, b)), (λ (a, b). finish.1 (res.1 a, b)))

-- `add_worker` answers OK exactly if the thread for the chosen core was created without an error, and
-- its initialisation went well.
pub add_worker-ok_iff :
    (env : Platform) (p : Pool) (priority : ℤ) (cpu_id : Option ℤ) {r : Reply} {core : ℕ}
    {info : CpuInfo}
    → choose_core p.cores cpu_id ≡ some (some core)
    → get_elem? p.cores core ≡ some info
    → add_worker env p priority cpu_id ≡ some r
    → (r.status ≡ WorkerPoolStatus.ok)
      ↔ ((run env priority info.id ≡ 0) × (env.init_status info.id ≡ AppleThreadingStatus.ok))
unfolding add_worker
add_worker-ok_iff env p priority cpu_id {r} {core} {info} chosen at e =
    let same : start_worker env p priority core info ≡ r = ground (arith, chosen, at, e) in
    subst
      (λ r.
        (r.status ≡ WorkerPoolStatus.ok)
        ↔ ((run env priority info.id ≡ 0) × (env.init_status info.id ≡ AppleThreadingStatus.ok)))
      same (start_worker-ok env p priority core info)
