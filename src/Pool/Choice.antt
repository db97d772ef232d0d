-- ===== src/Pool/Choice.antt =====
-- About `add_worker` of src/worker_pool_implementation.h: which core a new worker gets, and which
-- requests are refused.
use twine.Prelude.{
  Bool, ℕ, ◌≡◌, ◌⊎◌, inl, inr, refl, sym, subst, true, ◌||◌, Option, none, some, get_elem?, arith,
  ℤ, pos, ltb_ℤ, of_some,
}
use twine.Status.{
  WorkerPoolStatus, invalid_arguments, IsErrno, errno_to_worker_status, errno_to_worker_status_iff,
  AppleThreadingStatus,
}
use twine.Cores.{CpuInfo, add_usage}
use twine.Cores.Usage.{Level, least_used-Level, usage-drop_usage}
use twine.Pool.{
  Platform, Pool, WorkerInfo, Reply, run, choose_core, start_worker, finish_start, keep_worker,
  drop_worker, joins_no_thread, add_worker,
}
use twine.Pool.Replies.{add_worker-some}

keep_worker-cores :
    (p : Pool) (core : ℕ) (info : CpuInfo) (w : WorkerInfo) (status : AppleThreadingStatus)
    → get_elem? p.cores core ≡ some info
    → ((keep_worker p (add_usage p.cores core) core w status).pool.cores ≡ add_usage p.cores core)
      ⊎ ((keep_worker p (add_usage p.cores core) core w status).pool.cores ≡ p.cores)
unfolding keep_worker
keep_worker-cores p core info w AppleThreadingStatus.ok at = inl refl
keep_worker-cores p core info w _ at = inr (usage-drop_usage p.cores core info at)

pub finish_start-cores :
    (p : Pool) (core : ℕ) (info : CpuInfo) (w : WorkerInfo) (init : AppleThreadingStatus)
    (status : WorkerPoolStatus) (stray_join : Bool)
    → get_elem? p.cores core ≡ some info
    → ((finish_start p (add_usage p.cores core) core w init status stray_join).pool.cores
        ≡ add_usage p.cores core)
      ⊎ ((finish_start p (add_usage p.cores core) core w init status stray_join).pool.cores
          ≡ p.cores)
unfolding finish_start drop_worker
finish_start-cores p core info w init WorkerPoolStatus.ok stray_join at =
    keep_worker-cores p core info w init at
finish_start-cores p core info w init _ stray_join at = inl refl

-- Workers that are added without a core keep the usage of the cores level, also when one of them could
-- not be started: if each core has `m` or `m + 1` workers before, each has `m'` or `m' + 1` after.
pub add_worker-Level :
    (env : Platform) (p : Pool) (priority : ℤ) (m : ℕ) {r : Reply}
    → Level m p.cores
    → add_worker env p priority none ≡ some r
    → (m' : ℕ) × Level m' r.pool.cores
unfolding start_worker choose_core
add_worker-Level env p priority m {r} h e = elim (add_worker-some env p priority none e) [
  | inl (f, end) ↦ absurd (ground (arith, f))
  | inr (core, info, f, at, end) ↦
      let (m', level) = least_used-Level m p.cores h (of_some f) in
      subst (λ r. (m' : ℕ) × Level m' r.pool.cores) end
        (elim (finish_start-cores p core info (record { priority = priority; cpu_id = info.id })
          (env.init_status info.id) (errno_to_worker_status env.errno (run env priority info.id))
          (joins_no_thread env priority info.id) at) [
            | inl same ↦ (m', subst (Level m') (sym same) level)
            | inr same ↦ (m, subst (Level m) (sym same) h)
          ])
]

-- A priority outside 0 to 100 is refused, whatever the platform would say: no worker is added.
pub add_worker_priority :
    (env : Platform) (p : Pool) (priority : ℤ) (cpu_id : Option ℤ) {r : Reply}
    → IsErrno env.errno
    → (ltb_ℤ priority (pos 0) || ltb_ℤ (pos 100) priority) ≡ true
    → add_worker env p priority cpu_id ≡ some r
    → (r.status ≡ invalid_arguments)
      × (r.pool.no_workers ≡ p.no_workers)
      × (r.pool.workers ≡ p.workers)
unfolding start_worker run finish_start drop_worker
add_worker_priority env p priority cpu_id {r} v bad e =
    elim (add_worker-some env p priority cpu_id e) [
      | inl (f, end) ↦ ground (arith, end)
      | inr (core, info, f, at, end) ↦
          let status : errno_to_worker_status env.errno env.errno.einval ≡ invalid_arguments =
            (errno_to_worker_status_iff env.errno env.errno.einval v).3.1 refl in
          ground (arith, bad, status, end)
    ]
