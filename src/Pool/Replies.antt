-- ===== src/Pool/Replies.antt =====
-- About `add_worker` of src/worker_pool_implementation.h: its replies, on every branch.
use twine.Prelude.{
  Bool, ℕ, ◌+◌, ◌≡◌, ◌≢◌, ◌⊎◌, inl, inr, refl, subst, true, Option, none, some, List, [], ◌∷◌,
  length, get_elem?, arith, ℤ, pos, negsuc, eqb_ℤ, of_some, ap, Bool-cases, Option-cases,
}
use twine.Status.{
  WorkerPoolStatus, invalid_arguments, pool_error, permission_denied, limit_exceeded,
  AppleThreadingStatus,
}
use twine.Cores.{CpuInfo, find_core, add_usage}
use twine.Cores.Usage.{usage, least_used-IsFirstLeast, usage-add_usage, usage-drop_usage}
use twine.Calls.{Outcome, not_created, init_failed, added, add_worker_calls}
use twine.Pool.{
  Platform, Pool, WorkerInfo, Reply, choose_core, start_worker, finish_start, keep_worker,
  drop_worker, refuse, add_worker,
}

eqb_ℤ→eq : (a b : ℤ) → eqb_ℤ a b ≡ true → a ≡ b
eqb_ℤ→eq (pos a) (pos b) e = ground arith
eqb_ℤ→eq (negsuc a) (negsuc b) e = ground arith
eqb_ℤ→eq (pos a) (negsuc b) e = absurd (cc)
eqb_ℤ→eq (negsuc a) (pos b) e = absurd (cc)

-- The core that was asked for is found if it is in the list.
find_core-get :
    (id : ℤ) (cs : List CpuInfo) {i : ℕ}
    → find_core id cs ≡ some i
    → (c : CpuInfo) × (get_elem? cs i ≡ some c) × (c.id ≡ id)
unfolding find_core
find_core-get id [] e = absurd (ground arith)
find_core-get id (c ∷ cs) {i} e = elim (Bool-cases (eqb_ℤ c.id id)) [
  | inl here ↦ (c, ground (arith, here), eqb_ℤ→eq c.id id here)
  | inr there ↦ elim (Option-cases (find_core id cs)) [
    | inl f ↦ absurd (ground (arith, there, f))
    | inr (j, f) ↦
        let (d, at, same) = find_core-get id cs f in (d, ground (arith, there, f, at), same)
  ]
]

pub choose_core-get :
    (cs : List CpuInfo) (cpu_id : Option ℤ) {i : ℕ}
    → choose_core cs cpu_id ≡ some (some i)
    → (c : CpuInfo) × (get_elem? cs i ≡ some c)
unfolding choose_core
choose_core-get cs (some id) {i} e = elim (Option-cases (find_core id cs)) [
  | inl f ↦ absurd (ground (arith, f))
  | inr (j, f) ↦ let (c, at, same) = find_core-get id cs f in (c, ground (arith, f, at))
]
choose_core-get cs none {i} e = let v = least_used-IsFirstLeast cs (of_some e) in (v.info, v.found)

-- What a pool is left with, by the outcome.
abbrev pub Leaves : Outcome → Pool → Reply → Type 0
Leaves not_created p r =
    (r.status ≢ WorkerPoolStatus.ok)
    × (r.pool.no_workers ≡ p.no_workers)
    × (r.pool.workers ≡ p.workers)
    × (usage r.pool.cores ≡ usage p.cores + 1)
Leaves init_failed p r =
    (r.status ≡ pool_error) × (r.apple_status ≢ AppleThreadingStatus.ok) × (r.pool ≡ p)
Leaves added p r =
    (r.status ≡ WorkerPoolStatus.ok)
    × (r.pool.no_workers ≡ p.no_workers + 1)
    × (length r.pool.workers ≡ length p.workers + 1)
    × (usage r.pool.cores ≡ usage p.cores + 1)

abbrev Answers : Pool → Reply → Type 0
Answers p r = (o : Outcome) × (r.calls ≡ add_worker_calls p.no_workers o) × Leaves o p r

drop_worker-Answers :
    (p : Pool) (core : ℕ) (info : CpuInfo) (status : WorkerPoolStatus) (stray_join : Bool)
    → get_elem? p.cores core ≡ some info
    → status ≢ WorkerPoolStatus.ok
    → Answers p (drop_worker p (add_usage p.cores core) status stray_join)
unfolding drop_worker add_worker_calls
drop_worker-Answers p core info status stray_join at bad =
    (not_created, refl, (bad, refl, refl, usage-add_usage p.cores core info at))

keep_worker-Answers :
    (p : Pool) (core : ℕ) (info : CpuInfo) (w : WorkerInfo) (status : AppleThreadingStatus)
    → get_elem? p.cores core ≡ some info
    → Answers p (keep_worker p (add_usage p.cores core) core w status)
unfolding keep_worker add_worker_calls
keep_worker-Answers p core info w AppleThreadingStatus.ok at =
    (added, refl, (refl, refl, omega arith, usage-add_usage p.cores core info at))
keep_worker-Answers p core info w _ at = (
  init_failed,
  refl,
  (refl, (λ e. cc), ap (λ cs. record p { cores = cs }) (usage-drop_usage p.cores core info at)),
)

finish_start-Answers :
    (p : Pool) (core : ℕ) (info : CpuInfo) (w : WorkerInfo) (init : AppleThreadingStatus)
    (status : WorkerPoolStatus) (stray_join : Bool)
    → get_elem? p.cores core ≡ some info
    → Answers p (finish_start p (add_usage p.cores core) core w init status stray_join)
unfolding finish_start
finish_start-Answers p core info w init WorkerPoolStatus.ok stray_join at =
    keep_worker-Answers p core info w init at
finish_start-Answers p core info w init pool_error stray_join at =
    drop_worker-Answers p core info pool_error stray_join at (λ e. cc)
finish_start-Answers p core info w init permission_denied stray_join at =
    drop_worker-Answers p core info permission_denied stray_join at (λ e. cc)
finish_start-Answers p core info w init limit_exceeded stray_join at =
    drop_worker-Answers p core info limit_exceeded stray_join at (λ e. cc)
finish_start-Answers p core info w init invalid_arguments stray_join at =
    drop_worker-Answers p core info invalid_arguments stray_join at (λ e. cc)

-- Inversion of a reply.
pub add_worker-some :
    (env : Platform) (p : Pool) (priority : ℤ) (cpu_id : Option ℤ) {r : Reply}
    → add_worker env p priority cpu_id ≡ some r
    → ((choose_core p.cores cpu_id ≡ none) × (refuse p ≡ r))
      ⊎ ((core : ℕ) × (info : CpuInfo) × (choose_core p.cores cpu_id ≡ some (some core))
          × (get_elem? p.cores core ≡ some info)
          × (start_worker env p priority core info ≡ r))
unfolding add_worker
add_worker-some env p priority cpu_id e = elim (Option-cases (choose_core p.cores cpu_id)) [
  | inl f ↦ inl (f, ground (arith, f))
  | inr (none, f) ↦ absurd (ground (arith, f))
  | inr (some core, f) ↦
      let (info, at) = choose_core-get p.cores cpu_id f in
      inr (core, info, f, at, ground (arith, f, at))
]

-- Every reply of `add_worker`: an id that is not in the list is refused, with the pool unchanged and
-- nothing done; else the barrier and the threads get the calls of one of three outcomes. If no thread
-- was created, the status is an error, no worker is added, but the usage of the cores has grown by one;
-- if the thread's initialisation failed, the pool is as it was; and else there is one worker more,
-- counted and in use.
pub add_worker_replies :
    (env : Platform) (p : Pool) (priority : ℤ) (cpu_id : Option ℤ) {r : Reply}
    → add_worker env p priority cpu_id ≡ some r
    → ((choose_core p.cores cpu_id ≡ none)
        × (r.status ≡ invalid_arguments)
        × (r.pool ≡ p)
        × (r.calls ≡ []))
      ⊎ ((o : Outcome) × (r.calls ≡ add_worker_calls p.no_workers o) × Leaves o p r)
unfolding start_worker
add_worker_replies env p priority cpu_id e = elim (add_worker-some env p priority cpu_id e) [
  | inl (f, end) ↦ inl (f, ground (arith, end), ground (arith, end), ground (arith, end))
  | inr (core, info, f, at, end) ↦
      inr (subst (Answers p) end (finish_start-Answers p core info _ _ _ _ at))
]
