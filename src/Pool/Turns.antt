-- ===== src/Pool/Turns.antt =====
-- The constructor of WorkerPoolImpl and `add_worker` (src/worker_pool_implementation.h): which core each
-- worker of a pool gets.
mod Examples
use native.Mathlib.Nat.{mod-eq_of_lt, mul-add-mod_self_right, div-eq_of_lt, mul-add-div_right}
use twine.Prelude.{
  Bool, ℕ, zero, suc, ◌+◌, ◌*◌, ◌/◌, ◌%◌, ◌≡◌, ◌<◌, ◌≢◌, inl, inr, refl, sym, ◌∙◌, ap, subst,
  Option, none, some, List, [], ◌∷◌, ℤ, pos, pos_part, length, arith, All, get_elem?, ℕ_discrete,
  of_some, ◌+ℤ◌,
}
use twine.Status.{WorkerPoolStatus, AppleThreadingStatus, errno_to_worker_status, invalid_arguments}
use twine.Cores.{CpuInfo, core_list_from, build_core_list, least_used, add_usage}
use twine.Cores.Turns.{
  in_turn, in_turn-length, in_turn-unused, in_turn-get, least_used-in_turn, add_usage-in_turn,
}
use twine.CondVar.{Build, with_evl}
use twine.Realtime.{ThreadType, evl_thread}
use twine.IsolatedCpus.{first_cores, evl_cores}
use twine.IsolatedCpus.Pools.{evl_cores-cases}
use twine.Pool.{
  Platform, Pool, WorkerInfo, Reply, core_info, pool_cores, make_pool, run, choose_core,
  start_worker, finish_start, keep_worker, drop_worker, refuse, add_worker,
}
use twine.Pool.Replies.{add_worker-some}
use twine.Pool.NewPool.{Fits, Fits-length, pool_cores-Fits, Unused, pool_cores-Unused}

-- `n` calls of `add_worker`, none of which asks for a core, and all of which succeed.
pub data Fills (p : Pool) : ℕ → Pool → Type 0 where
  none_yet : Fills p zero p
  one_more :
      {n : ℕ} {q : Pool} {r : Reply} (env : Platform) (priority : ℤ)
      → Fills p n q
      → add_worker env q priority none ≡ some r
      → r.status ≡ WorkerPoolStatus.ok
      → Fills p (suc n) r.pool

-- A call that succeeds keeps the worker and the usage of its core.
finish_start-ok :
    (p : Pool) (cores : List CpuInfo) (core : ℕ) (w : WorkerInfo) (init : AppleThreadingStatus)
    (status : WorkerPoolStatus) (stray_join : Bool)
    → (finish_start p cores core w init status stray_join).status ≡ WorkerPoolStatus.ok
    → (finish_start p cores core w init status stray_join).pool
      ≡ record { no_workers = p.no_workers + 1; cores = cores; workers = w ∷ p.workers }
unfolding finish_start keep_worker drop_worker
finish_start-ok p cores core w AppleThreadingStatus.ok WorkerPoolStatus.ok stray_join e = refl
finish_start-ok p cores core w _ WorkerPoolStatus.ok stray_join e = absurd (cc)
finish_start-ok p cores core w init _ stray_join e = absurd (cc)

-- After `n` workers it is the turn of core `r`, in round `k`.
record Turn (cs : List CpuInfo) (n : ℕ) (cores : List CpuInfo) : Type 0 where
  k : ℕ
  r : ℕ
  at : cores ≡ in_turn k r cs
  count : n ≡ k * length cs + r
  on : r < length cs

Turn-next :
    (cs : List CpuInfo) (n : ℕ) (cores : List CpuInfo) (t : Turn cs n cores)
    → Turn cs (suc n) (add_usage cores t.r)
Turn-next cs n cores t =
    let more : add_usage cores t.r ≡ in_turn t.k (suc t.r) cs =
      ap (λ l. add_usage l t.r) t.at ∙ add_usage-in_turn t.k t.r cs t.on in
    elim (ℕ_discrete (suc t.r) (length cs)) [
      | yes last ↦ record {
        k = t.k + 1;
        r = 0;
        at = more ∙ (ap (λ r. in_turn t.k r cs) last ∙ in_turn-length t.k cs);
        count = omega (arith, t.count, last);
        on = omega (arith, last);
      }
      | no inside ↦ record {
        k = t.k;
        r = suc t.r;
        at = more;
        count = omega (arith, t.count);
        on = omega (arith, t.on);
      }
    ]

-- A call that succeeds takes the core whose turn it is.
Turn-add_worker :
    (cs : List CpuInfo) (n : ℕ) (env : Platform) (q : Pool) (priority : ℤ) {r : Reply}
    (t : Turn cs n q.cores)
    → add_worker env q priority none ≡ some r
    → r.status ≡ WorkerPoolStatus.ok
    → (info : CpuInfo) × (get_elem? cs t.r ≡ some info)
      × (r.pool.workers ≡ record { priority = priority; cpu_id = info.id } ∷ q.workers)
      × (r.pool.cores ≡ add_usage q.cores t.r)
unfolding start_worker
Turn-add_worker cs n env q priority {r} t e fine = elim (add_worker-some env q priority none e) [
  | inl (unknown, end) ↦ absurd (ground (arith, end, fine))
  | inr (core, info, chosen, at, end) ↦
      let turn : core ≡ t.r =
        least_used-in_turn t.k t.r cs t.on
          (subst (λ l. least_used l ≡ some core) t.at (unfold choose_core in of_some chosen)) in
      let (d, there, id, before, after) =
        in_turn-get t.k t.r cs core (subst (λ l. get_elem? l core ≡ some info) t.at at) in
      let kept =
        finish_start-ok q (add_usage q.cores core) core _ _ _ _ (ap (λ r. r.status) end ∙ fine) in
      (
        d,
        subst (λ i. get_elem? cs i ≡ some d) turn there,
        ap (λ r. r.pool.workers) (sym end)
            ∙ (ap (λ p. p.workers) kept
                ∙ ap (λ id. record { priority = priority; cpu_id = id } ∷ q.workers) id),
        ap (λ r. r.pool.cores) (sym end) ∙ (ap (λ p. p.cores) kept ∙ ap (add_usage q.cores) turn),
      )
]

Fills-Turn :
    {p q : Pool} (n : ℕ)
    → Unused p.cores
    → 0 < length p.cores
    → Fills p n q
    → Turn p.cores n q.cores
Fills-Turn {p} n unused some_core none_yet = record {
  k = 0;
  r = 0;
  at = sym (in_turn-unused p.cores unused);
  count = omega arith;
  on = some_core;
}
Fills-Turn {p} (suc n) unused some_core (one_more {q = q} env priority before e fine) =
    let t = Fills-Turn n unused some_core before in
    let (info, at, workers, cores) = Turn-add_worker p.cores n env q priority t e fine in
    subst (Turn p.cores (suc n)) (sym cores) (Turn-next p.cores n q.cores t)

Turn-mod :
    (cs : List CpuInfo) (n : ℕ) {cores : List CpuInfo} (t : Turn cs n cores) → n % length cs ≡ t.r
Turn-mod cs n t =
    ap (λ n. n % length cs) t.count
    ∙ (mul-add-mod_self_right t.k (length cs) t.r ∙ mod-eq_of_lt t.on)

Turn-div :
    (cs : List CpuInfo) (n : ℕ) {cores : List CpuInfo} (t : Turn cs n cores) → n / length cs ≡ t.k
Turn-div cs n t =
    ap (λ n. n / length cs) t.count
    ∙ (mul-add-div_right (omega (arith, t.on)) t.k t.r
        ∙ (ap (◌+◌ t.k) (div-eq_of_lt t.on) ∙ omega arith))

Turn-usage :
    (cs : List CpuInfo) (n : ℕ) {cores : List CpuInfo}
    → Turn cs n cores
    → cores ≡ in_turn (n / length cs) (n % length cs) cs
Turn-usage cs n t =
    t.at
    ∙ sym (
        ap (λ k. in_turn k (n % length cs) cs) (Turn-div cs n t)
        ∙ ap (λ r. in_turn t.k r cs) (Turn-mod cs n t))

-- The cores are taken in turn, in a pool of any build that was created for one core at least, and on which
-- each call of `add_worker` so far has asked for no core and succeeded: when there are `n` workers,
-- `core_info` gives `n / c` of them on each of its `c` cores, and one more on each of the first `n % c`;
-- and the next worker, if its call asks for no core and succeeds too, gets the core at position `n % c` of
-- the list.
pub add_worker-in_turn :
    {p q : Pool} {r : Reply} (build : Build) (type : ThreadType) (line : Option (List ℕ))
    (cores : ℤ) (n : ℕ) (env : Platform) (priority : ℤ)
    → make_pool build type line cores ≡ p
    → 0 < pos_part cores
    → Fills p n q
    → add_worker env q priority none ≡ some r
    → r.status ≡ WorkerPoolStatus.ok
    → (core_info q ≡ in_turn (n / length (core_info p)) (n % length (core_info p)) (core_info p))
      × ((info : CpuInfo) × (get_elem? (core_info p) (n % length (core_info p)) ≡ some info)
          × (r.pool.workers ≡ record { priority = priority; cpu_id = info.id } ∷ q.workers))
unfolding make_pool
add_worker-in_turn {p} {q} build type line cores n env priority made some_core filled e fine =
    let list : pool_cores build type line cores ≡ p.cores = ap (λ p. p.cores) made in
    let unused = subst Unused list (pool_cores-Unused build type line cores) in
    let fits = subst (λ l. Fits l (pos_part cores)) list (pool_cores-Fits build type line cores) in
    let t = Fills-Turn n unused (Fits-length p.cores (pos_part cores) fits some_core) filled in
    let (info, at, workers, usage) = Turn-add_worker p.cores n env q priority t e fine in
    (Turn-usage p.cores n t, (info, ap (get_elem? p.cores) (Turn-mod p.cores n t) ∙ at, workers))
