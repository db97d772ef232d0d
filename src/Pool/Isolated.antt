-- ===== src/Pool/Isolated.antt =====
-- The constructor of WorkerPoolImpl and `add_worker` (src/worker_pool_implementation.h): on which cores the
-- workers of a pool run.
mod Examples
use mathlib.Core.List.{Mem, mem-cons_self, mem-cons_of_mem}
use twine.Prelude.{
  ◌++◌, ◌-◌, map, ◌<◌, Bool, ℕ, zero, suc, ◌+◌, ◌≤◌, ◌≡◌, ◌≢◌, ◌⊎◌, inl, inr, refl, sym, ◌∙◌, ap,
  subst, true, false, Option, none, some, List, [], ◌∷◌, ℤ, pos, pos_part, length, arith, All,
  All-get, All-map, get_elem?,
}
use twine.Status.{WorkerPoolStatus, AppleThreadingStatus, errno_to_worker_status}
use twine.Cores.{CpuInfo, build_core_list, add_usage}
use twine.Cores.Usage.{add_usage-All}
use twine.CondVar.{Build, with_evl}
use twine.Realtime.{ThreadType, evl_thread}
use twine.IsolatedCpus.{int_max, read_isolated_cores, get_isolated_cpus, first_cores, evl_cores}
use twine.IsolatedCpus.Ranges.{Digits, Stops, decimal, range, read_isolated_cores-range}
use twine.IsolatedCpus.Pools.{evl_cores-cons}
use twine.Pool.{
  pool_cores, make_pool, Platform, Pool, WorkerInfo, Reply, core_info, run, start_worker,
  finish_start, keep_worker, drop_worker, joins_no_thread, add_worker,
}
use twine.Pool.Replies.{add_worker-some}
use twine.Pool.Choice.{finish_start-cores}
use twine.Pool.Growth.{Grows, same, grows, length-add_usage}

-- At most `limit` cores, all with ids of a kind, as the workers' are.
abbrev On : (ℤ → Type 0) → (limit : ℕ) → Pool → Type 0
On P limit p =
    All (λ c. P c.id) (core_info p)
    × All (λ w. P w.cpu_id) p.workers
    × (length (core_info p) ≤ limit)

module _ (P : ℤ → Type 0) where
  finish_start-workers :
      (p : Pool) (cores : List CpuInfo) (core : ℕ) (w : WorkerInfo) (init : AppleThreadingStatus)
      (status : WorkerPoolStatus) (stray_join : Bool)
      → P w.cpu_id
      → All (λ w. P w.cpu_id) p.workers
      → All (λ w. P w.cpu_id) (finish_start p cores core w init status stray_join).pool.workers
  unfolding finish_start keep_worker drop_worker
  finish_start-workers p cores core w AppleThreadingStatus.ok WorkerPoolStatus.ok stray_join one
        all =
      (one, all)
  finish_start-workers p cores core w _ WorkerPoolStatus.ok stray_join one all = all
  finish_start-workers p cores core w init _ stray_join one all = all

  start_worker-On :
      (env : Platform) (p : Pool) (priority : ℤ) (core : ℕ) (info : CpuInfo) (limit : ℕ)
      → get_elem? p.cores core ≡ some info
      → On P limit p
      → On P limit (start_worker env p priority core info).pool
  unfolding start_worker
  start_worker-On env p priority core info limit at (ids, cpus, few) =
      let w : WorkerInfo = record { priority = priority; cpu_id = info.id } in
      let init = env.init_status info.id in
      let status = errno_to_worker_status env.errno (run env priority info.id) in
      let stray_join = joins_no_thread env priority info.id in
      let one : P info.id = All-get (λ c. P c.id) p.cores core ids at in
      let workers =
        finish_start-workers p (add_usage p.cores core) core w init status stray_join one cpus in
      elim (finish_start-cores p core info w init status stray_join at) [
        | inl more ↦ (
          subst (All (λ c. P c.id)) (sym more)
              (add_usage-All (λ c. P c.id) p.cores core info at ids one),
          workers,
          subst (λ cs. length cs ≤ limit) (sym more) (rw (length-add_usage p.cores core) few),
        )
        | inr still ↦ (
          subst (All (λ c. P c.id)) (sym still) ids,
          workers,
          subst (λ cs. length cs ≤ limit) (sym still) few,
        )
      ]

  Grows-On : {p q : Pool} (limit : ℕ) → Grows p q → On P limit p → On P limit q
  Grows-On limit same h = h
  Grows-On limit (grows {q = q} env priority cpu_id before e) h =
      elim (add_worker-some env q priority cpu_id e) [
        | inl (unknown, end) ↦ subst (λ r. On P limit r.pool) end (Grows-On limit before h)
        | inr (core, info, chosen, at, end) ↦
            subst (λ r. On P limit r.pool) end
              (start_worker-On env q priority core info limit at (Grows-On limit before h))
      ]

  first_cores-On :
      (rounds : ℕ) (ids : List ℤ)
      → All P ids
      → All (λ c. P c.id) (first_cores rounds ids) × (length (first_cores rounds ids) ≤ rounds)
  unfolding first_cores
  first_cores-On zero ids h = (tt, omega arith)
  first_cores-On (suc rounds) [] h = (tt, omega arith)
  first_cores-On (suc rounds) (id ∷ ids) h =
      let (all, few) = first_cores-On rounds ids h.1 in ((h.0, all), omega (arith, few))

-- A core of a range.
abbrev pub IsWithin : ℕ → ℕ → ℤ → Type 0
IsWithin first last id = (n : ℕ) × (id ≡ pos n) × (first ≤ n) × (n ≤ last)

range-IsWithin :
    (first last i n : ℕ)
    → first ≤ i
    → i + n ≤ last + 1
    → All (IsWithin first last) (map pos (range i n))
range-IsWithin first last i zero low high = tt
range-IsWithin first last i (suc n) low high =
    ((i, refl, low, omega arith), range-IsWithin first last (i + 1) n (omega arith) (omega arith))

make_pool-On :
    (P : ℤ → Type 0) (line : List ℕ) (cores : ℤ) (ids : List ℤ)
    → read_isolated_cores line ≡ ids
    → ids ≢ []
    → All P ids
    → On P (pos_part cores) (make_pool with_evl evl_thread (some line) cores)
unfolding make_pool pool_cores
make_pool-On P line cores [] e h within = absurd (h refl)
make_pool-On P line cores (id ∷ ids) e h within =
    let (all, few) = first_cores-On P (pos_part cores) (id ∷ ids) within in
    let same = sym (evl_cores-cons line cores id ids e) in
    (subst (All (λ c. P c.id)) same all, tt, subst (λ cs. length cs ≤ pos_part cores) same few)

some_ids : (first n : ℕ) → 0 < n → map pos (range first n) ≢ []
some_ids first zero h e = absurd (omega arith)
some_ids first (suc n) h e = ground (arith, e)

-- The workers of an EVL pool run on isolated cores only, if the file with the isolated cpus begins with a
-- range, two decimal numerals with a dash between them: if the first number is not the larger, the second is
-- less than the greatest `int`, and no digit follows it, then after any calls of `add_worker`, whatever the
-- platform answers, each worker of the pool has a cpu of that range, so do the cores that `core_info` gives,
-- and they are no more than the client has allowed. Of other texts, "3" or "1,4-5", nothing is said: these
-- are not read as the cpus that they stand for.
pub make_pool-isolated :
    (cores : ℤ) (d e : ℕ) (ds es rest : List ℕ) {q : Pool}
    → Digits (d ∷ ds)
    → Digits (e ∷ es)
    → Stops rest
    → decimal (d ∷ ds) ≤ decimal (e ∷ es)
    → decimal (e ∷ es) < int_max
    → Grows (make_pool with_evl evl_thread (some (d ∷ (ds ++ (b'-' ∷ (e ∷ (es ++ rest)))))) cores) q
    → All (λ w. IsWithin (decimal (d ∷ ds)) (decimal (e ∷ es)) w.cpu_id) q.workers
      × All (λ c. IsWithin (decimal (d ∷ ds)) (decimal (e ∷ es)) c.id) (core_info q)
      × (length (core_info q) ≤ pos_part cores)
make_pool-isolated cores d e ds es rest hd he s ordered small grown =
    let first = decimal (d ∷ ds) in
    let last = decimal (e ∷ es) in
    let (ids, cpus, few) = Grows-On (IsWithin first last) (pos_part cores) grown (
      make_pool-On (IsWithin first last) _ cores (map pos (range first (last + 1 - first)))
        (read_isolated_cores-range d e ds es rest hd he s (omega arith) small)
        (some_ids first (last + 1 - first) (omega arith))
        (range-IsWithin first last first (last + 1 - first) (omega arith) (omega arith))) in
    (cpus, ids, few)
