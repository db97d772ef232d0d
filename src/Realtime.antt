-- ===== src/Realtime.antt =====
-- src/twine.cpp and src/twine_internal.h: the flags that say what is realtime, the choice of the
-- implementations, and the clock.
mod Denormals
mod Examples
use twine.Prelude.{
  ℕ, ◌+◌, ◌*◌, ◌/◌, ◌%◌, ◌^◌, ◌<◌, ◌≡◌, ◌↔◌, refl, Bool, true, false, Option, none, some, List, [],
  ◌∷◌, arith, ℤ, pos, negsuc, sub_ℕ, length, sym, ap, ◌∙◌, of_some, Option-cases, Bool-cases, inl,
  inr, ◌+ℤ◌, ◌-ℤ◌, ltb_ℤ,
}
use twine.CondVar.{
  Build, with_xenomai, with_evl, on_windows, plain, CondVar, std, posix_semaphore, xenomai, evl,
  Registry, create_rt_condition_variable, construct, get_next_id,
}

-- The constructor and the destructor of ThreadRtFlag, run by one thread.
pub data FlagEvent : Type 0 where
  made gone : FlagEvent

-- _instance_counter of the thread
unfoldable pub count_flag : FlagEvent → ℤ → ℤ
count_flag made counter = counter +ℤ pos 1
count_flag gone counter = counter -ℤ pos 1

unfoldable pub counter_after : List FlagEvent → ℤ → ℤ
unfolding count_flag
counter_after [] counter = counter
counter_after (e ∷ es) counter = counter_after es (count_flag e counter)

unfoldable pub is_realtime : ℤ → Bool
is_realtime counter = ltb_ℤ (pos 0) counter

abbrev pub count_made : List FlagEvent → ℕ
count_made [] = 0
count_made (made ∷ es) = count_made es + 1
count_made (gone ∷ es) = count_made es

abbrev pub count_gone : List FlagEvent → ℕ
count_gone [] = 0
count_gone (made ∷ es) = count_gone es
count_gone (gone ∷ es) = count_gone es + 1

add-zero : (n : ℕ) → n + 0 ≡ n
add-zero n = omega arith

add-next : (n k : ℕ) → n + 1 + k ≡ n + (k + 1)
add-next n k = omega arith

next : (a b : ℕ) → sub_ℕ a b +ℤ pos 1 ≡ sub_ℕ (a + 1) b
next a b = ground arith

last : (a b : ℕ) → sub_ℕ a b -ℤ pos 1 ≡ sub_ℕ a (b + 1)
last a b = ground arith

counter_after-count :
    (es : List FlagEvent) (a b : ℕ)
    → counter_after es (sub_ℕ a b) ≡ sub_ℕ (a + count_made es) (b + count_gone es)
unfolding counter_after count_flag
counter_after-count [] a b = rw (add-zero a, add-zero b) refl
counter_after-count (made ∷ es) a b =
    ap (counter_after es) (next a b)
    ∙ (counter_after-count es (a + 1) b
        ∙ ap (λ n. sub_ℕ n (b + count_gone es)) (add-next a (count_made es)))
counter_after-count (gone ∷ es) a b =
    ap (counter_after es) (last a b)
    ∙ (counter_after-count es a (b + 1)
        ∙ ap (λ n. sub_ℕ (a + count_made es) n) (add-next b (count_gone es)))

zero-add : (n : ℕ) → 0 + n ≡ n
zero-add n = omega arith

positive : (a b : ℕ) → (ltb_ℤ (pos 0) (sub_ℕ a b) ≡ true) ↔ (b < a)
positive a b = ((λ q. ground (arith, q)), (λ q. ground (arith, q)))

-- A thread is realtime exactly while it has made more flags than are gone, in whatever order it makes
-- and destroys them: the flags can be nested.
pub is_realtime_iff :
    (es : List FlagEvent)
    → (is_realtime (counter_after es (pos 0)) ≡ true) ↔ (count_gone es < count_made es)
unfolding is_realtime
is_realtime_iff es =
    let e : counter_after es (pos 0) ≡ sub_ℕ (count_made es) (count_gone es) =
      counter_after-count es 0 0
      ∙ (ap (λ n. sub_ℕ n (0 + count_gone es)) (zero-add (count_made es))
          ∙ ap (λ n. sub_ℕ (count_made es) n) (zero-add (count_gone es))) in
    rw e (positive (count_made es) (count_gone es))

-- XenomaiRtFlag, with its static field.
pub record XenomaiRtFlag : Type 0 where
  pub enabled : Bool

abbrev pub running_xenomai_realtime : XenomaiRtFlag
running_xenomai_realtime = record { enabled = false }

unfoldable pub set : XenomaiRtFlag → Bool → XenomaiRtFlag
set flag enabled = record flag { enabled = enabled }

unfoldable pub is_set : XenomaiRtFlag → Bool
is_set flag = flag.enabled

unfoldable pub init_xenomai : Build → XenomaiRtFlag → XenomaiRtFlag
unfolding set
init_xenomai with_xenomai flag = set flag true
init_xenomai with_evl flag = set flag true
init_xenomai _ flag = flag

pub data ThreadType : Type 0 where
  pthread cobalt evl_thread : ThreadType

-- The threads of the pool: `none` is the exception of the Windows build.
unfoldable pub create_worker_pool : Build → (realtime : Bool) → Option ThreadType
create_worker_pool with_xenomai true = some cobalt
create_worker_pool with_evl true = some evl_thread
create_worker_pool on_windows _ = none
create_worker_pool _ _ = some pthread

-- Until `init_xenomai` is called, pools are made as for a program that is not realtime, and from then on as
-- for one that is, as far as the build has realtime threads.
pub create_worker_pool-init_xenomai :
    (build : Build)
    → (create_worker_pool build (is_set running_xenomai_realtime) ≡ create_worker_pool build false)
      × (create_worker_pool build (is_set (init_xenomai build running_xenomai_realtime))
          ≡ create_worker_pool build true)
unfolding create_worker_pool init_xenomai set is_set
create_worker_pool-init_xenomai with_xenomai = (refl, refl)
create_worker_pool-init_xenomai with_evl = (refl, refl)
create_worker_pool-init_xenomai on_windows = (refl, refl)
create_worker_pool-init_xenomai plain = (refl, refl)

-- The threads that a condition variable is made for.
abbrev pub thread_type : CondVar → Option ThreadType
thread_type std = none
thread_type posix_semaphore = some pthread
thread_type (xenomai id) = some cobalt
thread_type (evl id) = some evl_thread

-- What `construct` makes.
construct-head :
    (make : ℕ → CondVar) (set_up : ℕ → Bool) (r : Registry) {q : Registry} {c : CondVar}
    → construct make set_up r.active_ids r ≡ some q
    → q.live ≡ c ∷ r.live
    → (id : ℕ) × (make id ≡ c)
unfolding construct
construct-head make set_up r {q} {c} e h = elim (Option-cases (get_next_id r.active_ids)) [
  | inl f ↦ absurd (ground (arith, f))
  | inr (t, f) ↦ elim (Bool-cases (set_up t.id)) [
    | inl fine ↦ (t.id, ground (arith, f, fine, e, h))
    | inr bad ↦
        let same : q.live ≡ r.live = ground (arith, f, bad, e) in
        absurd (omega (arith, ap length (sym same ∙ h)))
  ]
]

-- In every build, before and after `init_xenomai`, a condition variable that is created is one for the
-- threads of the pools that are created then.
pub thread_type-create :
    (build : Build) (realtime : Bool) (set_up : ℕ → Bool) (r : Registry) {q : Registry}
    {c : CondVar}
    → create_rt_condition_variable build realtime set_up r ≡ some q
    → q.live ≡ c ∷ r.live
    → thread_type c ≡ create_worker_pool build realtime
unfolding create_rt_condition_variable create_worker_pool
thread_type-create with_xenomai true set_up r e h =
    let (id, made_it) = construct-head xenomai set_up r e h in ap thread_type (sym made_it)
thread_type-create with_evl true set_up r e h =
    let (id, made_it) = construct-head evl set_up r e h in ap thread_type (sym made_it)
thread_type-create on_windows b set_up r e h = ground (arith, e, h)
thread_type-create with_xenomai false set_up r e h = ground (arith, e, h)
thread_type-create with_evl false set_up r e h = ground (arith, e, h)
thread_type-create plain b set_up r e h = ground (arith, e, h)

pub record Timespec : Type 0 where
  pub tv_sec : ℕ
  pub tv_nsec : ℕ

abbrev pub ns_to_s : ℕ
ns_to_s = 1000000000

-- In nanoseconds: `tp` is the realtime clock, and `steady` the standard library's steady clock. `none`
-- is the failed assertion of a build without a realtime clock.
unfoldable pub current_rt_time : Build → (realtime : Bool) → Timespec → (steady : ℕ) → Option ℕ
current_rt_time with_xenomai true tp steady = some (tp.tv_nsec + tp.tv_sec * ns_to_s)
current_rt_time with_evl true tp steady = some (tp.tv_nsec + tp.tv_sec * ns_to_s)
current_rt_time _ true tp steady = none
current_rt_time _ false tp steady = some steady

split_time :
    (tp : Timespec) {now : ℕ}
    → tp.tv_nsec < ns_to_s
    → tp.tv_nsec + tp.tv_sec * ns_to_s ≡ now
    → (now / ns_to_s ≡ tp.tv_sec) × (now % ns_to_s ≡ tp.tv_nsec)
split_time tp h e = (omega (arith, h, e), omega (arith, h, e))

-- In a realtime program of a Xenomai or an EVL build the time has the seconds and the nanoseconds of
-- the clock as its quotient and its remainder.
pub current_rt_time-divmod :
    (build : Build) (tp : Timespec) (steady : ℕ) {now : ℕ}
    → tp.tv_nsec < ns_to_s
    → current_rt_time build true tp steady ≡ some now
    → (now / ns_to_s ≡ tp.tv_sec) × (now % ns_to_s ≡ tp.tv_nsec)
unfolding current_rt_time
current_rt_time-divmod with_xenomai tp steady h e = split_time tp h (of_some e)
current_rt_time-divmod with_evl tp steady h e = split_time tp h (of_some e)
current_rt_time-divmod on_windows tp steady h e = absurd (ground (arith, e))
current_rt_time-divmod plain tp steady h e = absurd (ground (arith, e))

-- The time fits into the 64 bits of `std::chrono::nanoseconds`, up to 292 years after the clock began.
pub current_rt_time-bound :
    (build : Build) (tp : Timespec) (steady : ℕ) {now : ℕ}
    → tp.tv_nsec < ns_to_s
    → tp.tv_sec < 9223372036
    → current_rt_time build true tp steady ≡ some now
    → now < 2 ^ 63
unfolding current_rt_time
current_rt_time-bound with_xenomai tp steady h k e = omega (arith, h, k, of_some e)
current_rt_time-bound with_evl tp steady h k e = omega (arith, h, k, of_some e)
current_rt_time-bound on_windows tp steady h k e = absurd (ground (arith, e))
current_rt_time-bound plain tp steady h k e = absurd (ground (arith, e))
