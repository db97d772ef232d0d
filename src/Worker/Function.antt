-- ===== src/Worker/Function.antt =====
-- src/worker_pool_implementation.h, `_internal_worker_function` of WorkerThread, all of it: what a thread
-- does before its loop, in it and after it, as the sequence of what is done.
mod Examples
use twine.Prelude.{
  ℕ, zero, suc, ◌+◌, ◌≤◌, ◌<◌, ◌≡◌, refl, sym, ◌∙◌, ap, subst, Bool, true, false, ◌&&◌, List, [],
  ◌∷◌, ◌++◌, arith, if◌then◌else◌, pos, ltb, Bool-cases, inl, inr,
}
use twine.Realtime.{
  ThreadType, pthread, cobalt, evl_thread, FlagEvent, made, gone, counter_after, is_realtime,
  is_realtime_iff, count_made, count_gone,
}

pub data Act : Type 0 where
  make_flag : Act  -- the constructor of `rt_flag`
  flush_denormals : Act  -- set_flush_denormals_to_zero
  warn_of_switches : Act  -- pthread_setmode_np
  attach_self : Act  -- evl_attach_self
  stop_on_switches : Act  -- evl_set_thread_mode
  init_apple : Act  -- _init_apple_thread
  wait_barrier : Act  -- _barrier.wait(), and the test of the flags
  callback : Act
  leave_workgroup : Act  -- leave_workgroup_if_needed
  drop_flag : Act  -- the destructor of `rt_flag`

-- The build, and the fields that the function reads.
pub record Settings : Type 0 where
  pub thread_type : ThreadType
  pub with_xenomai : Bool
  pub with_evl : Bool
  pub apple_threading : Bool
  pub coreaudio : Bool
  pub disable_denormals : Bool
  pub break_on_mode_sw : Bool

abbrev is_cobalt : ThreadType → Bool
is_cobalt cobalt = true
is_cobalt _ = false

abbrev is_evl : ThreadType → Bool
is_evl evl_thread = true
is_evl _ = false

abbrev when : Bool → List Act → List Act
when b acts = if b then acts else []

abbrev denormals : Settings → List Act
denormals o = when o.disable_denormals (flush_denormals ∷ [])

abbrev switches : Settings → List Act
switches o =
    when (is_cobalt o.thread_type && o.break_on_mode_sw && o.with_xenomai) (warn_of_switches ∷ [])

abbrev attach : Settings → List Act
attach o =
    when (o.with_evl && is_evl o.thread_type)
      (attach_self ∷ when o.break_on_mode_sw (stop_on_switches ∷ []))

unfoldable pub prologue : Settings → List Act
prologue o = denormals o ++ (switches o ++ (attach o ++ when o.apple_threading (init_apple ∷ [])))

-- The loop, when the flags are set for this many rounds.
unfoldable pub rounds : ℕ → List Act
rounds zero = wait_barrier ∷ []
rounds (suc n) = wait_barrier ∷ callback ∷ rounds n

abbrev epilogue : Settings → List Act
epilogue o = when (o.apple_threading && o.coreaudio) (leave_workgroup ∷ [])

unfoldable pub internal_worker_function : Settings → ℕ → List Act
unfolding prologue rounds
internal_worker_function o n =
    make_flag ∷ (prologue o ++ (rounds n ++ (epilogue o ++ (drop_flag ∷ []))))

-- What the thread's counter of flags sees of it.
abbrev pub flag_events : List Act → List FlagEvent
flag_events [] = []
flag_events (make_flag ∷ acts) = made ∷ flag_events acts
flag_events (drop_flag ∷ acts) = gone ∷ flag_events acts
flag_events (_ ∷ acts) = flag_events acts

abbrev pub count_callbacks : List Act → ℕ
count_callbacks [] = 0
count_callbacks (callback ∷ acts) = suc (count_callbacks acts)
count_callbacks (_ ∷ acts) = count_callbacks acts

-- No callback comes after the flag is dropped.
abbrev Closed : List Act → Type 0
Closed [] = Unit {0}
Closed (drop_flag ∷ acts) = count_callbacks acts ≡ 0
Closed (_ ∷ acts) = Closed acts

count_callbacks-append :
    (xs ys : List Act) → count_callbacks (xs ++ ys) ≡ count_callbacks xs + count_callbacks ys
count_callbacks-append [] ys = omega arith
count_callbacks-append (callback ∷ xs) ys = omega (arith, count_callbacks-append xs ys)
count_callbacks-append (x ∷ xs) ys = count_callbacks-append xs ys

Closed-before :
    (before after : List Act)
    → Closed (before ++ callback ∷ after)
    → count_gone (flag_events before) ≡ 0
Closed-before [] after h = refl
Closed-before (make_flag ∷ before) after h = Closed-before before after h
Closed-before (drop_flag ∷ before) after h =
    absurd (omega (arith, h, count_callbacks-append before (callback ∷ after)))
Closed-before (x ∷ before) after h = Closed-before before after h

flag_events-append : (xs ys : List Act) → flag_events (xs ++ ys) ≡ flag_events xs ++ flag_events ys
flag_events-append [] ys = refl
flag_events-append (make_flag ∷ xs) ys = ap (◌∷◌ made) (flag_events-append xs ys)
flag_events-append (drop_flag ∷ xs) ys = ap (◌∷◌ gone) (flag_events-append xs ys)
flag_events-append (x ∷ xs) ys = flag_events-append xs ys

-- Acts that leave the flag alone.
abbrev IsPlain : List Act → Type 0
IsPlain acts = flag_events acts ≡ []

IsPlain-append : (xs ys : List Act) → IsPlain xs → IsPlain ys → IsPlain (xs ++ ys)
IsPlain-append xs ys h k = flag_events-append xs ys ∙ ground (arith, h, k)

flag_events-plain : (xs ys : List Act) → IsPlain xs → flag_events (xs ++ ys) ≡ flag_events ys
flag_events-plain xs ys h = flag_events-append xs ys ∙ ap (λ es. es ++ flag_events ys) h

IsPlain-Closed : (xs ys : List Act) → IsPlain xs → Closed ys → Closed (xs ++ ys)
IsPlain-Closed [] ys h k = k
IsPlain-Closed (make_flag ∷ xs) ys h k = absurd (ground (arith, h))
IsPlain-Closed (drop_flag ∷ xs) ys h k = absurd (ground (arith, h))
IsPlain-Closed (x ∷ xs) ys h k = IsPlain-Closed xs ys h k

when-IsPlain : (b : Bool) (acts : List Act) → IsPlain acts → IsPlain (when b acts)
when-IsPlain true acts h = h
when-IsPlain false acts h = refl

prologue-IsPlain : (o : Settings) → IsPlain (prologue o)
unfolding prologue
prologue-IsPlain o =
    IsPlain-append (denormals o) _ (when-IsPlain o.disable_denormals (flush_denormals ∷ []) refl) (
      IsPlain-append (switches o) _ (when-IsPlain _ (warn_of_switches ∷ []) refl) (
        IsPlain-append (attach o) _
          (when-IsPlain _ (attach_self ∷ when o.break_on_mode_sw (stop_on_switches ∷ []))
            (when-IsPlain o.break_on_mode_sw (stop_on_switches ∷ []) refl))
          (when-IsPlain o.apple_threading (init_apple ∷ []) refl)))

rounds-IsPlain : (n : ℕ) → IsPlain (rounds n)
unfolding rounds
rounds-IsPlain zero = refl
rounds-IsPlain (suc n) = rounds-IsPlain n

internal_worker_function-Closed : (o : Settings) (n : ℕ) → Closed (internal_worker_function o n)
unfolding internal_worker_function
internal_worker_function-Closed o n = IsPlain-Closed (prologue o) _ (prologue-IsPlain o) (
    IsPlain-Closed (rounds n) _ (rounds-IsPlain n) (
      IsPlain-Closed (epilogue o) (drop_flag ∷ []) (when-IsPlain _ (leave_workgroup ∷ []) refl)
        refl))

made_before :
    (before after rest : List Act)
    → make_flag ∷ rest ≡ before ++ callback ∷ after
    → 0 < count_made (flag_events before)
made_before [] after rest e = absurd (ground (arith, e))
made_before (make_flag ∷ before) after rest e = omega arith
made_before (x ∷ before) after rest e = absurd (ground (arith, e))

-- Whenever a worker thread is in its callback it is a realtime thread, whatever the build and the
-- settings are: its flag is made before the first callback and dropped after the last.
pub callback-is_realtime :
    (o : Settings) (n : ℕ) (before after : List Act)
    → internal_worker_function o n ≡ before ++ callback ∷ after
    → is_realtime (counter_after (flag_events before) (pos 0)) ≡ true
unfolding internal_worker_function
callback-is_realtime o n before after e =
    let none_gone =
      Closed-before before after (subst Closed e (internal_worker_function-Closed o n)) in
    (is_realtime_iff (flag_events before)).1
      (omega (arith, none_gone, made_before before after _ e))

-- The flag is made once and dropped once: the counter of the thread is back at its start when the
-- function returns.
pub internal_worker_function-flags :
    (o : Settings) (n : ℕ) → flag_events (internal_worker_function o n) ≡ made ∷ gone ∷ []
unfolding internal_worker_function
internal_worker_function-flags o n = ap (◌∷◌ made) (
    flag_events-plain (prologue o) _ (prologue-IsPlain o)
    ∙ (flag_events-plain (rounds n) _ (rounds-IsPlain n)
        ∙ flag_events-plain (epilogue o) (drop_flag ∷ [])
            (when-IsPlain _ (leave_workgroup ∷ []) refl)))
