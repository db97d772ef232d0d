-- ===== src/Apple/Period.antt =====
-- `set_current_thread_to_realtime` of src/apple_threading.cpp, and the period that `_init_apple_thread`
-- of src/worker_pool_implementation.h gives it. The timebase and thread_policy_set are parameters.
use twine.Prelude.{
  ℕ, ◌≤◌, ◌≡◌, ◌&&◌, ◌||◌, eqb_ℤ, if◌then◌else◌, inl, inr, Bool, true, false, Option, none, some,
  arith, ℤ, pos, Bool-cases,
}
use twine.Apple.Double.{Double, IsDouble, min, max, uint32_max}

-- mach_timebase_info_data_t
pub record Timebase : Type 0 where
  pub numer : ℕ
  pub denom : ℕ

-- What becomes of the request for a realtime policy: the result of set_current_thread_to_realtime, or a
-- failed assertion, or a conversion that is not defined.
pub data Start : Type 0 where
  assertion_failed undefined : Start
  answered : Bool → Start

-- thread_time_constraint_policy_data_t
pub record Policy : Type 0 where
  pub period : ℕ
  pub constraint : ℕ
  pub computation : ℕ
  pub preemptible : Bool

abbrev pub policy_for : ℕ → Policy
policy_for ticks = record {
  period = ticks;
  constraint = ticks;
  computation = ticks;
  preemptible = true;
}

module _ {ℓ} {W : Type ℓ} ⦃d : Double W⦄ where
  abbrev pub int : ℕ → W
  int n = d.of_int (pos n)

  unfoldable pub ticks_per_ms : Timebase → W
  ticks_per_ms timebase = d.div (d.mul (int timebase.denom) (int 1000000)) (int timebase.numer)

  -- `none` where the conversion to uint32_t is not defined.
  unfoldable pub period_ticks : Timebase → (period_ms : W) → Option ℕ
  unfolding ticks_per_ms
  period_ticks timebase period_ms =
      d.to_uint32 (min (int uint32_max) (d.mul period_ms (ticks_per_ms timebase)))

  -- `policy_set` says whether the kernel accepts a policy.
  unfoldable pub set_current_thread_to_realtime :
      (policy_set : Policy → Bool) → Timebase → (period_ms : W) → Option Bool
  set_current_thread_to_realtime policy_set timebase period_ms =
      elim (period_ticks timebase period_ms) [
        | none ↦ none
        | some ticks ↦ some (policy_set (policy_for ticks))
      ]

  -- The period of `_init_apple_thread`.
  unfoldable pub thread_period_ms : (chunk_size : ℤ) → (current_sample_rate : W) → W
  thread_period_ms chunk_size current_sample_rate =
      max (d.div (d.mul (int 1000) (d.of_int chunk_size)) current_sample_rate) (int 1)

  -- The assertions of `_init_apple_thread`, in a build that has them, on what the client has set.
  abbrev pub is_unset : (assertions : Bool) → (chunk_size : ℤ) → (current_sample_rate : W) → Bool
  is_unset assertions chunk_size current_sample_rate =
      assertions && (eqb_ℤ chunk_size (pos 0) || d.is_zero current_sample_rate)

  -- `_init_apple_thread`, up to the answer of set_current_thread_to_realtime.
  unfoldable pub start_realtime :
      (assertions : Bool)
      → (policy_set : Policy → Bool) → Timebase
      → (chunk_size : ℤ) → (current_sample_rate : W) → Start
  unfolding set_current_thread_to_realtime thread_period_ms
  start_realtime assertions policy_set timebase chunk_size current_sample_rate =
      let result =
        set_current_thread_to_realtime policy_set timebase
          (thread_period_ms chunk_size current_sample_rate) in
      if is_unset assertions chunk_size current_sample_rate
      then assertion_failed
      else elim result [ none ↦ undefined | some b ↦ answered b ]

module _ {ℓ} {W : Type ℓ} ⦃d : Double W⦄ (v : IsDouble W) where
  thread_period_ms-positive :
      (chunk_size : ℤ) (current_sample_rate : W)
      → d.lt (thread_period_ms chunk_size current_sample_rate) (int 0) ≡ false
  unfolding thread_period_ms
  thread_period_ms-positive chunk_size current_sample_rate =
      let x = d.div (d.mul (int 1000) (d.of_int chunk_size)) current_sample_rate in
      let positive = v.lt_asym (int 0) (int 1) v.zero-lt-one in
      elim (Bool-cases (d.lt x (int 0))) [
        | inl low ↦ ground (arith, positive, v.lt_trans x (int 0) (int 1) low v.zero-lt-one)
        | inr high ↦ ground (arith, positive, high)
      ]

  ticks-positive :
      (timebase : Timebase) (period_ms : W)
      → d.lt period_ms (int 0) ≡ false
      → d.lt (d.mul period_ms (ticks_per_ms timebase)) (int 0) ≡ false
  unfolding ticks_per_ms
  ticks-positive timebase period_ms h = v.mul-positive period_ms (ticks_per_ms timebase) h (
      v.div-positive (d.mul (int timebase.denom) (int 1000000)) timebase.numer (
        v.mul-positive (int timebase.denom) (int 1000000) (v.of_int-positive timebase.denom)
          (v.of_int-positive 1000000)))

  period_ticks-bound :
      (timebase : Timebase) (period_ms : W)
      → d.lt period_ms (int 0) ≡ false
      → (n : ℕ) × (period_ticks timebase period_ms ≡ some n) × (n ≤ uint32_max)
  unfolding period_ticks
  period_ticks-bound timebase period_ms h =
      let x = d.mul period_ms (ticks_per_ms timebase) in
      elim (Bool-cases (d.lt x (int uint32_max))) [
        | inl below ↦
            let (n, e, bound) = v.to_uint32-below x (ticks-positive timebase period_ms h) below in
            (n, ground (arith, below, e), bound)
        | inr not_below ↦ (uint32_max, ground (arith, not_below, v.to_uint32-max), omega arith)
      ]

  -- Over any `double` with the laws of IEEE 754: unless an assertion fails, on a chunk size or a sample rate
  -- that is 0 in a build with assertions, the conversion of the period of a worker thread is defined,
  -- whatever these two and the timebase are, also if the arithmetic gives NaN or an infinity: the thread
  -- asks the kernel for a policy whose period, constraint and computation are the same number of ticks,
  -- which fits into 32 bits, and the result is the kernel's answer.
  pub start_realtime-defined :
      (assertions : Bool) (policy_set : Policy → Bool) (timebase : Timebase) (chunk_size : ℤ)
      (current_sample_rate : W)
      → (ticks : ℕ) × (start_realtime assertions policy_set timebase chunk_size current_sample_rate
          ≡ (if is_unset assertions chunk_size current_sample_rate
              then assertion_failed
              else answered (policy_set (policy_for ticks))))
        × (ticks ≤ uint32_max)
  unfolding start_realtime set_current_thread_to_realtime
  start_realtime-defined assertions policy_set timebase chunk_size rate =
      let (n, e, bound) =
        period_ticks-bound timebase (thread_period_ms chunk_size rate)
          (thread_period_ms-positive chunk_size rate) in
      (n, ground (arith, e), bound)
