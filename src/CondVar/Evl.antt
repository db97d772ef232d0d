-- ===== src/CondVar/Evl.antt =====
-- src/condition_variable_implementation.h, class EvlConditionVariable.
pub mod Notify
use Prim.Native.Nat.{bit_or, bit_or-bitwise, bitwise, digits, max}
use twine.Prelude.{
  ℕ, zero, suc, ◌+◌, ◌*◌, ◌/◌, ◌≤◌, ◌<◌, ◌≡◌, ◌⊎◌, inl, inr, Bool, true, false, not, ◌&&◌, Option,
  none, some, arith, ◌==◌, if◌then◌else◌, ℤ, pos, ltb_ℤ, Bool-cases, subst, sym, dec_lt,
}

-- What `poll` answers, and the `revents` that it leaves.
pub record Polled : Type 0 where
  pub res : ℤ
  pub revents : ℕ

-- The flags of <poll.h>.
pub record Flags : Type 0 where
  pub pollin : ℕ
  pub pollerr : ℕ
  pub pollhup : ℕ
  pub pollnval : ℕ

-- The length that `wait` has read when it leaves its loop, and how often it has polled.
pub record Left : Type 0 where
  pub len : ℤ
  pub polls : ℕ

-- while (true), of a thread that is in band: `fuel` rounds at most, from the poll `i` on. `read` is what
-- the read after a poll gives.
wait_loop : Flags → (poll : ℕ → Polled) → (read : ℕ → ℤ) → (fuel : ℕ) → (i : ℕ) → Option Left
wait_loop f poll read zero i = none
wait_loop f poll read (suc fuel) i =
    let again = wait_loop f poll read fuel (i + 1) in
    if ltb_ℤ (pos 0) (poll i).res && not (bit_or (poll i).revents f.pollin == 0)
    then some (record { len = read i; polls = i + 1 })
    else if not (bit_or (poll i).revents (bit_or (bit_or f.pollerr f.pollhup) f.pollnval) == 0)
    then some (record { len = pos 0; polls = i + 1 })
    else again

-- The wait of a thread that is in band, with a bound on its polls.
unfoldable pub wait_inband : Flags → (ℕ → Polled) → (ℕ → ℤ) → (fuel : ℕ) → Option Left
unfolding wait_loop
wait_inband f poll read fuel = wait_loop f poll read fuel 0

digits_or-pos : (n a b : ℕ) → 0 < b → 0 < digits (λ b. b) max n a b
digits_or-pos zero a b h = h
digits_or-pos (suc n) zero b h = h
digits_or-pos (suc n) (suc a) b h = elim (dec_lt 0 (b / 2)) [
  | yes more ↦ omega (arith, digits_or-pos n (suc a / 2) (b / 2) more)
  | no last ↦ omega arith
]

bit_or-digits : (a b : ℕ) → bit_or a b ≡ bitwise (λ b. b) max a b
bit_or-digits a b = λ i. bit_or-bitwise a b i

bit_or-pos : (a b : ℕ) → 0 < b → 0 < bit_or a b
bit_or-pos a b h = subst (λ n. 0 < n) (sym (bit_or-digits a b)) (digits_or-pos a a b h)

-- `wait` polls once, whatever the poll answers: its tests join the flags with `|`, which is never 0. So
-- it returns the length of a read if the poll succeeded, and 0 for every other answer, also if the
-- time was out and nothing was wrong.
pub wait_inband-once :
    (f : Flags) (poll : ℕ → Polled) (read : ℕ → ℤ) (fuel : ℕ)
    → 0 < f.pollin
    → 0 < f.pollnval
    → wait_inband f poll read (suc fuel)
      ≡ some (record { len = if ltb_ℤ (pos 0) (poll 0).res then read 0 else pos 0; polls = 1 })
unfolding wait_inband wait_loop
wait_inband-once f poll read fuel h k =
    let p = bit_or-pos (poll 0).revents f.pollin h in
    let q =
      bit_or-pos (poll 0).revents (bit_or (bit_or f.pollerr f.pollhup) f.pollnval)
        (bit_or-pos (bit_or f.pollerr f.pollhup) f.pollnval k) in
    ground (arith, p, q)

-- The destructor's loop: how often it sleeps. `waiting` is what it reads of `_is_waiting`.
unfoldable pub sleeps_from : (waiting : ℕ → Bool) → (retries : ℕ) → (slept : ℕ) → ℕ
sleeps_from waiting zero slept = slept
sleeps_from waiting (suc retries) slept = elim (waiting slept) [
  | true ↦ sleeps_from waiting retries (slept + 1)
  | false ↦ slept
]

abbrev pub evl_shutdown_retries : ℕ
evl_shutdown_retries = 10

-- EVL_COND_VAR_WAIT_TIMEOUT, in milliseconds
abbrev pub wait_timeout_ms : ℕ
wait_timeout_ms = 1000

unfoldable pub destructor_sleeps : (ℕ → Bool) → ℕ
unfolding sleeps_from
destructor_sleeps waiting = sleeps_from waiting evl_shutdown_retries 0

unfoldable pub destructor_ms : (ℕ → Bool) → ℕ
unfolding destructor_sleeps
destructor_ms waiting = destructor_sleeps waiting * (wait_timeout_ms / (evl_shutdown_retries / 2))

sleeps_from-bound :
    (waiting : ℕ → Bool) (retries slept : ℕ)
    → ((sleeps_from waiting retries slept ≡ slept + retries)
        ⊎ (waiting (sleeps_from waiting retries slept) ≡ false))
      × (sleeps_from waiting retries slept ≤ slept + retries)
unfolding sleeps_from
sleeps_from-bound waiting zero slept = (inl (omega arith), omega arith)
sleeps_from-bound waiting (suc retries) slept = elim (Bool-cases (waiting slept)) [
  | inl on ↦
      rw (on, sleeps_from)
        (let (ends, bound) = sleeps_from-bound waiting retries (slept + 1) in
          (
            elim ends [ inl all ↦ inl (omega (arith, all)) | inr off ↦ inr off ],
            omega (arith, bound),
          ))
  | inr off ↦ rw (off, sleeps_from) (inr off, omega arith)
]

-- The destructor ends: it waits two timeouts of a wait at most, and leaves before only when no thread
-- waits any more.
pub destructor_bound :
    (waiting : ℕ → Bool)
    → ((destructor_ms waiting ≡ 2 * wait_timeout_ms)
        ⊎ (waiting (destructor_sleeps waiting) ≡ false))
      × (destructor_ms waiting ≤ 2 * wait_timeout_ms)
unfolding destructor_ms destructor_sleeps
destructor_bound waiting =
    let (ends, bound) = sleeps_from-bound waiting evl_shutdown_retries 0 in
    (elim ends [ inl all ↦ inl (omega (arith, all)) | inr off ↦ inr off ], omega (arith, bound))

-- The constructor: it throws if this is `false`. The second test is of the first buffer again.
unfoldable pub make_evl : (xbuf_to_rt : ℤ) → (xbuf_to_nonrt : ℤ) → Bool
make_evl xbuf_to_rt xbuf_to_nonrt =
    if ltb_ℤ xbuf_to_rt (pos 0) then false else if ltb_ℤ xbuf_to_rt (pos 0) then false else true
