-- ===== src/Apple/Double.antt =====
-- The floating point arithmetic of src/apple_threading.cpp and of `_init_apple_thread`
-- (src/worker_pool_implementation.h): multiplication, division, two comparisons, and two conversions.
use twine.Prelude.{
  zero, ℕ, ◌*◌, ◌/◌, ◌≤◌, ◌≡◌, refl, Bool, true, false, Option, none, some, arith, ltb, leb, ℤ, pos,
  negsuc, if◌then◌else◌,
}

pub record Double {ℓ} (W : Type ℓ) : Type ℓ where
  pub of_int : ℤ → W
  pub mul : W → W → W
  pub div : W → W → W
  pub lt : W → W → Bool
  pub is_zero : W → Bool  -- whether it equals 0
  pub to_uint32 : W → Option ℕ  -- `none` where the conversion is not defined

-- std::min and std::max
abbrev pub min {ℓ} : {W : Type ℓ} ⦃d : Double W⦄ → W → W → W
min ⦃d⦄ a b = if d.lt b a then b else a

abbrev pub max {ℓ} : {W : Type ℓ} ⦃d : Double W⦄ → W → W → W
max ⦃d⦄ a b = if d.lt a b then b else a

abbrev pub uint32_max : ℕ
uint32_max = 4294967295

-- What IEEE 754 and the language say. NaN is less than nothing, and nothing is less than NaN; a product
-- of numbers that are not negative may be NaN, and is not negative; nor is a quotient by a number that
-- was an integer, which is not the negative zero.
pub record IsDouble {ℓ} (W : Type ℓ) ⦃d : Double W⦄ : Type ℓ where
  pub lt_trans : (x y z : W) → d.lt x y ≡ true → d.lt y z ≡ true → d.lt x z ≡ true
  pub lt_asym : (x y : W) → d.lt x y ≡ true → d.lt y x ≡ false
  pub zero-lt-one : d.lt (d.of_int (pos 0)) (d.of_int (pos 1)) ≡ true
  pub of_int-positive : (n : ℕ) → d.lt (d.of_int (pos n)) (d.of_int (pos 0)) ≡ false
  pub mul-positive :
      (x y : W)
      → d.lt x (d.of_int (pos 0)) ≡ false
      → d.lt y (d.of_int (pos 0)) ≡ false
      → d.lt (d.mul x y) (d.of_int (pos 0)) ≡ false
  pub div-positive :
      (x : W) (n : ℕ)
      → d.lt x (d.of_int (pos 0)) ≡ false
      → d.lt (d.div x (d.of_int (pos n))) (d.of_int (pos 0)) ≡ false
  -- The conversion is defined for the largest result, and below it for what is not negative.
  pub to_uint32-max : d.to_uint32 (d.of_int (pos uint32_max)) ≡ some uint32_max
  pub to_uint32-below :
      (x : W)
      → d.lt x (d.of_int (pos 0)) ≡ false
      → d.lt x (d.of_int (pos uint32_max)) ≡ true
      → (n : ℕ) × (d.to_uint32 x ≡ some n) × (n ≤ uint32_max)

-- The laws can be met: integers, with `none` for NaN.
abbrev pub Whole : Type 0
Whole = Option ℤ

abbrev lt_ℤ : ℤ → ℤ → Bool
lt_ℤ (pos a) (pos b) = ltb a b
lt_ℤ (pos a) (negsuc b) = false
lt_ℤ (negsuc a) (pos b) = true
lt_ℤ (negsuc a) (negsuc b) = ltb b a

abbrev lt_whole : Whole → Whole → Bool
lt_whole (some a) (some b) = lt_ℤ a b
lt_whole _ _ = false

abbrev is_zero_whole : Whole → Bool
is_zero_whole (some (pos zero)) = true
is_zero_whole _ = false

-- Only what is not negative is multiplied and divided.
abbrev on_naturals : (ℕ → ℕ → ℕ) → Whole → Whole → Whole
on_naturals f (some (pos a)) (some (pos b)) = some (pos (f a b))
on_naturals f _ _ = none

abbrev to_uint32_whole : Whole → Option ℕ
to_uint32_whole (some (pos n)) = if leb n uint32_max then some n else none
to_uint32_whole _ = none

instance abbrev pub whole_double : Double Whole
whole_double = record {
  of_int = some;
  mul = on_naturals λ a b. a * b;
  div = on_naturals λ a b. a / b;
  lt = lt_whole;
  is_zero = is_zero_whole;
  to_uint32 = to_uint32_whole;
}

pub Whole-IsDouble : IsDouble Whole
Whole-IsDouble = record {
  lt_trans = λ x y z h k. ground (arith, h, k);
  lt_asym = λ x y h. ground (arith, h);
  zero-lt-one = refl;
  of_int-positive = λ n. ground arith;
  mul-positive = λ x y h k. ground (arith, h, k);
  div-positive = λ x n h. ground (arith, h);
  to_uint32-max = refl;
  to_uint32-below = λ x h k. below x h k;
}
  where
    below :
        (x : Whole)
        → lt_whole x (some (pos 0)) ≡ false
        → lt_whole x (some (pos uint32_max)) ≡ true
        → (n : ℕ) × (to_uint32_whole x ≡ some n) × (n ≤ uint32_max)
    below none h k = absurd (ground (arith, k))
    below (some (negsuc n)) h k = absurd (ground (arith, h))
    below (some (pos n)) h k = (n, ground (arith, k), ground (arith, k))
