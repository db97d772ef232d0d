-- ===== src/IsolatedCpus/Ranges.antt =====
-- About `read_isolated_cores` and `get_isolated_cpus` of src/worker_pool_implementation.h: what
-- they read from a range of cores.
use twine.Prelude.{
  ◌<◌, pos_part, ◌-ℤ◌, map, ℕ, zero, suc, ◌+◌, ◌-◌, ◌*◌, ◌^◌, ◌≤◌, ◌≡◌, refl, sym, ◌∙◌, ap, true,
  false, some, List, [], ◌∷◌, ◌++◌, ℤ, pos, arith, length, All, ◌+ℤ◌,
}
use native.Mathlib.Nat.{pow-suc, zero-min, min-zero, suc-min-suc}
use Prim.Native.Nat.{min}
use mathlib.Core.List
use twine.Cores.{CpuInfo}
use twine.IsolatedCpus.{
  ids_from, get_isolated_cpus, first_cores, is_digit, int_max, read_digits, read_signed, to_int,
  stoi, split_dash, read_range, int_range, read_isolated_cores,
}

-- The value of a decimal numeral, by its places.
abbrev pub decimal : List ℕ → ℕ
decimal [] = 0
decimal (c ∷ cs) = (c - b'0') * 10 ^ length cs + decimal cs

abbrev pub Digits : List ℕ → Type 0
Digits = All λ c. is_digit c ≡ true

-- A text at which the reading of digits stops.
abbrev pub Stops : List ℕ → Type 0
Stops [] = Unit {0}
Stops (c ∷ cs) = is_digit c ≡ false

place : (acc v r p : ℕ) {q : ℕ} → q ≡ p * 10 → (acc * 10 + v) * p + r ≡ acc * q + (v * p + r)
place acc v r p e = rw e (ground arith)

read_digits-decimal :
    (acc : ℕ) (ds rest : List ℕ)
    → Digits ds
    → Stops rest
    → read_digits acc true (ds ++ rest) ≡ some (acc * 10 ^ length ds + decimal ds)
unfolding read_digits
read_digits-decimal acc [] [] h s = ap some (omega arith)
read_digits-decimal acc [] (c ∷ rest) h s = rw s (ap some (omega arith))
read_digits-decimal acc (d ∷ ds) rest h s = rw h.0 (
    read_digits-decimal (acc * 10 + (d - b'0')) ds rest h.1 s
    ∙ ap some (place acc (d - b'0') (decimal ds) (10 ^ length ds) (pow-suc 10 (length ds))))

read_digits_start :
    (d : ℕ) (ds rest : List ℕ)
    → Digits (d ∷ ds)
    → Stops rest
    → read_digits 0 false (d ∷ ds ++ rest) ≡ some (decimal (d ∷ ds))
unfolding read_digits
read_digits_start d ds rest h s =
    rw h.0 (read_digits-decimal (0 * 10 + (d - b'0')) ds rest h.1 s ∙ ap some (omega arith))

-- A numeral that an `int` can hold is read as its value, whatever follows it.
stoi-decimal :
    (d : ℕ) (ds rest : List ℕ)
    → Digits (d ∷ ds)
    → Stops rest
    → decimal (d ∷ ds) ≤ int_max
    → stoi (d ∷ ds ++ rest) ≡ some (pos (decimal (d ∷ ds)))
unfolding stoi read_signed to_int
stoi-decimal d ds rest h s small = ground (arith, h.0, read_digits_start d ds rest h s)

stoi-decimal-all :
    (d : ℕ) (ds : List ℕ)
    → Digits (d ∷ ds)
    → decimal (d ∷ ds) ≤ int_max
    → stoi (d ∷ ds) ≡ some (pos (decimal (d ∷ ds)))
stoi-decimal-all d ds h small =
    ap (λ cs. stoi (d ∷ cs)) (sym (List.append-nil ds)) ∙ stoi-decimal d ds [] h tt small

split_dash-Digits :
    (ds rest : List ℕ)
    → Digits ds
    → split_dash (ds ++ b'-' ∷ rest) ≡ some (record { before = ds; after = rest })
unfolding split_dash
split_dash-Digits [] rest h = refl
split_dash-Digits (d ∷ ds) rest h = ground (arith, h.0, split_dash-Digits ds rest h.1)

read-int_range :
    (d e : ℕ) (ds es rest : List ℕ)
    → Digits (d ∷ ds)
    → Digits (e ∷ es)
    → Stops rest
    → decimal (d ∷ ds) ≤ int_max
    → decimal (e ∷ es) ≤ int_max
    → read_isolated_cores (d ∷ (ds ++ (b'-' ∷ (e ∷ (es ++ rest)))))
      ≡ int_range (pos (decimal (d ∷ ds))) (pos (decimal (e ∷ es)))
unfolding read_isolated_cores read_range
read-int_range d e ds es rest hd he s small_d small_e =
    rw (split_dash-Digits (d ∷ ds) (e ∷ (es ++ rest)) hd, read_isolated_cores)
      (rw (stoi-decimal-all d ds hd small_d, read_range)
        (rw (stoi-decimal e es rest he s small_e) refl))

abbrev pub range : ℕ → ℕ → List ℕ
range first zero = []
range first (suc n) = first ∷ range (first + 1) n

pos-next : (n : ℕ) → pos n +ℤ pos 1 ≡ pos (n + 1)
pos-next n = ground arith

ids_from-range : (first n : ℕ) → ids_from (pos first) n ≡ map pos (range first n)
unfolding ids_from
ids_from-range first zero = refl
ids_from-range first (suc n) =
    ap (λ i. pos first ∷ ids_from i n) (pos-next first)
    ∙ ap (◌∷◌ (pos first)) (ids_from-range (first + 1) n)

rounds-sub : (first last : ℕ) → pos_part (pos last +ℤ pos 1 -ℤ pos first) ≡ last + 1 - first
rounds-sub first last = rw (pos-next last) (ground arith)

int_range-range :
    (first last : ℕ) → int_range (pos first) (pos last) ≡ map pos (range first (last + 1 - first))
unfolding int_range
int_range-range first last =
    ap (ids_from (pos first)) (rounds-sub first last) ∙ ids_from-range first (last + 1 - first)

-- A text of two decimal numerals with a dash between them is read as all the numbers from the first
-- to the second, in order, whatever follows the second numeral, if it does not go on with a digit, if
-- an `int` can hold both, and if the second is not the greatest `int`. There are none if the first
-- number is the larger.
pub read_isolated_cores-range :
    (d e : ℕ) (ds es rest : List ℕ)
    → Digits (d ∷ ds)
    → Digits (e ∷ es)
    → Stops rest
    → decimal (d ∷ ds) ≤ int_max
    → decimal (e ∷ es) < int_max
    → read_isolated_cores (d ∷ (ds ++ (b'-' ∷ (e ∷ (es ++ rest)))))
      ≡ map pos (range (decimal (d ∷ ds)) (decimal (e ∷ es) + 1 - decimal (d ∷ ds)))
read_isolated_cores-range d e ds es rest hd he s small_d small_e =
    read-int_range d e ds es rest hd he s small_d (omega (arith, small_e))
    ∙ int_range-range (decimal (d ∷ ds)) (decimal (e ∷ es))

-- A core on which no worker runs.
abbrev pub free_core : ℕ → CpuInfo
free_core id = record { id = pos id; workers = 0 }

first_cores-range :
    (cores first n : ℕ)
    → first_cores cores (map pos (range first n)) ≡ map free_core (range first (min cores n))
unfolding first_cores
first_cores-range zero first n = rw (zero-min n) refl
first_cores-range (suc cores) first zero = rw (min-zero (suc cores)) refl
first_cores-range (suc cores) first (suc n) =
    rw (suc-min-suc cores n) (ap (◌∷◌ (free_core first)) (first_cores-range cores (first + 1) n))

succ-sub : (a b : ℕ) → a ≤ b → b + 1 - a ≡ suc (b - a)
succ-sub a b h = omega arith

get-first_cores :
    (cores : ℤ) (first n : ℕ) (line : List ℕ)
    → read_isolated_cores line ≡ map pos (range first (suc n))
    → get_isolated_cpus (some line) cores
      ≡ some (map free_core (range first (min (pos_part cores) (suc n))))
unfolding get_isolated_cpus
get-first_cores cores first n line e =
    rw (e, get_isolated_cpus) (ap some (first_cores-range (pos_part cores) first (suc n)))

-- If the first line of the file is two decimal numerals with a dash between them, the first not the
-- larger and the second less than the greatest `int`, and it does not go on with a digit, the cores
-- found are the numbers from the first to the second, in order: as many as asked for (none for a
-- negative number) or as many as there are, each with no worker on it.
pub get_isolated_cpus-range :
    (cores : ℤ) (d e : ℕ) (ds es rest : List ℕ)
    → Digits (d ∷ ds)
    → Digits (e ∷ es)
    → Stops rest
    → decimal (d ∷ ds) ≤ decimal (e ∷ es)
    → decimal (e ∷ es) < int_max
    → get_isolated_cpus (some (d ∷ (ds ++ (b'-' ∷ (e ∷ (es ++ rest)))))) cores
      ≡ some (
          map free_core (
            range
              (decimal (d ∷ ds))
              (min (pos_part cores) (decimal (e ∷ es) + 1 - decimal (d ∷ ds)))))
get_isolated_cpus-range cores d e ds es rest hd he s ordered small =
    rw (succ-sub (decimal (d ∷ ds)) (decimal (e ∷ es)) ordered) (
      get-first_cores cores (decimal (d ∷ ds)) (decimal (e ∷ es) - decimal (d ∷ ds)) _ (
        read_isolated_cores-range d e ds es rest hd he s (omega arith) small
        ∙ ap (λ n. map pos (range (decimal (d ∷ ds)) n))
            (succ-sub (decimal (d ∷ ds)) (decimal (e ∷ es)) ordered)))
