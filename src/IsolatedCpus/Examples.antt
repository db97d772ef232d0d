-- ===== src/IsolatedCpus/Examples.antt =====
-- Tests of the parser: the cores that it finds in some texts.
use twine.Prelude.{◌≡◌, refl, some, [], ◌∷◌, pos, negsuc, arith, map}
use twine.IsolatedCpus.{
  read_digits, read_signed, to_int, stoi, split_dash, ids_from, int_range, read_range, is_space,
  read_isolated_cores, get_isolated_cpus,
}
use twine.IsolatedCpus.Ranges.{range, free_core, read_isolated_cores-range, get_isolated_cpus-range}

test_sign : stoi (b' ' ∷ b'-' ∷ b'7' ∷ b'x' ∷ []) ≡ some (negsuc 6)
unfolding stoi read_signed read_digits to_int is_space
test_sign = refl

-- The text "1,4-5" stands for the cores 1, 4 and 5, and is read as a range from 1.
test_list :
    read_isolated_cores (b'1' ∷ b',' ∷ b'4' ∷ b'-' ∷ b'5' ∷ [])
    ≡ pos 1 ∷ pos 2 ∷ pos 3 ∷ pos 4 ∷ pos 5 ∷ []
unfolding read_isolated_cores split_dash read_range stoi read_signed read_digits to_int int_range
    ids_from is_space
test_list = refl

test_single : read_isolated_cores (b'3' ∷ []) ≡ []
unfolding read_isolated_cores split_dash
test_single = refl

read_isolated_cores-range_example :
    read_isolated_cores (b'8' ∷ b'-' ∷ b'1' ∷ b'1' ∷ []) ≡ map pos (range 8 4)
read_isolated_cores-range_example =
    read_isolated_cores-range b'8' b'1' [] (b'1' ∷ []) [] (refl, tt) (refl, (refl, tt)) tt
      (omega arith) (omega arith)

test_get_isolated_cpus-range :
    get_isolated_cpus (some (b'8' ∷ b'-' ∷ b'1' ∷ b'1' ∷ [])) (pos 2)
    ≡ some (map free_core (8 ∷ 9 ∷ []))
test_get_isolated_cpus-range =
    get_isolated_cpus-range (pos 2) b'8' b'1' [] (b'1' ∷ []) [] (refl, tt) (refl, (refl, tt)) tt
      (omega arith) (omega arith)
