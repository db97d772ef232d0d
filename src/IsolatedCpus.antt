-- ===== src/IsolatedCpus.antt =====
-- src/worker_pool_implementation.h: `read_isolated_cores` and `get_isolated_cpus`, which find the cores
-- that the kernel keeps for the realtime threads of an EVL build. A text is the list of its bytes.
pub mod Ranges
pub mod Pools
mod Examples
use twine.Prelude.{
  ℕ, zero, suc, ◌+◌, ◌-◌, ◌*◌, Bool, true, false, ◌&&◌, ◌||◌, Option, none, some, List, [], ◌∷◌,
  leb, ◌==◌, if◌then◌else◌, ℤ, pos, negsuc, pos_part, neg_part, ◌+ℤ◌, ◌-ℤ◌, sub_ℕ,
}
use twine.Cores.{CpuInfo, build_core_list}

abbrev pub is_digit : ℕ → Bool
is_digit c = leb b'0' c && leb c b'9'

is_space : ℕ → Bool
is_space c = c == 32 || leb 9 c && leb c 13

abbrev pub int_max : ℕ
int_max = 2147483647

-- std::stoi: the digits that follow, as far as they go. `none` is an exception: there is no digit.
read_digits : ℕ → Bool → List ℕ → Option ℕ
read_digits acc seen [] = if seen then some acc else none
read_digits acc seen (c ∷ cs) =
    let rest = read_digits (acc * 10 + (c - b'0')) true cs in
    if is_digit c then rest else if seen then some acc else none

-- An `int`, or the exception that the value is out of range.
to_int : Bool → ℕ → Option ℤ
to_int negative n =
    if negative
    then (if leb n (int_max + 1) then some (sub_ℕ 0 n) else none)
    else if leb n int_max
    then some (pos n)
    else none

read_signed : Bool → List ℕ → Option ℤ
unfolding read_digits to_int
read_signed negative cs = elim (read_digits 0 false cs) [ none ↦ none | some n ↦ to_int negative n ]

-- White space, a sign, digits; what follows the digits is not looked at.
pub stoi : List ℕ → Option ℤ
unfolding read_signed is_space
stoi [] = none
stoi (c ∷ cs) =
    let rest = stoi cs in
    if is_space c
    then rest
    else if c == b'-'
    then read_signed true cs
    else if c == b'+'
    then read_signed false cs
    else read_signed false (c ∷ cs)

pub record Split : Type 0 where
  pub before : List ℕ
  pub after : List ℕ

-- `str.find('-')`, with the two `substr` that follow it.
split_dash : List ℕ → Option Split
split_dash [] = none
split_dash (c ∷ cs) = elim (c == b'-') [
  | true ↦ some (record { before = []; after = cs })
  | false ↦ elim (split_dash cs) [
    | none ↦ none
    | some s ↦ some (record { before = c ∷ s.before; after = s.after })
  ]
]

ids_from : ℤ → ℕ → List ℤ
ids_from i zero = []
ids_from i (suc rounds) = i ∷ ids_from (i +ℤ pos 1) rounds

-- for (int i = first; i <= last; ++i) list.push_back(i); with a `last` that is the greatest `int`, the
-- increment overflows in the code: what is said of the ranges leaves that number out.
pub int_range : ℤ → ℤ → List ℤ
unfolding ids_from
int_range first last = ids_from first (pos_part (last +ℤ pos 1 -ℤ first))

read_range : Split → List ℤ
unfolding stoi int_range
read_range s = elim (stoi s.before) [
  | none ↦ []
  | some first ↦ elim (stoi s.after) [ none ↦ [] | some last ↦ int_range first last ]
]

-- An exception of `stoi` gives the empty list, as a text without a dash does.
unfoldable pub read_isolated_cores : List ℕ → List ℤ
unfolding split_dash read_range
read_isolated_cores str = elim (split_dash str) [ none ↦ [] | some s ↦ read_range s ]

-- The first of the cores, `rounds` of them at most.
unfoldable pub first_cores : ℕ → List ℤ → List CpuInfo
first_cores zero ids = []
first_cores (suc rounds) [] = []
first_cores (suc rounds) (id ∷ ids) = record { id = id; workers = 0 } ∷ first_cores rounds ids

-- `line` is the first line of the file, or `none` if the file cannot be opened.
unfoldable pub get_isolated_cpus : Option (List ℕ) → ℤ → Option (List CpuInfo)
unfolding first_cores
get_isolated_cpus none cores = none
get_isolated_cpus (some line) cores = elim (read_isolated_cores line) [
  | [] ↦ none
  | id ∷ ids ↦ some (first_cores (pos_part cores) (id ∷ ids))
]

-- The cores of a pool in an EVL build.
unfoldable pub evl_cores : Option (List ℕ) → ℤ → List CpuInfo
evl_cores line cores = elim (get_isolated_cpus line cores) [
  | none ↦ build_core_list (pos 0) cores
  | some list ↦ list
]
