-- ===== src/Cores/Turns.antt =====
-- About the choice of a core in `add_worker` (src/worker_pool_implementation.h): the usage of the cores
-- when they are taken in turn.
use twine.Prelude.{
  ℕ, zero, suc, ◌+◌, ◌≡◌, ◌<◌, ◌≤◌, refl, ap, subst, some, List, [], ◌∷◌, arith, length, get_elem?,
  All, All-get, dec_lt, take, of_some,
}
use twine.Cores.{CpuInfo, least_used, add_usage}
use twine.Cores.Usage.{least_used-IsFirstLeast}

-- `k` workers on each core, and one more on each of the first `r`.
unfoldable pub in_turn : (k r : ℕ) → List CpuInfo → List CpuInfo
in_turn k r [] = []
in_turn k zero (c ∷ cs) = record c { workers = k } ∷ in_turn k zero cs
in_turn k (suc r) (c ∷ cs) = record c { workers = k + 1 } ∷ in_turn k r cs

pub length-in_turn : (k r : ℕ) (cs : List CpuInfo) → length (in_turn k r cs) ≡ length cs
unfolding in_turn
length-in_turn k r [] = refl
length-in_turn k zero (c ∷ cs) = ap suc (length-in_turn k zero cs)
length-in_turn k (suc r) (c ∷ cs) = ap suc (length-in_turn k r cs)

-- A round is over when each core has had its turn.
pub in_turn-length :
    (k : ℕ) (cs : List CpuInfo) → in_turn k (length cs) cs ≡ in_turn (k + 1) zero cs
unfolding in_turn
in_turn-length k [] = refl
in_turn-length k (c ∷ cs) = ap (◌∷◌ (record c { workers = k + 1 })) (in_turn-length k cs)

pub in_turn-unused : (cs : List CpuInfo) → All (λ c. c.workers ≡ 0) cs → in_turn zero zero cs ≡ cs
unfolding in_turn
in_turn-unused [] h = refl
in_turn-unused (c ∷ cs) h = ground (arith, h.0, in_turn-unused cs h.1)

-- A core before the `r`-th has the usage of the next round.
pub in_turn-get :
    (k r : ℕ) (cs : List CpuInfo) (i : ℕ) {c : CpuInfo}
    → get_elem? (in_turn k r cs) i ≡ some c
    → (d : CpuInfo) × (get_elem? cs i ≡ some d)
      × (c.id ≡ d.id)
      × (i < r → c.workers ≡ k + 1)
      × (r < i + 1 → c.workers ≡ k)
unfolding in_turn
in_turn-get k r [] i e = absurd (ground arith)
in_turn-get k zero (c ∷ cs) zero e =
    (c, refl, ground (arith, e), (λ h. absurd (omega arith)), (λ h. ground (arith, e)))
in_turn-get k (suc r) (c ∷ cs) zero e =
    (c, refl, ground (arith, e), (λ h. ground (arith, e)), (λ h. absurd (omega arith)))
in_turn-get k zero (c ∷ cs) (suc i) e =
    let (d, at, id, before, after) = in_turn-get k zero cs i e in
    (d, at, id, (λ h. absurd (omega arith)), (λ h. after (omega arith)))
in_turn-get k (suc r) (c ∷ cs) (suc i) e =
    let (d, at, id, before, after) = in_turn-get k r cs i e in
    (d, at, id, (λ h. before (omega arith)), (λ h. after (omega arith)))

-- The core whose turn it is.
in_turn-next :
    (k r : ℕ) (cs : List CpuInfo)
    → r < length cs
    → (c : CpuInfo) × (get_elem? (in_turn k r cs) r ≡ some c) × (c.workers ≡ k)
unfolding in_turn
in_turn-next k r [] h = absurd (omega arith)
in_turn-next k zero (c ∷ cs) h = (record c { workers = k }, refl, refl)
in_turn-next k (suc r) (c ∷ cs) h = in_turn-next k r cs (omega arith)

All-take :
    (P : CpuInfo → Type 0) (cs : List CpuInfo) (n i : ℕ) {c : CpuInfo}
    → i < n
    → All P (take n cs)
    → get_elem? cs i ≡ some c
    → P c
All-take P cs zero i h all e = absurd (omega arith)
All-take P [] (suc n) i h all e = absurd (ground arith)
All-take P (c ∷ cs) (suc n) zero h all e = subst P (of_some e) all.0
All-take P (c ∷ cs) (suc n) (suc i) h all e = All-take P cs n i (omega arith) all.1 e

-- The first of the least used cores is the one whose turn it is.
pub least_used-in_turn :
    (k r : ℕ) (cs : List CpuInfo) {best : ℕ}
    → r < length cs
    → least_used (in_turn k r cs) ≡ some best
    → best ≡ r
least_used-in_turn k r cs {best} h e =
    let v = least_used-IsFirstLeast (in_turn k r cs) e in
    let (c, at, usage) = in_turn-next k r cs h in
    let (d, there, id, before, after) = in_turn-get k r cs best v.found in
    let least = All-get (λ c. v.info.workers ≤ c.workers) (in_turn k r cs) r v.least at in
    elim (dec_lt best r) [
      | yes early ↦ absurd (omega (arith, before early, least, usage))
      | no late ↦ elim (dec_lt r best) [
        | yes beyond ↦ absurd (
            omega (
              arith,
              after (omega arith),
              usage,
              All-take (λ c. v.info.workers < c.workers) (in_turn k r cs) best r beyond v.first at,
            ))
        | no here ↦ omega arith
      ]
    ]

pub add_usage-in_turn :
    (k r : ℕ) (cs : List CpuInfo)
    → r < length cs
    → add_usage (in_turn k r cs) r ≡ in_turn k (suc r) cs
unfolding in_turn add_usage
add_usage-in_turn k r [] h = absurd (omega arith)
add_usage-in_turn k zero (c ∷ cs) h = refl
add_usage-in_turn k (suc r) (c ∷ cs) h =
    ap (◌∷◌ (record c { workers = k + 1 })) (add_usage-in_turn k r cs (omega arith))
