-- ===== src/Cores/Usage.antt =====
-- About the choice of a core in `add_worker` (src/worker_pool_implementation.h): the usage of the
-- cores.
use twine.Prelude.{
  ℕ, zero, suc, ◌+◌, ◌≡◌, ◌<◌, ◌≤◌, ◌⊎◌, inl, inr, refl, ap, some, List, [], ◌∷◌, arith, get_elem?,
  total, All, All-get, All-zip, dec_lt, lt→ltb, not_ltb, of_some, subst, sym, take,
}
use twine.Cores.{CpuInfo, least_from, least_used, add_usage, drop_usage}

abbrev pub usage : List CpuInfo → ℕ
usage = total λ c. c.workers

-- What `min_element` promises: the entry at the index is no more used than any other, and less used
-- than each before it.
pub record IsFirstLeast (cs : List CpuInfo) (best : ℕ) : Type 0 where
  pub info : CpuInfo
  pub found : get_elem? cs best ≡ some info
  pub least : All (λ c. info.workers ≤ c.workers) cs
  pub first : All (λ c. info.workers < c.workers) (take best cs)

-- The scan from index `i` on keeps the best index so far, or finds a smaller entry behind it.
abbrev Scan : ℕ → ℕ → ℕ → List CpuInfo → ℕ → Type 0
Scan best least i cs r =
    ((r ≡ best) × All (λ c. least ≤ c.workers) cs)
    ⊎ ((k : ℕ) × (info : CpuInfo) × (r ≡ i + k)
        × (get_elem? cs k ≡ some info)
        × (info.workers < least)
        × All (λ c. info.workers ≤ c.workers) cs
        × All (λ c. info.workers < c.workers) (take k cs))

least_from-Scan :
    (best least i : ℕ) (cs : List CpuInfo) → Scan best least i cs (least_from best least i cs)
unfolding least_from
least_from-Scan best least i [] = inl (refl, tt)
least_from-Scan best least i (c ∷ cs) = elim (dec_lt c.workers least) [
  | yes below ↦ rw (lt→ltb _ _ below) (elim (least_from-Scan i c.workers (i + 1) cs) [
    | inl (e, all) ↦ inr (0, c, omega (arith, e), refl, below, (omega arith, all), tt)
    | inr (k, d, e, at, lt, all, before) ↦
        inr (
          suc k,
          d,
          omega (arith, e),
          at,
          omega (arith, lt),
          (omega (arith, lt), all),
          (lt, before),
        )
  ])
  | no above ↦ rw (not_ltb _ _ above) (elim (least_from-Scan best least (i + 1) cs) [
    | inl (e, all) ↦ inl (e, (omega arith, all))
    | inr (k, d, e, at, lt, all, before) ↦
        inr (
          suc k,
          d,
          omega (arith, e),
          at,
          lt,
          (omega (arith, lt), all),
          (omega (arith, lt), before),
        )
  ])
]

-- The core that `add_worker` picks when none is asked for is the first of the least used.
pub least_used-IsFirstLeast :
    (cs : List CpuInfo) {best : ℕ} → least_used cs ≡ some best → IsFirstLeast cs best
unfolding least_used
least_used-IsFirstLeast [] e = absurd (ground arith)
least_used-IsFirstLeast (c ∷ cs) e =
    subst (IsFirstLeast (c ∷ cs)) (of_some e) (elim (least_from-Scan 0 c.workers 1 cs) [
      | inl (e, all) ↦
          rw e (record { info = c; found = refl; least = (omega arith, all); first = tt })
      | inr (k, d, e, at, lt, all, before) ↦
          let e' : least_from 0 c.workers 1 cs ≡ suc k = omega (arith, e) in
          rw e' (record {
            info = d;
            found = at;
            least = (omega (arith, lt), all);
            first = (lt, before);
          })
    ])

pub add_usage-All {ℓ} :
    (P : CpuInfo → Type ℓ) (cs : List CpuInfo) (i : ℕ) (c : CpuInfo)
    → get_elem? cs i ≡ some c
    → All P cs
    → P (record c { workers = c.workers + 1 })
    → All P (add_usage cs i)
unfolding add_usage
add_usage-All P [] i c e h p = tt
add_usage-All P (d ∷ cs) zero c e h p = (subst P (ap bump (sym (of_some e))) p, h.1)
  where
    bump : CpuInfo → CpuInfo
    bump c = record c { workers = c.workers + 1 }
add_usage-All P (d ∷ cs) (suc i) c e h p = (h.0, add_usage-All P cs i c e h.1 p)

pub usage-add_usage :
    (cs : List CpuInfo) (i : ℕ) (c : CpuInfo)
    → get_elem? cs i ≡ some c
    → usage (add_usage cs i) ≡ usage cs + 1
unfolding add_usage
usage-add_usage [] i c e = absurd (ground arith)
usage-add_usage (d ∷ cs) zero c e = omega arith
usage-add_usage (d ∷ cs) (suc i) c e = omega (arith, usage-add_usage cs i c e)

pub usage-drop_usage :
    (cs : List CpuInfo) (i : ℕ) (c : CpuInfo)
    → get_elem? cs i ≡ some c
    → drop_usage (add_usage cs i) i ≡ cs
unfolding add_usage drop_usage
usage-drop_usage [] i c e = refl
usage-drop_usage (d ∷ cs) zero c e = ground arith
usage-drop_usage (d ∷ cs) (suc i) c e = ap (◌∷◌ d) (usage-drop_usage cs i c e)

-- Each core has `m` or `m + 1` workers.
abbrev pub Level : ℕ → List CpuInfo → Type 0
Level m = All λ c. (m ≤ c.workers) × (c.workers ≤ m + 1)

-- One worker more on the least used core keeps the usage level: the cores differ by one at most.
pub least_used-Level :
    (m : ℕ) (cs : List CpuInfo) {best : ℕ}
    → Level m cs
    → least_used cs ≡ some best
    → (m' : ℕ) × Level m' (add_usage cs best)
least_used-Level m cs {best} h e =
    let v = least_used-IsFirstLeast cs e in
    let b = All-get (λ c. (m ≤ c.workers) × (c.workers ≤ m + 1)) cs best h v.found in
    elim (dec_lt m v.info.workers) [
      | yes all_above ↦ (
        suc m,
        add_usage-All _ cs best v.info v.found
            (All-zip cs h v.least (λ c a l. (omega arith, omega arith))) (omega arith, omega arith),
      )
      | no lowest ↦ (m, add_usage-All _ cs best v.info v.found h (omega arith, omega arith))
    ]
