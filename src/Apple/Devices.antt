-- ===== src/Apple/Devices.antt =====
-- About `get_device_workgroup` of src/apple_threading.cpp: which device's workgroup the search
-- gives.
use twine.Prelude.{
  ℕ, zero, suc, ◌+◌, ◌/◌, ◌<◌, ◌≡◌, ◌⊎◌, inl, inr, refl, sym, ap, ◌∙◌, subst, true, false, some,
  List, arith, if◌then◌else◌, Bool-cases,
}
use twine.Status.{AppleThreadingStatus, wg_cancelled}
use twine.Apple.{
  Device, Audio, Found, size_of_id, Named, named, unnamed, eqb_bytes, fetch_name, fetch_workgroup,
  search_from, get_device_workgroup,
}

-- The devices from `i` on, `n` of them, have names, and others than the one that is looked for.
abbrev pub Others : List ℕ → (ℕ → Device) → ℕ → ℕ → Type 0
Others device_name devices i zero = Unit {0}
Others device_name devices i (suc n) =
    ((name : List ℕ) × (fetch_name (devices i) ≡ named name) × (eqb_bytes name device_name ≡ false))
    × Others device_name devices (i + 1) n

-- The first device with the name: its index is `i + k`.
pub record IsFirstNamed (device_name : List ℕ) (devices : ℕ → Device) (i k : ℕ) : Type 0 where
  pub name : List ℕ
  pub found : fetch_name (devices (i + k)) ≡ named name
  pub same : eqb_bytes name device_name ≡ true
  pub before : Others device_name devices i k

named_cases :
    (n : Named)
    → ((name : List ℕ) × (n ≡ named name)) ⊎ ((s : AppleThreadingStatus) × (n ≡ unnamed s))
named_cases (named name) = inl (name, refl)
named_cases (unnamed s) = inr (s, refl)

add-zero : (n : ℕ) → n ≡ n + 0
add-zero n = omega arith

add-suc : (n k : ℕ) → n + 1 + k ≡ n + suc k
add-suc n k = omega arith

fetch_workgroup-index :
    (i : ℕ) (d : Device) {w : ℕ} → (fetch_workgroup i d).workgroup ≡ some w → w ≡ i
unfolding fetch_workgroup
fetch_workgroup-index i d e = ground (arith, e)

first_matches :
    (device_name : List ℕ) (devices : ℕ → Device) (i n : ℕ) (name : List ℕ) {w : ℕ}
    → fetch_name (devices i) ≡ named name
    → eqb_bytes name device_name ≡ true
    → (search_from device_name devices i (suc n)).workgroup ≡ some w
    → (k : ℕ) × (k < suc n)
      × (w ≡ i + k)
      × IsFirstNamed device_name devices i k
      × (search_from device_name devices i (suc n) ≡ fetch_workgroup w (devices w))
unfolding search_from
first_matches device_name devices i n name f same e =
    let here : search_from device_name devices i (suc n) ≡ fetch_workgroup i (devices i) =
      ground (arith, f, same) in
    let w_is = fetch_workgroup-index i (devices i) (ap (λ s. s.workgroup) (sym here) ∙ e) in
    (
      0,
      omega arith,
      w_is ∙ add-zero i,
      record {
        name = name;
        found = subst (λ j. fetch_name (devices j) ≡ named name) (add-zero i) f;
        same = same;
        before = tt;
      },
      here ∙ ap (λ j. fetch_workgroup j (devices j)) (sym w_is),
    )

-- A workgroup that is found is that of the first device with the name.
search_from-first :
    (device_name : List ℕ) (devices : ℕ → Device) (i n : ℕ) {w : ℕ}
    → (search_from device_name devices i n).workgroup ≡ some w
    → (k : ℕ) × (k < n)
      × (w ≡ i + k)
      × IsFirstNamed device_name devices i k
      × (search_from device_name devices i n ≡ fetch_workgroup w (devices w))
unfolding search_from
search_from-first device_name devices i zero e = absurd (ground (arith, e))
search_from-first device_name devices i (suc n) {w} e =
    elim (named_cases (fetch_name (devices i))) [
      | inr (s, bad) ↦ absurd (ground (arith, e, bad))
      | inl (name, f) ↦ elim (Bool-cases (eqb_bytes name device_name)) [
        | inl same ↦ first_matches device_name devices i n name f same e
        | inr other ↦
            let skip : search_from device_name devices i (suc n)
                ≡ search_from device_name devices (i + 1) n =
              ground (arith, f, other) in
            let (k, lt, at, v, end) =
              search_from-first device_name devices (i + 1) n
                (ap (λ s. s.workgroup) (sym skip) ∙ e) in
            (
              suc k,
              omega (arith, lt),
              omega (arith, at),
              record {
                name = v.name;
                found = subst (λ j. fetch_name (devices j) ≡ named v.name) (add-suc i k) v.found;
                same = v.same;
                before = ((name, f, other), v.before);
              },
              skip ∙ end,
            )
      ]
    ]

fetch_workgroup-status :
    (w : ℕ) (d : Device) {r : Found}
    → (fetch_workgroup w d).workgroup ≡ some w
    → r ≡ fetch_workgroup w d
    → r.status ≡ (if d.cancelled then wg_cancelled else AppleThreadingStatus.ok)
unfolding fetch_workgroup
fetch_workgroup-status w d e q = ground (arith, e, q)

zero-add : (k : ℕ) → 0 + k ≡ k
zero-add k = omega arith

-- When the audio system gives a workgroup, it is that of the first device with the name that was asked
-- for, one of those that the system counts, and every device before it has a name, which is another
-- one. The status is OK exactly if the workgroup is not cancelled, and else says that it is.
pub get_device_workgroup-first :
    (a : Audio) (device_name : List ℕ) {w : ℕ}
    → (get_device_workgroup a device_name).workgroup ≡ some w
    → (w < a.size / size_of_id)
      × IsFirstNamed device_name a.devices 0 w
      × ((get_device_workgroup a device_name).status
          ≡ (if (a.devices w).cancelled then wg_cancelled else AppleThreadingStatus.ok))
unfolding get_device_workgroup
get_device_workgroup-first a device_name {w} e =
    let searched : get_device_workgroup a device_name
        ≡ search_from device_name a.devices 0 (a.size / size_of_id) =
      ground (arith, e) in
    let (k, lt, at, v, end) =
      search_from-first device_name a.devices 0 (a.size / size_of_id)
        (ap (λ s. s.workgroup) (sym searched) ∙ e) in
    (
      omega (arith, at, lt),
      subst (IsFirstNamed device_name a.devices 0) (sym (at ∙ zero-add k)) v,
      fetch_workgroup-status w (a.devices w) (ap (λ s. s.workgroup) (sym (searched ∙ end)) ∙ e)
          (searched ∙ end),
    )
