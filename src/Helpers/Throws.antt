-- ===== src/Helpers/Throws.antt =====
-- The constructor of BarrierWithTrigger (src/worker_pool_implementation.h) that throws.
use twine.Prelude.{
  ℕ, ℤ, pos, ◌≡◌, ◌≢◌, ◌⊎◌, inl, inr, Bool, true, arith, ◌==◌, eqb_ℤ, Bool-cases, if◌then◌else◌,
}
use twine.Helpers.{ThreadHelper}
use twine.Helpers.Barriers.{Parts, thrown, make_barrier, IsExact}

module _ {S : Type 0} (helper : ThreadHelper S) (alive : S → ℕ → Bool)
    (v : IsExact helper alive) where
  -- A constructor that throws does so with the result of the semaphore that could not be made, and no
  -- destructor runs: if it is the first, there are the objects that there were before; if it is the second,
  -- the first semaphore is left behind.
  pub make_barrier-thrown :
      (p : Parts) (s : S) {t : S} {res : ℤ}
      → make_barrier helper p s ≡ thrown t res
      → (res ≢ pos 0)
        × (((res ≡ (helper.semaphore_create s p.sem_0 p.sem_0_name).code)
              × ((x : ℕ) → alive t x ≡ alive s x))
            ⊎ (((helper.semaphore_create s p.sem_0 p.sem_0_name).code ≡ pos 0)
                × (res
                    ≡ (helper.semaphore_create
                        (helper.semaphore_create s p.sem_0 p.sem_0_name).state
                        p.sem_1
                        p.sem_1_name).code)
                × ((x : ℕ) → alive t x ≡ (if x == p.sem_0 then true else alive s x))))
  unfolding make_barrier
  make_barrier-thrown p s {t} e =
      let first = helper.semaphore_create s p.sem_0 p.sem_0_name in
      let made = v.sem_made s p.sem_0 p.sem_0_name in
      let made_1 = v.sem_made first.state p.sem_1 p.sem_1_name in
      elim (Bool-cases (eqb_ℤ first.code (pos 0))) [
        | inl fine ↦ (
          (λ q. ground (arith, e, fine, q)),
          inr (
            ground (arith, fine),
            ground (arith, e, fine),
            λ x. ground (arith, e, fine, made x, made_1 x),
          ),
        )
        | inr bad ↦ (
          (λ q. ground (arith, e, bad, q)),
          inl (ground (arith, e, bad), λ x. ground (arith, e, bad, made x)),
        )
      ]
