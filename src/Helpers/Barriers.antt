-- ===== src/Helpers/Barriers.antt =====
-- The constructor and the destructor of BarrierWithTrigger (src/worker_pool_implementation.h), for any
-- thread helper.
use twine.Prelude.{
  ℕ, ℤ, pos, ◌≡◌, ◌≢◌, inl, inr, Bool, true, false, ◌||◌, arith, ◌==◌, eqb_ℤ, Bool-cases,
  if◌then◌else◌,
}
use twine.Helpers.{ThreadHelper}

-- The addresses of the parts of a barrier and of their names: "/twine-barrier-sem-0" and so on.
pub record Parts : Type 0 where
  pub sem_0 : ℕ
  pub sem_1 : ℕ
  pub calling_mutex : ℕ
  pub calling_cond : ℕ
  pub sem_0_name : ℕ
  pub sem_1_name : ℕ
  pub mutex_name : ℕ
  pub cond_name : ℕ

-- The barrier exists, or its constructor has thrown the text of an error number.
pub data Built (S : Type 0) : Type 0 where
  built : S → Built S
  thrown : S → (res : ℤ) → Built S

module _ {S : Type 0} (helper : ThreadHelper S) (p : Parts) where
  -- What follows the two semaphores: both results are left aside.
  abbrev pub create_rest : S → S
  create_rest s =
      let mutex = helper.mutex_create s p.calling_mutex p.mutex_name in
      (helper.condition_var_create mutex.state p.calling_cond p.cond_name).state

  abbrev create_second : S → Built S
  create_second s =
      let second = helper.semaphore_create s p.sem_1 p.sem_1_name in
      if eqb_ℤ second.code (pos 0)
      then built (create_rest second.state)
      else thrown second.state second.code

  unfoldable pub make_barrier : S → Built S
  make_barrier s =
      let first = helper.semaphore_create s p.sem_0 p.sem_0_name in
      if eqb_ℤ first.code (pos 0) then create_second first.state else thrown first.state first.code

  unfoldable pub destroy_barrier : S → S
  destroy_barrier s =
      let mutex = helper.mutex_destroy s p.calling_mutex in
      let cond = helper.condition_var_destroy mutex.state p.calling_cond in
      let first = helper.semaphore_destroy cond.state p.sem_0 p.sem_0_name in
      (helper.semaphore_destroy first.state p.sem_1 p.sem_1_name).state

-- What a client may expect of a helper: `alive` tells which objects the system holds. A creation makes
-- its object alive if its result is 0, and does nothing else; the destruction of an object that is alive
-- ends it, and does nothing else.
pub record IsExact {S : Type 0} (helper : ThreadHelper S) (alive : S → ℕ → Bool) : Type 0 where
  pub sem_made :
      (s : S) (o n x : ℕ)
      → alive (helper.semaphore_create s o n).state x ≡ (
          if eqb_ℤ (helper.semaphore_create s o n).code (pos 0)
          then if x == o then true else alive s x
          else alive s x)
  pub mutex_made :
      (s : S) (o n x : ℕ)
      → alive (helper.mutex_create s o n).state x ≡ (
          if eqb_ℤ (helper.mutex_create s o n).code (pos 0)
          then if x == o then true else alive s x
          else alive s x)
  pub cond_made :
      (s : S) (o n x : ℕ)
      → alive (helper.condition_var_create s o n).state x ≡ (
          if eqb_ℤ (helper.condition_var_create s o n).code (pos 0)
          then if x == o then true else alive s x
          else alive s x)
  pub sem_ended :
      (s : S) (o n x : ℕ)
      → alive s o ≡ true
      → alive (helper.semaphore_destroy s o n).state x ≡ (if x == o then false else alive s x)
  pub mutex_ended :
      (s : S) (o x : ℕ)
      → alive s o ≡ true
      → alive (helper.mutex_destroy s o).state x ≡ (if x == o then false else alive s x)
  pub cond_ended :
      (s : S) (o x : ℕ)
      → alive s o ≡ true
      → alive (helper.condition_var_destroy s o).state x ≡ (if x == o then false else alive s x)

-- The four objects are at different addresses.
pub record IsApart (p : Parts) : Type 0 where
  pub sems : p.sem_0 ≢ p.sem_1
  pub sem_0_mutex : p.sem_0 ≢ p.calling_mutex
  pub sem_0_cond : p.sem_0 ≢ p.calling_cond
  pub sem_1_mutex : p.sem_1 ≢ p.calling_mutex
  pub sem_1_cond : p.sem_1 ≢ p.calling_cond
  pub mutex_cond : p.calling_mutex ≢ p.calling_cond

abbrev pub is_part : Parts → ℕ → Bool
is_part p x = x == p.sem_0 || x == p.sem_1 || x == p.calling_mutex || x == p.calling_cond

module _ {S : Type 0} (helper : ThreadHelper S) (alive : S → ℕ → Bool)
    (v : IsExact helper alive) where
  destroy_alive :
      (p : Parts) (t : S) (x : ℕ)
      → IsApart p
      → alive t p.sem_0 ≡ true
      → alive t p.sem_1 ≡ true
      → alive t p.calling_mutex ≡ true
      → alive t p.calling_cond ≡ true
      → alive (destroy_barrier helper p t) x ≡ (if is_part p x then false else alive t x)
  unfolding destroy_barrier
  destroy_alive p t x a h0 h1 hm hc =
      let mutex = (helper.mutex_destroy t p.calling_mutex).state in
      let cond = (helper.condition_var_destroy mutex p.calling_cond).state in
      let first = (helper.semaphore_destroy cond p.sem_0 p.sem_0_name).state in
      let m0 : alive mutex p.sem_0 ≡ true =
        ground (arith, v.mutex_ended t p.calling_mutex p.sem_0 hm, h0, a.sem_0_mutex) in
      let m1 : alive mutex p.sem_1 ≡ true =
        ground (arith, v.mutex_ended t p.calling_mutex p.sem_1 hm, h1, a.sem_1_mutex) in
      let mc : alive mutex p.calling_cond ≡ true =
        ground (arith, v.mutex_ended t p.calling_mutex p.calling_cond hm, hc, a.mutex_cond) in
      let c0 : alive cond p.sem_0 ≡ true =
        ground (arith, v.cond_ended mutex p.calling_cond p.sem_0 mc, m0, a.sem_0_cond) in
      let c1 : alive cond p.sem_1 ≡ true =
        ground (arith, v.cond_ended mutex p.calling_cond p.sem_1 mc, m1, a.sem_1_cond) in
      let f1 : alive first p.sem_1 ≡ true =
        ground (arith, v.sem_ended cond p.sem_0 p.sem_0_name p.sem_1 c0, c1, a.sems) in
      ground (
        arith,
        v.mutex_ended t p.calling_mutex x hm,
        v.cond_ended mutex p.calling_cond x mc,
        v.sem_ended cond p.sem_0 p.sem_0_name x c0,
        v.sem_ended first p.sem_1 p.sem_1_name x f1,
      )

  rest_alive :
      (p : Parts) (s : S) (x : ℕ)
      → x ≢ p.calling_mutex
      → x ≢ p.calling_cond
      → alive (create_rest helper p s) x ≡ alive s x
  rest_alive p s x m c =
      let mutex = (helper.mutex_create s p.calling_mutex p.mutex_name).state in
      ground (
        arith,
        v.mutex_made s p.calling_mutex p.mutex_name x,
        v.cond_made mutex p.calling_cond p.cond_name x,
        m,
        c,
      )

  built_alive :
      (p : Parts) (s : S) {t : S} (x : ℕ)
      → make_barrier helper p s ≡ built t
      → x ≢ p.calling_mutex
      → x ≢ p.calling_cond
      → alive t x ≡ (if x == p.sem_0 || x == p.sem_1 then true else alive s x)
  unfolding make_barrier
  built_alive p s {t} x e m c =
      let first = helper.semaphore_create s p.sem_0 p.sem_0_name in
      let second = helper.semaphore_create first.state p.sem_1 p.sem_1_name in
      ground (
        arith,
        e,
        v.sem_made s p.sem_0 p.sem_0_name x,
        v.sem_made first.state p.sem_1 p.sem_1_name x,
        rest_alive p second.state x m c,
      )

  -- The destructor undoes the constructor: if none of the four objects existed before, at four different
  -- addresses, and the constructor has not thrown and has made also the mutex and the condition variable,
  -- of which it does not make sure, then after both exactly those objects exist that existed before.
  pub destroy_barrier-make_barrier :
      (p : Parts) (s : S) {t : S} (x : ℕ)
      → IsApart p
      → ((o : ℕ) → is_part p o ≡ true → alive s o ≡ false)
      → make_barrier helper p s ≡ built t
      → alive t p.calling_mutex ≡ true
      → alive t p.calling_cond ≡ true
      → alive (destroy_barrier helper p t) x ≡ alive s x
  destroy_barrier-make_barrier p s {t} x a none_yet e hm hc =
      let h0 : alive t p.sem_0 ≡ true =
        ground (arith, built_alive p s p.sem_0 e a.sem_0_mutex a.sem_0_cond) in
      let h1 : alive t p.sem_1 ≡ true =
        ground (arith, built_alive p s p.sem_1 e a.sem_1_mutex a.sem_1_cond) in
      let ended = destroy_alive p t x a h0 h1 hm hc in
      elim (Bool-cases (is_part p x)) [
        | inl part ↦ ground (arith, ended, part, none_yet x part)
        | inr other ↦
            let same =
              built_alive p s x e (λ q. ground (arith, other, q)) (λ q. ground (arith, other, q)) in
            ground (arith, ended, other, same)
      ]
