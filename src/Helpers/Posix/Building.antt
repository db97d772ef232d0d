-- ===== src/Helpers/Posix/Building.antt =====
-- About the constructor of BarrierWithTrigger (src/worker_pool_implementation.h) with a PosixThreadHelper
-- (src/thread_helpers_posix.cpp).
use twine.Prelude.{ℕ, pos, ◌≡◌, ◌≢◌, refl, true, false, arith, eqb_ℤ, ◌∙◌, subst}
use twine.Helpers.{Pthread, NamedSemaphores, sem_failed, PosixState, posix_helper}
use twine.Helpers.Barriers.{Parts, built, create_rest, make_barrier}
use twine.Helpers.Posix.{View, IsPosix, Creates, Holds}

module _ {S : Type 0} {v : View S} {lib : Pthread S} {sems : NamedSemaphores S}
    (law : IsPosix v lib sems) where
  create-Creates :
      (s : PosixState S) (o n : ℕ)
      → eqb_ℤ ((posix_helper lib sems).semaphore_create s o n).code (pos 0) ≡ true
      → Creates v s ((posix_helper lib sems).semaphore_create s o n).state o n
  unfolding posix_helper
  create-Creates s o n fine =
      let named = law.named in
      let cut = sems.sem_unlink s.system n in
      let ok : (sems.sem_open cut n).semaphore ≢ sem_failed =
        λ bad. absurd (ground (arith, bad, fine, named.open_errno cut n bad)) in
      let free : v.linked cut n ≡ false = ground (arith, named.unlink_linked s.system n n) in
      record {
        present = λ x. named.open_present cut n x ∙ named.unlink_present s.system n x;
        fresh = ground (
          arith,
          named.opened cut n ok free,
          named.unlink_open s.system n (sems.sem_open cut n).semaphore,
        );
        is_open = λ x. ground (arith, named.open_open cut n x ok, named.unlink_open s.system n x);
        linked =
            λ x. ground (arith, named.open_linked cut n x ok, named.unlink_linked s.system n x);
        others = λ x other. ground (arith, other);
      }

  rest_frame :
      (p : Parts) (u : PosixState S) (x : ℕ)
      → (v.is_open (create_rest (posix_helper lib sems) p u).system x ≡ v.is_open u.system x)
        × (v.linked (create_rest (posix_helper lib sems) p u).system x ≡ v.linked u.system x)
        × ((create_rest (posix_helper lib sems) p u).semaphore_of x ≡ u.semaphore_of x)
  unfolding posix_helper
  rest_frame p u x =
      let mutex = (lib.mutex_init u.system p.calling_mutex).state in
      (
        law.cond_init.frame.is_open mutex p.calling_cond x
            ∙ law.mutex_init.frame.is_open u.system p.calling_mutex x,
        law.cond_init.frame.linked mutex p.calling_cond x
            ∙ law.mutex_init.frame.linked u.system p.calling_mutex x,
        refl,
      )

  rest_present :
      (p : Parts) (u : PosixState S) (x : ℕ)
      → x ≢ p.calling_mutex
      → x ≢ p.calling_cond
      → v.present (create_rest (posix_helper lib sems) p u).system x ≡ v.present u.system x
  unfolding posix_helper
  rest_present p u x m c =
      let mutex = (lib.mutex_init u.system p.calling_mutex).state in
      ground (
        arith,
        law.mutex_init.made u.system p.calling_mutex x,
        law.cond_init.made mutex p.calling_cond x,
        m,
        c,
      )

  -- The two creations that come before it have succeeded.
  make_barrier-steps :
      (p : Parts) (s : PosixState S) {t : PosixState S}
      → make_barrier (posix_helper lib sems) p s ≡ built t
      → (a : PosixState S) × (b : PosixState S) × Creates v s a p.sem_0 p.sem_0_name
        × Creates v a b p.sem_1 p.sem_1_name
        × (create_rest (posix_helper lib sems) p b ≡ t)
  unfolding make_barrier
  make_barrier-steps p s e =
      let helper = posix_helper lib sems in
      let first = helper.semaphore_create s p.sem_0 p.sem_0_name in
      let second = helper.semaphore_create first.state p.sem_1 p.sem_1_name in
      (
        first.state,
        second.state,
        create-Creates s p.sem_0 p.sem_0_name (ground (arith, e)),
        create-Creates first.state p.sem_1 p.sem_1_name (ground (arith, e)),
        ground (arith, e),
      )

  built_frame :
      (p : Parts) (b : PosixState S) {t : PosixState S} (x : ℕ)
      → create_rest (posix_helper lib sems) p b ≡ t
      → (v.is_open t.system x ≡ v.is_open b.system x)
        × (v.linked t.system x ≡ v.linked b.system x)
        × (t.semaphore_of x ≡ b.semaphore_of x)
  built_frame p b x end =
      subst
        (λ t.
          (v.is_open t.system x ≡ v.is_open b.system x)
          × (v.linked t.system x ≡ v.linked b.system x)
          × (t.semaphore_of x ≡ b.semaphore_of x))
        end (rest_frame p b x)

  pub make_barrier-Holds :
      (p : Parts) (s : PosixState S) {t : PosixState S}
      → p.sem_0 ≢ p.sem_1
      → make_barrier (posix_helper lib sems) p s ≡ built t
      → Holds v p s t
  make_barrier-Holds p s {t} apart e =
      let (a, b, one, two, end) = make_barrier-steps p s e in
      let h0 : t.semaphore_of p.sem_0 ≡ a.semaphore_of p.sem_0 =
        (built_frame p b p.sem_0 end).2 ∙ two.others p.sem_0 apart in
      let h1 : t.semaphore_of p.sem_1 ≡ b.semaphore_of p.sem_1 = (built_frame p b p.sem_1 end).2 in
      record {
        fresh_0 = ground (arith, h0, one.fresh);
        fresh_1 = ground (arith, h1, two.fresh, one.is_open (b.semaphore_of p.sem_1));
        distinct = λ q. ground (arith, h0, h1, q, two.fresh, one.is_open (b.semaphore_of p.sem_1));
        is_open =
            λ x. ground (arith, h0, h1, (built_frame p b x end).0, two.is_open x, one.is_open x);
        linked = λ x. ground (arith, (built_frame p b x end).1, two.linked x, one.linked x);
        present = λ x m c.
            subst (λ t. v.present t.system x ≡ v.present s.system x) end
              (rest_present p b x m c ∙ two.present x ∙ one.present x);
        others = λ x n0 n1. (built_frame p b x end).2 ∙ two.others x n1 ∙ one.others x n0;
      }
