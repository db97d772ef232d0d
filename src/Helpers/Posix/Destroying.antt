-- ===== src/Helpers/Posix/Destroying.antt =====
-- About the destructor of BarrierWithTrigger (src/worker_pool_implementation.h) with a PosixThreadHelper
-- (src/thread_helpers_posix.cpp).
use twine.Prelude.{
  ℕ, ◌≡◌, ◌≢◌, Bool, true, false, ◌||◌, arith, ◌==◌, if◌then◌else◌, ◌∙◌, ℕ_discrete,
}
use twine.Helpers.{Pthread, NamedSemaphores, PosixState, posix_helper}
use twine.Helpers.Barriers.{Parts, built, make_barrier, destroy_barrier, IsApart}
use twine.Helpers.Posix.{View, IsPosix}
use twine.Helpers.Posix.Building.{make_barrier-Holds}

module _ {S : Type 0} {v : View S} {lib : Pthread S} {sems : NamedSemaphores S}
    (law : IsPosix v lib sems) where
  destroy_present :
      (p : Parts) (t : PosixState S) (x : ℕ)
      → p.calling_mutex ≢ p.calling_cond
      → v.present t.system p.calling_mutex ≡ true
      → v.present t.system p.calling_cond ≡ true
      → v.present (destroy_barrier (posix_helper lib sems) p t).system x
        ≡ (if x == p.calling_mutex || x == p.calling_cond then false else v.present t.system x)
  unfolding destroy_barrier posix_helper
  destroy_present p t x apart m c =
      let named = law.named in
      let mutex = (lib.mutex_destroy t.system p.calling_mutex).state in
      let cond = (lib.cond_destroy mutex p.calling_cond).state in
      let cut_0 = sems.sem_unlink cond p.sem_0_name in
      let closed_0 = sems.sem_close cut_0 (t.semaphore_of p.sem_0) in
      let cut_1 = sems.sem_unlink closed_0 p.sem_1_name in
      let still : v.present mutex p.calling_cond ≡ true =
        ground
          (arith, law.mutex_destroy.ended t.system p.calling_mutex p.calling_cond m, c, apart) in
      let after : v.present (sems.sem_close cut_1 (t.semaphore_of p.sem_1)) x ≡ v.present cond x =
        named.close_present cut_1 (t.semaphore_of p.sem_1) x
        ∙ named.unlink_present closed_0 p.sem_1_name x
        ∙ named.close_present cut_0 (t.semaphore_of p.sem_0) x
        ∙ named.unlink_present cond p.sem_0_name x in
      ground (
        arith,
        after,
        law.mutex_destroy.ended t.system p.calling_mutex x m,
        law.cond_destroy.ended mutex p.calling_cond x still,
      )

  pub destroy_open :
      (p : Parts) (t : PosixState S) (x : ℕ)
      → t.semaphore_of p.sem_0 ≢ t.semaphore_of p.sem_1
      → v.is_open t.system (t.semaphore_of p.sem_0) ≡ true
      → v.is_open t.system (t.semaphore_of p.sem_1) ≡ true
      → v.is_open (destroy_barrier (posix_helper lib sems) p t).system x ≡ (
          if x == t.semaphore_of p.sem_0 || x == t.semaphore_of p.sem_1
          then false
          else v.is_open t.system x)
  unfolding destroy_barrier posix_helper
  destroy_open p t x apart h0 h1 =
      let named = law.named in
      let mutex = (lib.mutex_destroy t.system p.calling_mutex).state in
      let cond = (lib.cond_destroy mutex p.calling_cond).state in
      let cut_0 = sems.sem_unlink cond p.sem_0_name in
      let closed_0 = sems.sem_close cut_0 (t.semaphore_of p.sem_0) in
      let cut_1 = sems.sem_unlink closed_0 p.sem_1_name in
      let before = λ (y : ℕ).
        named.unlink_open cond p.sem_0_name y
        ∙ law.cond_destroy.frame.is_open mutex p.calling_cond y
        ∙ law.mutex_destroy.frame.is_open t.system p.calling_mutex y in
      let close_0 = λ (y : ℕ).
        named.close_open cut_0 (t.semaphore_of p.sem_0) y (before (t.semaphore_of p.sem_0) ∙ h0) in
      let still : v.is_open cut_1 (t.semaphore_of p.sem_1) ≡ true = ground (
        arith,
        named.unlink_open closed_0 p.sem_1_name (t.semaphore_of p.sem_1),
        close_0 (t.semaphore_of p.sem_1),
        before (t.semaphore_of p.sem_1),
        apart,
        h1,
      ) in
      ground (
        arith,
        named.close_open cut_1 (t.semaphore_of p.sem_1) x still,
        named.unlink_open closed_0 p.sem_1_name x,
        close_0 x,
        before x,
      )

  destroy_linked :
      (p : Parts) (t : PosixState S) (x : ℕ)
      → v.linked (destroy_barrier (posix_helper lib sems) p t).system x
        ≡ (if x == p.sem_0_name || x == p.sem_1_name then false else v.linked t.system x)
  unfolding destroy_barrier posix_helper
  destroy_linked p t x =
      let named = law.named in
      let mutex = (lib.mutex_destroy t.system p.calling_mutex).state in
      let cond = (lib.cond_destroy mutex p.calling_cond).state in
      let cut_0 = sems.sem_unlink cond p.sem_0_name in
      let closed_0 = sems.sem_close cut_0 (t.semaphore_of p.sem_0) in
      let cut_1 = sems.sem_unlink closed_0 p.sem_1_name in
      ground (
        arith,
        named.close_linked cut_1 (t.semaphore_of p.sem_1) x,
        named.unlink_linked closed_0 p.sem_1_name x,
        named.close_linked cut_0 (t.semaphore_of p.sem_0) x,
        named.unlink_linked cond p.sem_0_name x,
        law.cond_destroy.frame.linked mutex p.calling_cond x,
        law.mutex_destroy.frame.linked t.system p.calling_mutex x,
      )

  kept_present :
      (p : Parts) (s t : PosixState S) (x : ℕ) {b : Bool}
      → v.present s.system p.calling_mutex ≡ false
      → v.present s.system p.calling_cond ≡ false
      → (x ≢ p.calling_mutex → x ≢ p.calling_cond → v.present t.system x ≡ v.present s.system x)
      → b ≡ (if x == p.calling_mutex || x == p.calling_cond then false else v.present t.system x)
      → b ≡ v.present s.system x
  kept_present p s t x no_mutex no_cond same e = elim (ℕ_discrete x p.calling_mutex) [
    | yes m ↦ ground (arith, e, m, no_mutex)
    | no m ↦ elim (ℕ_discrete x p.calling_cond) [
      | yes c ↦ ground (arith, e, c, no_cond)
      | no c ↦ ground (arith, e, same m c)
    ]
  ]

  -- The destructor of a barrier of POSIX threads undoes the constructor, except that the two names are not
  -- linked after it, whatever they were linked to before it: if the objects of the barrier are at different
  -- addresses, and there was neither a mutex nor a condition variable at theirs, and if the constructor has
  -- not thrown and has made also those two, of which it does not make sure, then after both there are the
  -- same mutexes and condition variables as before, and the same semaphores are open.
  pub destroy_barrier-make_barrier_posix :
      (p : Parts) (s : PosixState S) {t : PosixState S} (x : ℕ)
      → IsApart p
      → make_barrier (posix_helper lib sems) p s ≡ built t
      → v.present s.system p.calling_mutex ≡ false
      → v.present s.system p.calling_cond ≡ false
      → v.present t.system p.calling_mutex ≡ true
      → v.present t.system p.calling_cond ≡ true
      → (v.present (destroy_barrier (posix_helper lib sems) p t).system x ≡ v.present s.system x)
        × (v.is_open (destroy_barrier (posix_helper lib sems) p t).system x ≡ v.is_open s.system x)
        × (v.linked (destroy_barrier (posix_helper lib sems) p t).system x
            ≡ (if x == p.sem_0_name || x == p.sem_1_name then false else v.linked s.system x))
  destroy_barrier-make_barrier_posix p s {t} x apart e no_mutex no_cond mutex cond =
      let h = make_barrier-Holds law p s apart.sems e in
      let there = h.present x in
      let open_0 : v.is_open t.system (t.semaphore_of p.sem_0) ≡ true =
        ground (arith, h.is_open (t.semaphore_of p.sem_0)) in
      let open_1 : v.is_open t.system (t.semaphore_of p.sem_1) ≡ true =
        ground (arith, h.is_open (t.semaphore_of p.sem_1)) in
      (
        kept_present p s t x no_mutex no_cond there
            (destroy_present p t x apart.mutex_cond mutex cond),
        ground
            (arith, destroy_open p t x h.distinct open_0 open_1, h.is_open x, h.fresh_0, h.fresh_1),
        ground (arith, destroy_linked p t x, h.linked x),
      )
