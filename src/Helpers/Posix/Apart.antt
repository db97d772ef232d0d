-- ===== src/Helpers/Posix/Apart.antt =====
-- About two barriers of POSIX threads in one program, whose semaphores have the same names
-- (src/worker_pool_implementation.h, src/thread_helpers_posix.cpp).
use twine.Prelude.{ℕ, ◌≡◌, ◌≢◌, true, false, arith}
use twine.Helpers.{Pthread, NamedSemaphores, PosixState, posix_helper}
use twine.Helpers.Barriers.{Parts, built, make_barrier, destroy_barrier}
use twine.Helpers.Posix.{View, IsPosix}
use twine.Helpers.Posix.Building.{make_barrier-Holds}
use twine.Helpers.Posix.Destroying.{destroy_open}

-- The objects for the semaphores of the two are four.
pub record AreApart (p q : Parts) : Type 0 where
  pub own : p.sem_0 ≢ p.sem_1
  pub others : q.sem_0 ≢ q.sem_1
  pub sem_00 : p.sem_0 ≢ q.sem_0
  pub sem_01 : p.sem_0 ≢ q.sem_1
  pub sem_10 : p.sem_1 ≢ q.sem_0
  pub sem_11 : p.sem_1 ≢ q.sem_1

module _ {S : Type 0} {v : View S} {lib : Pthread S} {sems : NamedSemaphores S}
    (law : IsPosix v lib sems) where
  -- Pools do not get in each other's way, though the semaphores of all barriers have the same names: if a
  -- second barrier is built while a first one is there, and the first one is destroyed, then both
  -- semaphores of the first are closed and both of the second are still open.
  pub destroy_barrier-others :
      (p q : Parts) (s : PosixState S) {t u : PosixState S}
      → AreApart p q
      → make_barrier (posix_helper lib sems) p s ≡ built t
      → make_barrier (posix_helper lib sems) q t ≡ built u
      → (v.is_open (destroy_barrier (posix_helper lib sems) p u).system (u.semaphore_of p.sem_0)
          ≡ false)
        × (v.is_open (destroy_barrier (posix_helper lib sems) p u).system (u.semaphore_of p.sem_1)
            ≡ false)
        × (v.is_open (destroy_barrier (posix_helper lib sems) p u).system (u.semaphore_of q.sem_0)
            ≡ true)
        × (v.is_open (destroy_barrier (posix_helper lib sems) p u).system (u.semaphore_of q.sem_1)
            ≡ true)
  destroy_barrier-others p q s {t} {u} a e f =
      let h = make_barrier-Holds law p s a.own e in
      let k = make_barrier-Holds law q t a.others f in
      let same_0 = k.others p.sem_0 a.sem_00 a.sem_01 in
      let same_1 = k.others p.sem_1 a.sem_10 a.sem_11 in
      let there_0 : v.is_open t.system (t.semaphore_of p.sem_0) ≡ true =
        ground (arith, h.is_open (t.semaphore_of p.sem_0)) in
      let there_1 : v.is_open t.system (t.semaphore_of p.sem_1) ≡ true =
        ground (arith, h.is_open (t.semaphore_of p.sem_1)) in
      let distinct : u.semaphore_of p.sem_0 ≢ u.semaphore_of p.sem_1 =
        λ g. h.distinct (ground (arith, g, same_0, same_1)) in
      let open_0 : v.is_open u.system (u.semaphore_of p.sem_0) ≡ true =
        ground (arith, k.is_open (u.semaphore_of p.sem_0), same_0, there_0) in
      let open_1 : v.is_open u.system (u.semaphore_of p.sem_1) ≡ true =
        ground (arith, k.is_open (u.semaphore_of p.sem_1), same_1, there_1) in
      let after = λ (x : ℕ). destroy_open law p u x distinct open_0 open_1 in
      (
        ground (arith, after (u.semaphore_of p.sem_0)),
        ground (arith, after (u.semaphore_of p.sem_1)),
        ground (
          arith,
          after (u.semaphore_of q.sem_0),
          k.is_open (u.semaphore_of q.sem_0),
          k.fresh_0,
          there_0,
          there_1,
          same_0,
          same_1,
        ),
        ground (
          arith,
          after (u.semaphore_of q.sem_1),
          k.is_open (u.semaphore_of q.sem_1),
          k.fresh_1,
          there_0,
          there_1,
          same_0,
          same_1,
        ),
      )
