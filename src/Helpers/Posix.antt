-- ===== src/Helpers/Posix.antt =====
-- About PosixThreadHelper (src/thread_helpers_posix.cpp), as the helper of a barrier
-- (src/worker_pool_implementation.h).
pub mod Building
pub mod Destroying
pub mod Apart
use twine.Prelude.{
  ℕ, pos, ◌≡◌, ◌≢◌, refl, Bool, true, false, ◌||◌, arith, ◌==◌, eqb_ℤ, if◌then◌else◌, ◌∙◌, subst,
  ℕ_discrete,
}
use twine.Helpers.{Answer, Pthread, NamedSemaphores, Opened, sem_failed, PosixState, posix_helper}
use twine.Helpers.Barriers.{
  Parts, Built, built, create_rest, make_barrier, destroy_barrier, IsApart,
}

-- What the system has: mutexes and condition variables by their addresses, open semaphores, and the
-- names that are linked.
pub record View (S : Type 0) : Type 0 where
  pub present : S → ℕ → Bool
  pub is_open : S → ℕ → Bool
  pub linked : S → ℕ → Bool

abbrev pub put : (ℕ → Bool) → ℕ → Bool → ℕ → Bool
put f o b x = if x == o then b else f x

module _ {S : Type 0} (v : View S) where
  -- A call that leaves the semaphores alone.
  pub record IsApartFrom (f : S → ℕ → Answer S) : Type 0 where
    pub is_open : (s : S) (o x : ℕ) → v.is_open (f s o).state x ≡ v.is_open s x
    pub linked : (s : S) (o x : ℕ) → v.linked (f s o).state x ≡ v.linked s x

  -- A call that makes a mutex or a condition variable, if its result is 0.
  pub record IsInit (f : S → ℕ → Answer S) : Type 0 where
    pub frame : IsApartFrom f
    pub made :
        (s : S) (o x : ℕ)
        → v.present (f s o).state x
          ≡ (if eqb_ℤ (f s o).code (pos 0) then put (v.present s) o true x else v.present s x)

  pub record IsDestroy (f : S → ℕ → Answer S) : Type 0 where
    pub frame : IsApartFrom f
    pub ended :
        (s : S) (o x : ℕ)
        → v.present s o ≡ true
        → v.present (f s o).state x ≡ put (v.present s) o false x

  -- What the manual says of the named semaphores: to open a name that is not linked makes a semaphore,
  -- which is none of those that are open, and links it to the name; it is open until it is closed.
  pub record IsNamed (sems : NamedSemaphores S) : Type 0 where
    pub unlink_present : (s : S) (n x : ℕ) → v.present (sems.sem_unlink s n) x ≡ v.present s x
    pub unlink_open : (s : S) (n x : ℕ) → v.is_open (sems.sem_unlink s n) x ≡ v.is_open s x
    pub unlink_linked :
        (s : S) (n x : ℕ) → v.linked (sems.sem_unlink s n) x ≡ put (v.linked s) n false x
    pub open_present : (s : S) (n x : ℕ) → v.present (sems.sem_open s n).state x ≡ v.present s x
    pub open_errno :
        (s : S) (n : ℕ) → (sems.sem_open s n).semaphore ≡ sem_failed → (sems.sem_open s n).errno ≢ 0
    pub opened :
        (s : S) (n : ℕ)
        → (sems.sem_open s n).semaphore ≢ sem_failed
        → v.linked s n ≡ false
        → v.is_open s (sems.sem_open s n).semaphore ≡ false
    pub open_open :
        (s : S) (n x : ℕ)
        → (sems.sem_open s n).semaphore ≢ sem_failed
        → v.is_open (sems.sem_open s n).state x
          ≡ put (v.is_open s) (sems.sem_open s n).semaphore true x
    pub open_linked :
        (s : S) (n x : ℕ)
        → (sems.sem_open s n).semaphore ≢ sem_failed
        → v.linked (sems.sem_open s n).state x ≡ put (v.linked s) n true x
    pub close_present : (s : S) (h x : ℕ) → v.present (sems.sem_close s h) x ≡ v.present s x
    pub close_open :
        (s : S) (h x : ℕ)
        → v.is_open s h ≡ true
        → v.is_open (sems.sem_close s h) x ≡ put (v.is_open s) h false x
    pub close_linked : (s : S) (h x : ℕ) → v.linked (sems.sem_close s h) x ≡ v.linked s x

  pub record IsPosix (lib : Pthread S) (sems : NamedSemaphores S) : Type 0 where
    pub named : IsNamed sems
    pub mutex_init : IsInit lib.mutex_init
    pub mutex_destroy : IsDestroy lib.mutex_destroy
    pub cond_init : IsInit lib.cond_init
    pub cond_destroy : IsDestroy lib.cond_destroy

  -- What a successful creation of a semaphore has done.
  pub record Creates (s t : PosixState S) (o n : ℕ) : Type 0 where
    pub present : (x : ℕ) → v.present t.system x ≡ v.present s.system x
    pub fresh : v.is_open s.system (t.semaphore_of o) ≡ false
    pub is_open :
        (x : ℕ) → v.is_open t.system x ≡ put (v.is_open s.system) (t.semaphore_of o) true x
    pub linked : (x : ℕ) → v.linked t.system x ≡ put (v.linked s.system) n true x
    pub others : (x : ℕ) → x ≢ o → t.semaphore_of x ≡ s.semaphore_of x

  -- What the constructor of a barrier has made of its two semaphores.
  pub record Holds (p : Parts) (s t : PosixState S) : Type 0 where
    pub fresh_0 : v.is_open s.system (t.semaphore_of p.sem_0) ≡ false
    pub fresh_1 : v.is_open s.system (t.semaphore_of p.sem_1) ≡ false
    pub distinct : t.semaphore_of p.sem_0 ≢ t.semaphore_of p.sem_1
    pub is_open :
        (x : ℕ)
        → v.is_open t.system x ≡ (
            if x == t.semaphore_of p.sem_0 || x == t.semaphore_of p.sem_1
            then true
            else v.is_open s.system x)
    pub linked :
        (x : ℕ)
        → v.linked t.system x
          ≡ (if x == p.sem_0_name || x == p.sem_1_name then true else v.linked s.system x)
    pub present :
        (x : ℕ)
        → x ≢ p.calling_mutex
        → x ≢ p.calling_cond
        → v.present t.system x ≡ v.present s.system x
    pub others : (x : ℕ) → x ≢ p.sem_0 → x ≢ p.sem_1 → t.semaphore_of x ≡ s.semaphore_of x
