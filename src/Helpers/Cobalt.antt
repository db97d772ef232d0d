-- ===== src/Helpers/Cobalt.antt =====
-- About CobaltThreadHelper (src/thread_helpers_cobalt.cpp), as a helper for a barrier.
use twine.Prelude.{ℕ, pos, ◌≡◌, Bool, true, false, ◌==◌, eqb_ℤ, if◌then◌else◌}
use twine.Helpers.{Answer, Pthread, CobaltSemaphores, cobalt_helper}
use twine.Helpers.Barriers.{IsExact}

module _ {S : Type 0} (alive : S → ℕ → Bool) where
  -- A call that makes the object at an address: it does so if its result is 0.
  abbrev pub Makes : (S → ℕ → Answer S) → Type 0
  Makes f =
      (s : S) (o x : ℕ)
      → alive (f s o).state x
        ≡ (if eqb_ℤ (f s o).code (pos 0) then if x == o then true else alive s x else alive s x)

  abbrev pub Ends : (S → ℕ → Answer S) → Type 0
  Ends f =
      (s : S) (o x : ℕ)
      → alive s o ≡ true
      → alive (f s o).state x ≡ (if x == o then false else alive s x)

  -- What the manual says of the calls: an object exists from a successful initialisation until it is
  -- destroyed.
  pub record IsManaged (lib : Pthread S) (sems : CobaltSemaphores S) : Type 0 where
    pub mutex_init : Makes lib.mutex_init
    pub mutex_destroy : Ends lib.mutex_destroy
    pub cond_init : Makes lib.cond_init
    pub cond_destroy : Ends lib.cond_destroy
    pub sem_init : Makes sems.sem_init
    pub sem_destroy : Ends sems.sem_destroy

  pub cobalt_helper-IsExact :
      (lib : Pthread S) (sems : CobaltSemaphores S)
      → IsManaged lib sems
      → IsExact (cobalt_helper lib sems) alive
  unfolding cobalt_helper
  cobalt_helper-IsExact lib sems v = record {
    sem_made = λ s o n x. v.sem_init s o x;
    mutex_made = λ s o n x. v.mutex_init s o x;
    cond_made = λ s o n x. v.cond_init s o x;
    sem_ended = λ s o n x. v.sem_destroy s o x;
    mutex_ended = v.mutex_destroy;
    cond_ended = v.cond_destroy;
  }
