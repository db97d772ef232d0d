-- ===== src/Helpers/Evl.antt =====
-- About EvlThreadHelper (src/thread_helpers_evl.cpp): the file descriptors that its objects take.
use twine.Prelude.{
  ℕ, ◌+◌, ◌≤◌, pos, neg_part, ◌≡◌, ◌≢◌, ◌⊎◌, inl, inr, ap, arith, ltb, if◌then◌else◌,
}
use twine.Helpers.{Answer, Pthread, EvlLibrary, make_and_open, evl_helper}
use twine.Helpers.Barriers.{Parts, built, make_barrier, destroy_barrier}

module _ {S : Type 0} (descriptors : S → ℕ) where
  -- A call that gives a file descriptor, or a negative number.
  abbrev pub Opens : (S → ℕ → ℕ → Answer S) → Type 0
  Opens f =
      (s : S) (o n : ℕ)
      → descriptors (f s o n).state
        ≡ (if ltb 0 (neg_part (f s o n).code) then descriptors s else descriptors s + 1)

  -- A call that closes the one descriptor that an object keeps.
  abbrev pub Closes : (S → ℕ → Answer S) → Type 0
  Closes f = (s : S) (o : ℕ) → descriptors s ≤ descriptors (f s o).state + 1

  pub record IsCounting (evl : EvlLibrary S) : Type 0 where
    pub new_mutex : Opens evl.new_mutex
    pub open_mutex : Opens evl.open_mutex
    pub close_mutex : Closes evl.close_mutex
    pub new_event : Opens evl.new_event
    pub open_event : Opens evl.open_event
    pub close_event : Closes evl.close_event
    pub new_sem : Opens evl.new_sem
    pub open_sem : Opens evl.open_sem
    pub close_sem : Closes evl.close_sem

  -- The creation of a mutex, an event or a semaphore of EVL takes two descriptors and gives 0, or it gives
  -- a negative number, and has taken one if it is the second call that has failed.
  pub make_and_open_cases :
      (make open_made : S → ℕ → ℕ → Answer S) (s : S) (o n : ℕ)
      → Opens make
      → Opens open_made
      → (((make_and_open make open_made s o n).code ≡ pos 0)
          × (descriptors (make_and_open make open_made s o n).state ≡ descriptors s + 2))
        ⊎ ((neg_part (make_and_open make open_made s o n).code ≢ 0)
            × ((descriptors (make_and_open make open_made s o n).state ≡ descriptors s)
                ⊎ (descriptors (make_and_open make open_made s o n).state ≡ descriptors s + 1)))
  unfolding make_and_open
  make_and_open_cases make open_made s o n v w = ground (arith, v s o n, w (make s o n).state o n)

  made_twice :
      (make open_made : S → ℕ → ℕ → Answer S) (s : S) (o n : ℕ)
      → Opens make
      → Opens open_made
      → (make_and_open make open_made s o n).code ≡ pos 0
      → descriptors (make_and_open make open_made s o n).state ≡ descriptors s + 2
  made_twice make open_made s o n v w e = elim (make_and_open_cases make open_made s o n v w) [
    | inl (fine, count) ↦ count
    | inr (bad, count) ↦ absurd (bad (ap neg_part e))
  ]

  closed_once :
      (evl : EvlLibrary S) (lib : Pthread S) (p : Parts) (s : S)
      → IsCounting evl
      → descriptors s ≤ descriptors (destroy_barrier (evl_helper evl lib) p s) + 4
  unfolding destroy_barrier evl_helper
  closed_once evl lib p s v =
      let mutex = (evl.close_mutex s p.calling_mutex).state in
      let cond = (evl.close_event mutex p.calling_cond).state in
      let first = (evl.close_sem cond p.sem_0).state in
      omega (
        arith,
        v.close_mutex s p.calling_mutex,
        v.close_event mutex p.calling_cond,
        v.close_sem cond p.sem_0,
        v.close_sem first p.sem_1,
      )

  -- The state after the two semaphores, and after the mutex.
  abbrev pub after_sems : EvlLibrary S → Parts → S → S
  after_sems evl p s =
      let sem = make_and_open evl.new_sem evl.open_sem in
      (sem (sem s p.sem_0 p.sem_0_name).state p.sem_1 p.sem_1_name).state

  -- What the creations of the mutex and of the event have answered, which the constructor does not test.
  abbrev pub mutex_answer : EvlLibrary S → Parts → S → Answer S
  mutex_answer evl p s =
      make_and_open evl.new_mutex evl.open_mutex (after_sems evl p s) p.calling_mutex p.mutex_name

  abbrev pub event_answer : EvlLibrary S → Parts → S → Answer S
  event_answer evl p s =
      make_and_open evl.new_event evl.open_event (mutex_answer evl p s).state p.calling_cond
        p.cond_name

  opened_twice :
      (evl : EvlLibrary S) (lib : Pthread S) (p : Parts) (s : S) {t : S}
      → IsCounting evl
      → (mutex_answer evl p s).code ≡ pos 0
      → (event_answer evl p s).code ≡ pos 0
      → make_barrier (evl_helper evl lib) p s ≡ built t
      → descriptors t ≡ descriptors s + 8
  unfolding make_barrier evl_helper
  opened_twice evl lib p s {t} v mutex_fine event_fine e =
      let sem = make_and_open evl.new_sem evl.open_sem in
      let first = (sem s p.sem_0 p.sem_0_name).state in
      let second = (sem first p.sem_1 p.sem_1_name).state in
      let mutex = make_and_open evl.new_mutex evl.open_mutex second p.calling_mutex p.mutex_name in
      ground (
        arith,
        e,
        made_twice evl.new_sem evl.open_sem s p.sem_0 p.sem_0_name v.new_sem v.open_sem,
        made_twice evl.new_sem evl.open_sem first p.sem_1 p.sem_1_name v.new_sem v.open_sem,
        made_twice evl.new_mutex evl.open_mutex second p.calling_mutex p.mutex_name v.new_mutex
            v.open_mutex mutex_fine,
        made_twice evl.new_event evl.open_event mutex.state p.calling_cond p.cond_name v.new_event
            v.open_event event_fine,
      )

  -- Where each creation of libevl that succeeds takes one file descriptor and each close gives back one at
  -- most, a barrier of EVL that has been constructed and destroyed has left at least four of them open, if
  -- the constructor has not thrown and has made also the mutex and the event, of which it does not make
  -- sure.
  pub destroy_barrier-make_barrier_evl :
      (evl : EvlLibrary S) (lib : Pthread S) (p : Parts) (s : S) {t : S}
      → IsCounting evl
      → (mutex_answer evl p s).code ≡ pos 0
      → (event_answer evl p s).code ≡ pos 0
      → make_barrier (evl_helper evl lib) p s ≡ built t
      → descriptors s + 4 ≤ descriptors (destroy_barrier (evl_helper evl lib) p t)
  destroy_barrier-make_barrier_evl evl lib p s {t} v mutex_fine event_fine e =
      omega (arith, opened_twice evl lib p s v mutex_fine event_fine e, closed_once evl lib p t v)
