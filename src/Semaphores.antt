-- ===== src/Semaphores.antt =====
-- src/thread_helpers_posix.cpp, `semaphore_create` and `semaphore_destroy`, and the constructor of
-- BarrierWithTrigger (src/worker_pool_implementation.h), which creates two semaphores. A name is a
-- number, and so is a semaphore: the how many-th it is that the system has made.
mod Examples
use twine.Prelude.{
  ℕ, ◌+◌, ◌≡◌, ◌≢◌, ◌⊎◌, inl, inr, refl, true, Option, none, some, arith, ◌==◌, if◌then◌else◌,
  ℕ_discrete,
}

-- The names that the system has linked, and the number of semaphores that it has made.
pub record Names : Type 0 where
  pub linked : ℕ → Option ℕ
  pub made : ℕ

-- sem_unlink. The semaphore lives on for those that have opened it.
unfoldable pub sem_unlink : Names → ℕ → Names
sem_unlink s name = record s { linked = λ other. if other == name then none else s.linked other }

-- A semaphore, or an error number.
pub data Created : Type 0 where
  created : Names → (semaphore : ℕ) → Created
  failed : Names → (error : ℕ) → Created

unfoldable pub link : Names → ℕ → Created
link s name = elim (s.linked name) [
  | some semaphore ↦ created s semaphore
  | none ↦
      created
        (record {
          linked = λ other. if other == name then some s.made else s.linked other;
          made = s.made + 1;
        })
        s.made
]

-- sem_open with O_CREAT. `errno` says for each name what goes wrong: 0 is that nothing does.
unfoldable pub sem_open : (errno : ℕ → ℕ) → Names → ℕ → Created
unfolding link
sem_open errno s name = if errno name == 0 then link s name else failed s (errno name)

unfoldable pub semaphore_create : (errno : ℕ → ℕ) → Names → ℕ → Created
unfolding sem_unlink sem_open
semaphore_create errno s name = sem_open errno (sem_unlink s name) name

unfoldable pub semaphore_destroy : Names → ℕ → Names
unfolding sem_unlink
semaphore_destroy s name = sem_unlink s name

-- "/twine-barrier-sem-0" and "/twine-barrier-sem-1"
abbrev pub barrier_sem_0 : ℕ
barrier_sem_0 = 0

abbrev pub barrier_sem_1 : ℕ
barrier_sem_1 = 1

-- The semaphores of a barrier, or the exception with the text for an error number.
pub data Made : Type 0 where
  made_both : Names → (sem_0 : ℕ) → (sem_1 : ℕ) → Made
  thrown : Names → (error : ℕ) → Made

unfoldable pub make_second : (errno : ℕ → ℕ) → Names → (sem_0 : ℕ) → Made
unfolding semaphore_create
make_second errno s sem_0 = elim (semaphore_create errno s barrier_sem_1) [
  | failed names error ↦ thrown names error
  | created names sem_1 ↦ made_both names sem_0 sem_1
]

unfoldable pub make_semaphores : (errno : ℕ → ℕ) → Names → Made
unfolding make_second semaphore_create
make_semaphores errno s = elim (semaphore_create errno s barrier_sem_0) [
  | failed names error ↦ thrown names error
  | created names sem_0 ↦ make_second errno names sem_0
]

unlinked-none : (s : Names) (name : ℕ) → (sem_unlink s name).linked name ≡ none
unfolding sem_unlink
unlinked-none s name = ground arith

-- The names with a new semaphore.
abbrev linked_new : Names → ℕ → Names
linked_new s name = record {
  linked = λ other. if other == name then some s.made else s.linked other;
  made = s.made + 1;
}

-- What `semaphore_create` gives is new.
create_cases :
    (errno : ℕ → ℕ) (s : Names) (name : ℕ)
    → ((errno name ≡ 0)
        × (names : Names) × (semaphore_create errno s name ≡ created names s.made)
        × (names.made ≡ s.made + 1))
      ⊎ ((errno name ≢ 0)
          × (semaphore_create errno s name ≡ failed (sem_unlink s name) (errno name)))
unfolding semaphore_create sem_open link sem_unlink
create_cases errno s name = elim (ℕ_discrete (errno name) 0) [
  | yes fine ↦
      let e = unlinked-none s name in
      inl (fine, linked_new (sem_unlink s name) name, ground (arith, fine, e), refl)
  | no bad ↦ inr (bad, ground (arith, bad))
]

-- The two semaphores of a barrier are new: none of the semaphores made before, of this or of another
-- barrier with the same names, is one of them, and they are different. Otherwise the constructor
-- throws, with the error number of the first name for which opening fails.
pub make_semaphores_cases :
    (errno : ℕ → ℕ) (s : Names)
    → ((errno barrier_sem_0 ≡ 0)
        × (errno barrier_sem_1 ≡ 0)
        × (names : Names) × (make_semaphores errno s ≡ made_both names s.made (s.made + 1))
        × (names.made ≡ s.made + 2))
      ⊎ ((names : Names) × (error : ℕ) × (make_semaphores errno s ≡ thrown names error)
          × (error ≢ 0)
          × ((errno barrier_sem_0 ≡ error)
              ⊎ ((errno barrier_sem_0 ≡ 0) × (errno barrier_sem_1 ≡ error))))
unfolding make_semaphores make_second
make_semaphores_cases errno s = elim (create_cases errno s barrier_sem_0) [
  | inr (bad, e) ↦
      inr (sem_unlink s barrier_sem_0, errno barrier_sem_0, ground (arith, e), bad, inl refl)
  | inl (fine, names, e, count) ↦ elim (create_cases errno names barrier_sem_1) [
    | inr (bad, f) ↦ inr (
      sem_unlink names barrier_sem_1,
      errno barrier_sem_1,
      ground (arith, e, f),
      bad,
      inr (fine, refl),
    )
    | inl (fine_1, names_1, f, count_1) ↦
        inl (fine, fine_1, names_1, ground (arith, e, f, count), omega (arith, count, count_1))
  ]
]
