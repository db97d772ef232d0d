-- ===== src/Semaphores/Examples.antt =====
-- Tests of the semaphores: a second barrier while the first is in use, and two that are made at once.
use twine.Prelude.{ℕ, ◌+◌, ◌≡◌, ◌≢◌, ◌⊎◌, refl, none, some, ◌==◌, if◌then◌else◌}
use twine.Semaphores.{
  Names, Created, created, sem_unlink, sem_open, link, semaphore_create, semaphore_destroy,
  barrier_sem_0, barrier_sem_1, Made, made_both, thrown, make_second, make_semaphores,
  make_semaphores_cases,
}

-- A barrier exists, with the semaphores 0 and 1.
abbrev in_use : Names
in_use = record { linked = λ name. if name == 0 then some 0 else some 1; made = 2 }

abbrev no_error : ℕ → ℕ
no_error name = 0

-- The first semaphore that a result names.
abbrev first_of : Made → ℕ
first_of (made_both names a b) = a
first_of (thrown names error) = 99

test_second : first_of (make_semaphores no_error in_use) ≡ 2
unfolding make_semaphores make_second semaphore_create sem_open sem_unlink link
test_second = refl

abbrev semaphore_of : Created → ℕ
semaphore_of (created names a) = a
semaphore_of _ = 99

abbrev names_of : Created → Names
names_of (created names a) = names
names_of (Created.failed names error) = names

-- Two processes unlink the name before either opens it: they get one semaphore.
test_race :
    semaphore_of
      (sem_open no_error (names_of (sem_open no_error (sem_unlink (sem_unlink in_use 0) 0) 0)) 0)
    ≡ semaphore_of (sem_open no_error (sem_unlink (sem_unlink in_use 0) 0) 0)
unfolding sem_open sem_unlink link
test_race = refl

test_destroy : (semaphore_destroy in_use 0).linked 0 ≡ none
unfolding semaphore_destroy sem_unlink
test_destroy = refl

test_make_semaphores_cases :
    ((no_error barrier_sem_0 ≡ 0)
      × (no_error barrier_sem_1 ≡ 0)
      × (names : Names) × (make_semaphores no_error in_use ≡ made_both names 2 (2 + 1))
      × (names.made ≡ in_use.made + 2))
    ⊎ ((names : Names) × (error : ℕ) × (make_semaphores no_error in_use ≡ thrown names error)
        × (error ≢ 0)
        × ((no_error barrier_sem_0 ≡ error)
            ⊎ ((no_error barrier_sem_0 ≡ 0) × (no_error barrier_sem_1 ≡ error))))
test_make_semaphores_cases = make_semaphores_cases no_error in_use
