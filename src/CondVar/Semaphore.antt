-- ===== src/CondVar/Semaphore.antt =====
-- src/condition_variable_implementation.h, class PosixSemaphoreConditionVariable.
use twine.Prelude.{
  ℕ, zero, suc, ◌+◌, ◌-◌, ◌<◌, ◌≡◌, ◌⊎◌, inl, inr, refl, Bool, false, Option, none, some, List, [],
  ◌∷◌, All, arith, ◌==◌, if◌then◌else◌, subst, ap, sym, ◌∙◌,
}

-- What `sem_open` answers to an attempt, each with a new random name.
pub data Opened : Type 0 where
  opened exists failed : Opened

-- What the constructor comes to: the semaphore of an attempt, the exception with the error of an
-- attempt, or the exception that there are no more retries.
pub data Made : Type 0 where
  made error : (attempt : ℕ) → Made
  no_more_retries : Made

abbrev pub max_retries : ℕ
max_retries = 100

-- while (--retries > 0)
unfoldable pub retry : (ℕ → Opened) → (retries : ℕ) → (attempt : ℕ) → Made
retry sem_open zero k = no_more_retries
retry sem_open (suc zero) k = no_more_retries
retry sem_open (suc (suc n)) k = elim (sem_open k) [
  | opened ↦ made k
  | failed ↦ error k
  | exists ↦ retry sem_open (suc n) (k + 1)
]

unfoldable pub make_posix : (ℕ → Opened) → Made
unfolding retry
make_posix sem_open = retry sem_open max_retries 0

-- The answers to `n` attempts.
abbrev pub answers : (ℕ → Opened) → (first : ℕ) → (n : ℕ) → List Opened
answers sem_open first zero = []
answers sem_open first (suc n) = sem_open first ∷ answers sem_open (first + 1) n

abbrev AllExist : (ℕ → Opened) → ℕ → ℕ → Type 0
AllExist sem_open first n = All (λ o. o ≡ exists) (answers sem_open first n)

-- The attempt that decides.
abbrev pub Ends : (ℕ → Opened) → Made → ℕ → Type 0
Ends sem_open m k = ((sem_open k ≡ opened) × (m ≡ made k)) ⊎ ((sem_open k ≡ failed) × (m ≡ error k))

abbrev Tries : (ℕ → Opened) → ℕ → ℕ → Made → Type 0
Tries sem_open first n m =
    (AllExist sem_open first n × (m ≡ no_more_retries))
    ⊎ ((k : ℕ) × (k < n) × AllExist sem_open first k × Ends sem_open m (first + k))

add-zero : (n : ℕ) → n + 0 ≡ n
add-zero n = omega arith

zero-add : (k : ℕ) → 0 + k ≡ k
zero-add k = omega arith

add-suc : (n k : ℕ) → n + 1 + k ≡ n + suc k
add-suc n k = omega arith

answer_cases : (o : Opened) → (o ≡ opened) ⊎ (o ≡ exists) ⊎ (o ≡ failed)
answer_cases opened = inl refl
answer_cases exists = inr (inl refl)
answer_cases failed = inr (inr refl)

retry-Tries :
    (sem_open : ℕ → Opened) (n first : ℕ) → Tries sem_open first n (retry sem_open (suc n) first)
unfolding retry
retry-Tries sem_open zero first = inl (tt, refl)
retry-Tries sem_open (suc n) first = elim (answer_cases (sem_open first)) [
  | inl ok ↦ inr (
    0,
    omega arith,
    tt,
    inl (ap sem_open (add-zero first) ∙ ok, rw (ok, retry) (ap made (sym (add-zero first)))),
  )
  | inr (inl taken) ↦
      rw (taken, retry)
        (elim (retry-Tries sem_open n (first + 1)) [
          | inl (all, e) ↦ inl ((refl, all), e)
          | inr (k, lt, all, end) ↦ inr (
            suc k,
            omega (arith, lt),
            (taken, all),
            subst (Ends sem_open (retry sem_open (suc n) (first + 1))) (add-suc first k) end,
          )
        ])
  | inr (inr bad) ↦ inr (
    0,
    omega arith,
    tt,
    inr (ap sem_open (add-zero first) ∙ bad, rw (bad, retry) (ap error (sym (add-zero first)))),
  )
]

-- The constructor makes 99 attempts at most. The first whose answer is not that the name exists decides:
-- it gives the semaphore, or the exception with its error; with 99 names that exist there are no more
-- retries.
pub make_posix_cases :
    (sem_open : ℕ → Opened)
    → (All (λ o. o ≡ exists) (answers sem_open 0 99) × (make_posix sem_open ≡ no_more_retries))
      ⊎ ((k : ℕ) × (k < 99)
          × All (λ o. o ≡ exists) (answers sem_open 0 k)
          × Ends sem_open (make_posix sem_open) k)
unfolding make_posix
make_posix_cases sem_open = elim (retry-Tries sem_open 99 0) [
  | inl none_left ↦ inl none_left
  | inr (k, lt, all, end) ↦
      inr (k, lt, all, subst (Ends sem_open (retry sem_open max_retries 0)) (zero-add k) end)
]

-- sem_post, and sem_wait: `none` while the value is 0. A wait always returns true.
unfoldable pub notify : ℕ → ℕ
notify value = value + 1

unfoldable pub wait : ℕ → Option ℕ
wait value = if value == 0 then none else some (value - 1)

pub data Event : Type 0 where
  notified waited : Event

-- The value of the semaphore after some events: `none` if a wait among them does not return.
unfoldable pub after_events : List Event → ℕ → Option ℕ
unfolding notify wait
after_events [] value = some value
after_events (notified ∷ es) value = after_events es (notify value)
after_events (waited ∷ es) value = elim (wait value) [ none ↦ none | some v ↦ after_events es v ]

abbrev pub count_notified : List Event → ℕ
count_notified [] = 0
count_notified (notified ∷ es) = count_notified es + 1
count_notified (waited ∷ es) = count_notified es

abbrev pub count_waited : List Event → ℕ
count_waited [] = 0
count_waited (notified ∷ es) = count_waited es
count_waited (waited ∷ es) = count_waited es + 1

-- No notification is lost, and none is used twice: in every order of notifications and waits that
-- return, the value of the semaphore is the number of the first less the number of the second.
pub after_events-count :
    (es : List Event) (value : ℕ) {v : ℕ}
    → after_events es value ≡ some v
    → v + count_waited es ≡ value + count_notified es
unfolding after_events notify wait
after_events-count [] value e = ground (arith, e)
after_events-count (notified ∷ es) value e = omega (arith, after_events-count es (value + 1) e)
after_events-count (waited ∷ es) zero e = absurd (ground (arith, e))
after_events-count (waited ∷ es) (suc n) {v} e =
    let rest : after_events es n ≡ some v = ground (arith, e) in
    omega (arith, after_events-count es n rest)

-- The fields: the value of `_semaphore`, which is `none` while that is a null pointer, and whether the
-- system still links `_name` to it.
pub record PosixSemaphoreConditionVariable : Type 0 where
  pub semaphore : Option ℕ
  pub linked : Bool

-- The destructor.
unfoldable pub destroy_posix : PosixSemaphoreConditionVariable → PosixSemaphoreConditionVariable
unfolding notify
destroy_posix s = elim s.semaphore [
  | none ↦ s
  | some value ↦ record { semaphore = some (notify value); linked = false }
]

-- A thread that waits when the destructor runs is woken: its wait takes the one notification of the
-- destructor, and leaves the value as it was.
pub destroy_posix-wait :
    (s : PosixSemaphoreConditionVariable) {value : ℕ}
    → s.semaphore ≡ some value
    → (woken : ℕ) × ((destroy_posix s).semaphore ≡ some woken) × (wait woken ≡ some value)
unfolding destroy_posix notify wait
destroy_posix-wait s {value} e = (value + 1, ground (arith, e), ground arith)
