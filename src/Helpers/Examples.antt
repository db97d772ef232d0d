-- ===== src/Helpers/Examples.antt =====
-- Tests of the thread helpers (src/thread_helpers_cobalt.cpp, src/thread_helpers_evl.cpp) on small
-- libraries.
mod Posix
use twine.Prelude.{
  ℕ, ◌+◌, ◌-◌, ◌≤◌, pos, negsuc, neg_part, ◌≡◌, ◌≢◌, ◌⊎◌, refl, Bool, true, false, arith, ◌==◌,
  if◌then◌else◌,
}
use twine.Helpers.{
  Answer, Pthread, CobaltSemaphores, EvlLibrary, cobalt_helper, evl_helper, make_and_open,
}
use twine.Helpers.Barriers.{
  Parts, make_barrier, destroy_barrier, IsApart, destroy_barrier-make_barrier,
}
use twine.Helpers.Throws.{make_barrier-thrown}
use twine.Helpers.Cobalt.{Makes, Ends, IsManaged, cobalt_helper-IsExact}
use twine.Helpers.Evl.{IsCounting, make_and_open_cases, destroy_barrier-make_barrier_evl}

abbrev pub parts : Parts
parts = record {
  sem_0 = 1;
  sem_1 = 2;
  calling_mutex = 3;
  calling_cond = 4;
  sem_0_name = 11;
  sem_1_name = 12;
  mutex_name = 13;
  cond_name = 14;
}

pub parts-IsApart : IsApart parts
parts-IsApart = record {
  sems = λ e. ground (arith, e);
  sem_0_mutex = λ e. ground (arith, e);
  sem_0_cond = λ e. ground (arith, e);
  sem_1_mutex = λ e. ground (arith, e);
  sem_1_cond = λ e. ground (arith, e);
  mutex_cond = λ e. ground (arith, e);
}

-- Which objects exist. There is no room for one at the address 9: the error number is 12.
abbrev Objects : Type 0
Objects = ℕ → Bool

abbrev alive : Objects → ℕ → Bool
alive s o = s o

abbrev no_objects : Objects
no_objects o = false

abbrev init : Objects → ℕ → Answer Objects
init s o =
    if o == 9
    then record { state = s; code = pos 12 }
    else record { state = λ x. if x == o then true else s x; code = pos 0 }

abbrev fini : Objects → ℕ → Answer Objects
fini s o = record { state = λ x. if x == o then false else s x; code = pos 0 }

abbrev idle : Objects → ℕ → Answer Objects
idle s o = record { state = s; code = pos 0 }

abbrev lib : Pthread Objects
lib = record {
  mutex_init = init;
  mutex_destroy = fini;
  mutex_lock = idle;
  mutex_unlock = idle;
  cond_init = init;
  cond_destroy = fini;
  cond_wait = λ s cond mutex. idle s cond;
  cond_signal = idle;
  create = λ s thread worker. idle s thread;
  join = idle;
}

abbrev sems : CobaltSemaphores Objects
sems = record { sem_init = init; sem_destroy = fini; sem_wait = idle; sem_post = idle }

init-Makes : Makes alive init
init-Makes s o x = ground arith

fini-Ends : Ends alive fini
fini-Ends s o x h = refl

lib-IsManaged : IsManaged alive lib sems
lib-IsManaged = record {
  mutex_init = init-Makes;
  mutex_destroy = fini-Ends;
  cond_init = init-Makes;
  cond_destroy = fini-Ends;
  sem_init = init-Makes;
  sem_destroy = fini-Ends;
}

abbrev all_four : Objects
all_four x =
    if x == 4
    then true
    else if x == 3
    then true
    else if x == 2
    then true
    else if x == 1
    then true
    else false

destroy_barrier-make_barrier_example :
    alive (destroy_barrier (cobalt_helper lib sems) parts all_four) 2 ≡ alive no_objects 2
unfolding make_barrier cobalt_helper
destroy_barrier-make_barrier_example =
    destroy_barrier-make_barrier (cobalt_helper lib sems) alive
      (cobalt_helper-IsExact alive lib sems lib-IsManaged) parts no_objects 2 parts-IsApart
      (λ o h. refl) refl refl refl

-- There is no room for the second semaphore.
abbrev no_room : Parts
no_room = record parts { sem_1 = 9 }

make_barrier-thrown_example :
    (pos 12 ≢ pos 0)
    × (((pos 12 ≡ ((cobalt_helper lib sems).semaphore_create no_objects 1 11).code)
          × ((x : ℕ) → alive (λ y. if y == 1 then true else false) x ≡ alive no_objects x))
        ⊎ ((((cobalt_helper lib sems).semaphore_create no_objects 1 11).code ≡ pos 0)
            × (pos 12
                ≡ ((cobalt_helper lib sems).semaphore_create
                    ((cobalt_helper lib sems).semaphore_create no_objects 1 11).state
                    9
                    12).code)
            × ((x : ℕ)
                → alive (λ y. if y == 1 then true else false) x
                  ≡ (if x == 1 then true else alive no_objects x))))
unfolding make_barrier cobalt_helper
make_barrier-thrown_example =
    make_barrier-thrown (cobalt_helper lib sems) alive
      (cobalt_helper-IsExact alive lib sems lib-IsManaged) no_room no_objects refl

-- A library that keeps only the number of its open descriptors.
abbrev count : ℕ → ℕ
count n = n

abbrev opens : ℕ → ℕ → ℕ → Answer ℕ
opens s o n = record { state = s + 1; code = pos (s + 3) }

-- There is no object of that name.
abbrev no_entry : ℕ → ℕ → ℕ → Answer ℕ
no_entry s o n = record { state = s; code = negsuc 1 }

abbrev closes : ℕ → ℕ → Answer ℕ
closes s o = record { state = s - 1; code = pos 0 }

abbrev quiet : ℕ → ℕ → Answer ℕ
quiet s o = record { state = s; code = pos 0 }

abbrev evl : EvlLibrary ℕ
evl = record {
  new_mutex = opens;
  open_mutex = opens;
  close_mutex = closes;
  lock_mutex = quiet;
  unlock_mutex = quiet;
  new_event = opens;
  open_event = opens;
  close_event = closes;
  wait_event = λ s event mutex. quiet s event;
  signal_event = quiet;
  new_sem = opens;
  open_sem = opens;
  close_sem = closes;
  get_sem = quiet;
  put_sem = quiet;
}

abbrev threads : Pthread ℕ
threads = record {
  mutex_init = quiet;
  mutex_destroy = quiet;
  mutex_lock = quiet;
  mutex_unlock = quiet;
  cond_init = quiet;
  cond_destroy = quiet;
  cond_wait = λ s cond mutex. quiet s cond;
  cond_signal = quiet;
  create = λ s thread worker. quiet s thread;
  join = quiet;
}

evl-IsCounting : IsCounting count evl
evl-IsCounting = record {
  new_mutex = λ s o n. refl;
  open_mutex = λ s o n. refl;
  close_mutex = λ s o. omega arith;
  new_event = λ s o n. refl;
  open_event = λ s o n. refl;
  close_event = λ s o. omega arith;
  new_sem = λ s o n. refl;
  open_sem = λ s o n. refl;
  close_sem = λ s o. omega arith;
}

destroy_barrier-make_barrier_evl_example :
    0 + 4 ≤ count (destroy_barrier (evl_helper evl threads) parts 8)
unfolding make_barrier evl_helper make_and_open
destroy_barrier-make_barrier_evl_example =
    destroy_barrier-make_barrier_evl count evl threads parts 0 evl-IsCounting refl refl refl

make_and_open_cases_example :
    (((make_and_open opens no_entry 5 1 11).code ≡ pos 0)
      × (count (make_and_open opens no_entry 5 1 11).state ≡ 5 + 2))
    ⊎ ((neg_part (make_and_open opens no_entry 5 1 11).code ≢ 0)
        × ((count (make_and_open opens no_entry 5 1 11).state ≡ count 5)
            ⊎ (count (make_and_open opens no_entry 5 1 11).state ≡ 5 + 1)))
make_and_open_cases_example =
    make_and_open_cases count opens no_entry 5 1 11 (λ s o n. refl) (λ s o n. refl)
