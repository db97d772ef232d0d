-- ===== src/Realtime/Examples.antt =====
-- Tests of src/twine.cpp: a thread with nested flags, and a Xenomai program.
use twine.Prelude.{
  ℕ, ◌+◌, ◌/◌, ◌%◌, ◌<◌, ◌≡◌, ◌↔◌, refl, true, false, some, List, [], ◌∷◌, arith, pos,
}
use twine.CondVar.{
  with_xenomai, xenomai, Registry, empty_registry, create_rt_condition_variable, construct,
  get_next_id,
}
use twine.Realtime.{
  FlagEvent, made, gone, counter_after, is_realtime, is_realtime_iff, init_xenomai, set, is_set,
  running_xenomai_realtime, create_worker_pool, thread_type-create, cobalt, Timespec,
  current_rt_time, current_rt_time-divmod,
}

abbrev nested : List FlagEvent
nested = made ∷ made ∷ gone ∷ []

abbrev two : ℕ
two = 2

test_is_realtime_iff : (is_realtime (counter_after nested (pos 0)) ≡ true) ↔ (0 + 1 < 0 + 1 + 1)
test_is_realtime_iff = is_realtime_iff nested

test_init : is_set (init_xenomai with_xenomai running_xenomai_realtime) ≡ true
unfolding init_xenomai set is_set
test_init = refl

abbrev one_made : Registry
one_made = record { active_ids = true ∷ false ∷ []; live = xenomai 0 ∷ []; lost = 0 }

test_thread_type-create : some cobalt ≡ create_worker_pool with_xenomai true
unfolding create_rt_condition_variable construct get_next_id
test_thread_type-create =
    thread_type-create with_xenomai true (λ id. true) (empty_registry two) {q = one_made} refl refl

abbrev clock : Timespec
clock = record { tv_sec = 12; tv_nsec = 34 }

test_current_rt_time-divmod :
    (12000000034 / 1000000000 ≡ clock.tv_sec) × (12000000034 % 1000000000 ≡ clock.tv_nsec)
unfolding current_rt_time
test_current_rt_time-divmod =
    current_rt_time-divmod with_xenomai clock 5 {now = 12000000034} (omega arith) refl
