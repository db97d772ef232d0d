-- ===== src/Worker/Function/Examples.antt =====
-- Tests of the worker function (src/worker_pool_implementation.h): an EVL thread with two callbacks.
use twine.Prelude.{◌≡◌, refl, true, false, List, [], ◌∷◌, ◌++◌, pos}
use twine.Realtime.{evl_thread, counter_after, is_realtime}
use twine.Worker.Function.{
  Act, make_flag, attach_self, stop_on_switches, wait_barrier, callback, drop_flag, Settings,
  prologue, rounds, internal_worker_function, flag_events, callback-is_realtime,
}

abbrev settings : Settings
settings = record {
  thread_type = evl_thread;
  with_xenomai = false;
  with_evl = true;
  apple_threading = false;
  coreaudio = false;
  disable_denormals = false;
  break_on_mode_sw = true;
}

abbrev before : List Act
before = make_flag ∷ attach_self ∷ stop_on_switches ∷ wait_barrier ∷ callback ∷ wait_barrier ∷ []

test_function :
    internal_worker_function settings 2 ≡ before ++ callback ∷ wait_barrier ∷ drop_flag ∷ []
unfolding internal_worker_function prologue rounds
test_function = refl

callback-is_realtime_example : is_realtime (counter_after (flag_events before) (pos 0)) ≡ true
callback-is_realtime_example =
    callback-is_realtime settings 2 before (wait_barrier ∷ drop_flag ∷ []) test_function
