-- ===== src/Apple/Examples.antt =====
-- Tests of the Apple part: two audio devices, and the workers that ask for the second.
use twine.Prelude.{
  ℕ, zero, suc, ◌/◌, ◌<◌, ◌≡◌, ◌≢◌, ◌↔◌, refl, true, false, none, some, List, [], ◌∷◌,
  if◌then◌else◌, pos, leb, ◌≤◌,
}
use twine.Status.{
  WorkerPoolStatus, AppleThreadingStatus, wg_cancelled, no_workgroup_passed,
  workgroup_already_cancelled,
}
use twine.Cores.{least_used, least_from}
use twine.Pool.{Platform, Pool, run, choose_core, start_worker, add_worker}
use twine.Apple.Workers.{add_worker-joined_iff}
use twine.Apple.Double.{uint32_max, whole_double, Whole-IsDouble}
use twine.Apple.Period.{
  assertion_failed, answered, start_realtime, thread_period_ms, period_ticks, ticks_per_ms,
  start_realtime-defined,
}
use twine.Apple.{
  is_set_up, cf_string_to_std_string, Device, Audio, Found, Kernel, missing, fetch_name,
  fetch_workgroup, search_from, get_device_workgroup, make_worker, init_apple_thread,
  join_workgroup, worker_status, leave_workgroup_if_needed,
}
use twine.Apple.Devices.{IsFirstNamed, get_device_workgroup-first}
use twine.Apple.Joining.{
  HasJoined, worker_status-ok_iff, worker_status-no_workgroup, leave_workgroup-cancelled,
}

abbrev device_named : List ℕ → Device
device_named name = record {
  name_size_status = pos 0;
  name_size = 8;
  name_status = pos 0;
  name = some (record { c_string = none; buffer = some name });
  workgroup_size_status = pos 0;
  workgroup_status = pos 0;
  cancelled = false;
}

abbrev devices : ℕ → Device
devices zero = device_named (b'm' ∷ b'i' ∷ b'c' ∷ 0 ∷ 0 ∷ [])
devices (suc i) = device_named (b'o' ∷ b'u' ∷ b't' ∷ 0 ∷ 0 ∷ [])

abbrev audio : Audio
audio = record {
  macos_11 = true;
  size_status = pos 0;
  size = 8;
  data_status = pos 0;
  size_after = 8;
  devices = devices;
}

abbrev out : List ℕ
out = b'o' ∷ b'u' ∷ b't' ∷ []

abbrev second : Found
second = record { workgroup = some 1; status = AppleThreadingStatus.ok }

test_second : get_device_workgroup audio out ≡ second
unfolding get_device_workgroup search_from fetch_name fetch_workgroup cf_string_to_std_string
test_second = refl

test_get_device_workgroup-first :
    (1 < 8 / 4)
    × IsFirstNamed out devices 0 1
    × ((get_device_workgroup audio out).status
        ≡ (if false then wg_cancelled else AppleThreadingStatus.ok))
unfolding get_device_workgroup search_from fetch_name fetch_workgroup cf_string_to_std_string
test_get_device_workgroup-first = get_device_workgroup-first audio out refl

abbrev kernel : Kernel
kernel = record {
  macos_11 = true;
  cancelled = false;
  join_result = 0;
  einval = 22;
  ealready = 37;
  realtime = true;
  assertions = true;
  chunk_size = pos 64;
  no_rate = false;
}

test_worker_status-ok_iff : (worker_status kernel second ≡ some AppleThreadingStatus.ok) ↔ (
    (is_set_up kernel ≡ true)
    × (second.status ≡ AppleThreadingStatus.ok)
    × (second.workgroup ≢ none)
    × (kernel.realtime ≡ true)
    × (kernel.cancelled ≡ false)
    × HasJoined kernel)
test_worker_status-ok_iff = worker_status-ok_iff kernel second refl

test_worker_status-no_workgroup :
    worker_status kernel (missing AppleThreadingStatus.invalid_device_name_passed)
    ≡ some no_workgroup_passed
test_worker_status-no_workgroup =
    worker_status-no_workgroup kernel (missing AppleThreadingStatus.invalid_device_name_passed) refl
      refl refl

test_leave_workgroup-cancelled :
    (worker_status (record kernel { cancelled = true }) second ≡ some workgroup_already_cancelled)
    × (leave_workgroup_if_needed
          (record kernel { cancelled = true })
          (make_worker (record kernel { cancelled = true }) second).workgroup
        ≡ true)
test_leave_workgroup-cancelled =
    leave_workgroup-cancelled (record kernel { cancelled = true }) second refl refl refl refl

-- 64 samples at 48000 a second are one period of a millisecond, in whole numbers.
start_realtime-defined_example :
    (ticks : ℕ) × (start_realtime true
        (λ p. leb p.period 50000)
        (record { numer = 125; denom = 3 })
        (pos 64)
        (some (pos 48000))
      ≡ answered (leb ticks 50000))
    × (ticks ≤ uint32_max)
start_realtime-defined_example =
    start_realtime-defined Whole-IsDouble true (λ p. leb p.period 50000)
      (record { numer = 125; denom = 3 }) (pos 64) (some (pos 48000))

-- Without a sample rate: an assertion fails, or there is a division by 0.
test_no_rate :
    start_realtime true (λ p. true) (record { numer = 125; denom = 3 }) (pos 64) (some (pos 0))
    ≡ assertion_failed
unfolding start_realtime
test_no_rate = refl

test_ticks :
    period_ticks (record { numer = 125; denom = 3 }) (thread_period_ms (pos 64) (some (pos 48000)))
    ≡ some 24000
unfolding period_ticks ticks_per_ms thread_period_ms
test_ticks = refl

abbrev mac : Platform
mac = record {
  errno = record { eagain = 35; eperm = 1; einval = 22 };
  setaffinity = λ cpu_id. 0;
  thread_create = λ priority cpu_id. 0;
  failed_handle = λ priority cpu_id. 0;
  init_status = λ cpu_id. AppleThreadingStatus.ok;
}

abbrev two_cores : Pool
two_cores = record {
  no_workers = 0;
  cores = record { id = pos 0; workers = 0 } ∷ record { id = pos 1; workers = 0 } ∷ [];
  workers = [];
}

add_worker-joined_iff_example :
    (start_worker mac two_cores (pos 75) 0 (record { id = pos 0; workers = 0 })).status
      ≡ WorkerPoolStatus.ok
    ↔ ((run mac (pos 75) (pos 0) ≡ 0)
        × (second.status ≡ AppleThreadingStatus.ok)
        × (second.workgroup ≢ none)
        × (kernel.realtime ≡ true)
        × (kernel.cancelled ≡ false)
        × HasJoined kernel)
unfolding add_worker choose_core least_used least_from worker_status make_worker init_apple_thread
    join_workgroup
add_worker-joined_iff_example =
    add_worker-joined_iff kernel second mac two_cores (pos 75) none refl refl refl refl refl
