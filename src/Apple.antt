-- ===== src/Apple.antt =====
-- src/apple_threading.cpp: the workgroup of an audio device, and how a thread joins it; with the part
-- of WorkerThread (src/worker_pool_implementation.h) that uses them. CoreAudio and the kernel are
-- parameters.
pub mod Double
pub mod Period
pub mod Devices
pub mod Joining
pub mod Workers
mod Examples
use twine.Prelude.{
  ℕ, zero, suc, ◌+◌, ◌*◌, ◌/◌, Bool, true, false, not, ◌&&◌, ◌||◌, Option, none, some, List, [],
  ◌∷◌, ◌==◌, if◌then◌else◌, ℤ, pos, eqb_ℤ,
}
use twine.Status.{
  AppleThreadingStatus, wg_cancelled, wg_failed, wg_size_failed, fetch_name_size_failed,
  fetch_name_failed, pd_failed, pd_size_failed, macos_11_not_detected, invalid_device_name_passed,
  realtime_failed, no_workgroup_passed, workgroup_already_cancelled,
  workgroup_joining_unknown_failure, empty,
}

-- What CoreFoundation answers about a string: its bytes if they are at hand, and the buffer that
-- CFStringGetCString fills, `none` if that fails.
pub record CfString : Type 0 where
  pub c_string : Option (List ℕ)
  pub buffer : Option (List ℕ)

abbrev pub until_nul : List ℕ → List ℕ
until_nul [] = []
until_nul (c ∷ cs) = elim (c == 0) [ true ↦ [] | false ↦ c ∷ until_nul cs ]

-- `none` is a null reference.
unfoldable pub cf_string_to_std_string : Option CfString → List ℕ
cf_string_to_std_string none = []
cf_string_to_std_string (some s) = elim s.c_string [
  | some c_string ↦ c_string
  | none ↦ elim s.buffer [ none ↦ [] | some output ↦ until_nul output ]
]

abbrev pub eqb_bytes : List ℕ → List ℕ → Bool
eqb_bytes [] [] = true
eqb_bytes (x ∷ xs) (y ∷ ys) = x == y && eqb_bytes xs ys
eqb_bytes _ _ = false

-- What CoreAudio answers about a device: a status for each call, which is 0 if it succeeded.
pub record Device : Type 0 where
  pub name_size_status : ℤ
  pub name_size : ℕ
  pub name_status : ℤ
  pub name : Option CfString
  pub workgroup_size_status : ℤ
  pub workgroup_status : ℤ
  pub cancelled : Bool  -- os_workgroup_testcancel of its workgroup

pub record Audio : Type 0 where
  pub macos_11 : Bool
  pub size_status : ℤ
  pub size : ℕ
  pub data_status : ℤ
  pub size_after : ℕ  -- the size that the call for the ids leaves
  pub devices : ℕ → Device

-- A workgroup is named by the index of its device: `none` is the null pointer.
pub record Found : Type 0 where
  pub workgroup : Option ℕ
  pub status : AppleThreadingStatus

abbrev pub missing : AppleThreadingStatus → Found
missing status = record { workgroup = none; status = status }

abbrev pub size_of_id : ℕ
size_of_id = 4

abbrev pub size_of_reference : ℕ
size_of_reference = 8

abbrev pub no_err : ℤ → Bool
no_err status = eqb_ℤ status (pos 0)

-- The device's name, or the error that ends the search.
pub data Named : Type 0 where
  named : List ℕ → Named
  unnamed : AppleThreadingStatus → Named

unfoldable pub fetch_name : Device → Named
fetch_name d =
    if not (no_err d.name_size_status)
    then unnamed fetch_name_size_failed
    else if not (d.name_size == size_of_reference)
    then unnamed fetch_name_size_failed
    else if not (no_err d.name_status)
    then unnamed fetch_name_failed
    else elim d.name [
      | none ↦ unnamed fetch_name_failed
      | some s ↦ named (cf_string_to_std_string (some s))
    ]

unfoldable pub fetch_workgroup : ℕ → Device → Found
fetch_workgroup i d =
    if not (no_err d.workgroup_size_status)
    then missing wg_size_failed
    else if not (no_err d.workgroup_status)
    then missing wg_failed
    else if d.cancelled
    then record { workgroup = some i; status = wg_cancelled }
    else record { workgroup = some i; status = AppleThreadingStatus.ok }

-- The loop over the devices from `i` on.
unfoldable pub search_from : List ℕ → (ℕ → Device) → (i : ℕ) → (rounds : ℕ) → Found
unfolding fetch_name fetch_workgroup
search_from device_name devices i zero = missing invalid_device_name_passed
search_from device_name devices i (suc rounds) = elim (fetch_name (devices i)) [
  | unnamed status ↦ missing status
  | named name ↦ elim (eqb_bytes name device_name) [
    | true ↦ fetch_workgroup i (devices i)
    | false ↦ search_from device_name devices (i + 1) rounds
  ]
]

unfoldable pub get_device_workgroup : Audio → List ℕ → Found
unfolding search_from
get_device_workgroup a device_name =
    let found = search_from device_name a.devices 0 (a.size / size_of_id) in
    if not a.macos_11
    then missing macos_11_not_detected
    else if not (no_err a.size_status)
    then missing pd_size_failed
    else if not (no_err a.data_status)
    then missing pd_failed
    else if not (a.size_after / size_of_id == a.size / size_of_id)
    then missing pd_size_failed
    else found

-- What the kernel answers to a thread that joins a workgroup.
pub record Kernel : Type 0 where
  pub macos_11 : Bool
  pub cancelled : Bool  -- os_workgroup_testcancel
  pub join_result : ℕ  -- os_workgroup_join
  pub einval : ℕ
  pub ealready : ℕ
  pub realtime : Bool  -- the result of set_current_thread_to_realtime
  pub assertions : Bool  -- whether the build has them: it does unless NDEBUG is defined
  pub chunk_size : ℤ
  pub no_rate : Bool  -- whether current_sample_rate is 0

-- In a build with CoreAudio. `none` is the failed assertion for a thread that is a member already, which a
-- build without assertions lets pass.
unfoldable pub join_workgroup : Kernel → Option ℕ → Option AppleThreadingStatus
join_workgroup k p_workgroup = if not k.macos_11 then some empty else elim p_workgroup [
  | none ↦ some no_workgroup_passed
  | some w ↦
      if k.cancelled
      then some workgroup_already_cancelled
      else if k.join_result == 0
      then some AppleThreadingStatus.ok
      else if k.join_result == k.einval
      then some workgroup_already_cancelled
      else if k.join_result == k.ealready
      then (if k.assertions then none else some AppleThreadingStatus.ok)
      else some workgroup_joining_unknown_failure
]

-- The constructor of WorkerThread: its workgroup, and its first status.
unfoldable pub make_worker : Kernel → Found → Found
make_worker k device =
    if k.macos_11 then device else record { workgroup = none; status = AppleThreadingStatus.ok }

abbrev pub is_ok : AppleThreadingStatus → Bool
is_ok AppleThreadingStatus.ok = true
is_ok _ = false

-- The two assertions at the start of _init_apple_thread.
abbrev pub is_set_up : Kernel → Bool
is_set_up k = not (k.assertions && (eqb_ℤ k.chunk_size (pos 0) || k.no_rate))

-- _init_apple_thread, from the status that the constructor left: `none` if an assertion fails.
unfoldable pub init_apple_thread : Kernel → Found → Option AppleThreadingStatus
unfolding join_workgroup
init_apple_thread k worker =
    let first = if k.realtime then worker.status else realtime_failed in
    let joined : Option AppleThreadingStatus = elim (join_workgroup k worker.workgroup) [
      | none ↦ none
      | some status ↦ some (if is_ok status then first else status)
    ] in
    if not (is_set_up k) then none else if not k.macos_11 then some first else joined

-- The status that `add_worker` reads, for the device that has been asked for.
unfoldable pub worker_status : Kernel → Found → Option AppleThreadingStatus
unfolding make_worker init_apple_thread
worker_status k device = init_apple_thread k (make_worker k device)

-- Whether os_workgroup_leave is called when the thread ends.
unfoldable pub leave_workgroup_if_needed : Kernel → Option ℕ → Bool
leave_workgroup_if_needed k none = false
leave_workgroup_if_needed k (some w) = k.macos_11
