-- ===== src/Status.antt =====
-- include/twine/twine.h, enum classes WorkerPoolStatus and AppleThreadingStatus, with
-- `errno_to_worker_status` (src/worker_pool_implementation.h), `to_error_string` (src/twine.cpp) and
-- `status_to_string` (src/apple_threading.cpp).
use Prim.Native.String.{String}
use twine.Prelude.{ℕ, ◌<◌, ◌≡◌, ◌≢◌, ◌↔◌, arith, ◌==◌, if◌then◌else◌}

pub data WorkerPoolStatus : Type 0 where
  ok pool_error permission_denied limit_exceeded invalid_arguments : WorkerPoolStatus

-- The error numbers of the platform that the code names.
pub record Errno : Type 0 where
  pub eagain : ℕ
  pub eperm : ℕ
  pub einval : ℕ

-- They are positive and distinct, as POSIX says.
pub record IsErrno (e : Errno) : Type 0 where
  pub eagain_pos : 0 < e.eagain
  pub eperm_pos : 0 < e.eperm
  pub einval_pos : 0 < e.einval
  pub eagain_eperm : e.eagain ≢ e.eperm
  pub eagain_einval : e.eagain ≢ e.einval
  pub eperm_einval : e.eperm ≢ e.einval

unfoldable pub errno_to_worker_status : Errno → ℕ → WorkerPoolStatus
errno_to_worker_status e error =
    if error == 0
    then ok
    else if error == e.eagain
    then limit_exceeded
    else if error == e.eperm
    then permission_denied
    else if error == e.einval
    then invalid_arguments
    else pool_error

unfoldable pub to_error_string : WorkerPoolStatus → String
to_error_string permission_denied = "Permission denied"
to_error_string limit_exceeded = "Thread count limit exceeded"
to_error_string _ = "Error"

-- The constructors of the Apple build. Elsewhere the type has `ok` and `empty` only.
pub data AppleThreadingStatus : Type 0 where
  ok wg_cancelled wg_failed wg_size_failed fetch_name_size_failed : AppleThreadingStatus
  fetch_name_failed pd_failed pd_size_failed macos_11_not_detected : AppleThreadingStatus
  invalid_device_name_passed realtime_ok realtime_failed no_workgroup_passed : AppleThreadingStatus
  workgroup_already_cancelled workgroup_joining_unknown_failure empty : AppleThreadingStatus

unfoldable pub status_to_string : AppleThreadingStatus → String
status_to_string AppleThreadingStatus.ok = "Successfully fetched the audio workgroup"
status_to_string wg_cancelled = "The fetched audio workgroup has been cancelled"
status_to_string wg_failed = "Failed fetching the audio workgroup"
status_to_string wg_size_failed = "Failed fetching the audio workgroup property data size"
status_to_string fetch_name_size_failed = "Failed fetching an audio device name's size"
status_to_string fetch_name_failed = "Failed fetching an audio device name"
status_to_string pd_failed = "Failed fetching the kAudioObjectSystemObject property data"
status_to_string pd_size_failed = "Failed fetching the kAudioObjectSystemObject property data size"
status_to_string macos_11_not_detected =
    "MacOS version 11.0 and up is required to fetch workgroup info for a device"
status_to_string realtime_ok = "Setting Apple thread realtime status succeeded"
status_to_string realtime_failed = "Failed setting thread realtime status"
status_to_string no_workgroup_passed = "No Apple real-time workgroup was passed"
status_to_string workgroup_already_cancelled =
    "Attempting to join thread workgroup that is already canceled"
status_to_string workgroup_joining_unknown_failure = "Unknown error when joining workgroup"
status_to_string _ = ""

-- The error numbers that the code names give their statuses, 0 gives success, and every other number
-- is a pool error: each status has exactly the numbers that are meant for it.
pub errno_to_worker_status_iff :
    (e : Errno) (n : ℕ)
    → IsErrno e
    → ((errno_to_worker_status e n ≡ ok) ↔ (n ≡ 0))
      × ((errno_to_worker_status e n ≡ limit_exceeded) ↔ (n ≡ e.eagain))
      × ((errno_to_worker_status e n ≡ permission_denied) ↔ (n ≡ e.eperm))
      × ((errno_to_worker_status e n ≡ invalid_arguments) ↔ (n ≡ e.einval))
unfolding errno_to_worker_status
errno_to_worker_status_iff e n v = (
  ((λ q. ground arith), (λ q. ground arith)),
  ((λ q. ground arith), (λ q. ground arith)),
  ((λ q. ground arith), (λ q. ground arith)),
  ((λ q. ground arith), (λ q. ground arith)),
)
