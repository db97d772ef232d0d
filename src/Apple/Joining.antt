-- ===== src/Apple/Joining.antt =====
-- About `join_workgroup` of src/apple_threading.cpp and `_init_apple_thread` of
-- src/worker_pool_implementation.h: the status of a worker on an Apple build with CoreAudio.
use twine.Prelude.{
  ℕ, ◌≡◌, ◌≢◌, ◌↔◌, ◌⊎◌, inl, inr, true, false, none, some, arith, Option-cases, ℕ_discrete,
}
use twine.Status.{AppleThreadingStatus, no_workgroup_passed, workgroup_already_cancelled}
use twine.Apple.{
  Found, Kernel, join_workgroup, make_worker, is_set_up, init_apple_thread, worker_status,
  leave_workgroup_if_needed,
}

-- The thread has joined the workgroup, or was a member of it before, which only a build without assertions
-- lets pass.
abbrev pub HasJoined : Kernel → Type 0
HasJoined k =
    (k.join_result ≡ 0)
    ⊎ ((k.join_result ≡ k.ealready) × (k.join_result ≢ k.einval) × (k.assertions ≡ false))

joined :
    (k : Kernel) (device : Found)
    → k.macos_11 ≡ true
    → worker_status k device ≡ some AppleThreadingStatus.ok
    → HasJoined k
unfolding worker_status make_worker init_apple_thread join_workgroup
joined k device new q = elim (ℕ_discrete k.join_result 0) [
  | yes e ↦ inl e
  | no n ↦
      inr
        (ground (arith, new, q, n), (λ e. ground (arith, new, q, n, e)), ground (arith, new, q, n))
]

-- The one worker status that `add_worker` accepts: on macOS 11 it needs a chunk size and a sample rate, if
-- the build has assertions, a workgroup that was found in order, a thread that was made realtime, and one
-- that has joined the workgroup, which is not cancelled.
pub worker_status-ok_iff :
    (k : Kernel) (device : Found)
    → k.macos_11 ≡ true
    → (worker_status k device ≡ some AppleThreadingStatus.ok) ↔ (
        (is_set_up k ≡ true)
        × (device.status ≡ AppleThreadingStatus.ok)
        × (device.workgroup ≢ none)
        × (k.realtime ≡ true)
        × (k.cancelled ≡ false)
        × HasJoined k)
unfolding worker_status make_worker init_apple_thread join_workgroup
worker_status-ok_iff k device new = (
  (λ q. (
    ground (arith, new, q),
    ground (arith, new, q),
    (λ e. ground (arith, new, q, e)),
    ground (arith, new, q),
    ground (arith, new, q),
    joined k device new q,
  )),
  (λ (ready, status, given, realtime, live, joined). elim (Option-cases device.workgroup) [
    | inl missing ↦ absurd (given missing)
    | inr (w, at) ↦ ground (arith, new, ready, status, at, realtime, live, joined)
  ]),
)

-- A worker that has a status has passed the assertions.
pub worker_status-is_set_up :
    (k : Kernel) (device : Found) {status : AppleThreadingStatus}
    → worker_status k device ≡ some status
    → is_set_up k ≡ true
unfolding worker_status init_apple_thread
worker_status-is_set_up k device e = ground (arith, e)

-- On macOS 11, where no assertion fails, without a workgroup the status is always that none was passed, whatever the reason why
-- none was found.
pub worker_status-no_workgroup :
    (k : Kernel) (device : Found)
    → k.macos_11 ≡ true
    → is_set_up k ≡ true
    → device.workgroup ≡ none
    → worker_status k device ≡ some no_workgroup_passed
unfolding worker_status make_worker init_apple_thread join_workgroup
worker_status-no_workgroup k device new ready e = ground (arith, new, ready, e)

-- On macOS 11, where no assertion fails, a worker whose workgroup is cancelled has not joined it, but leaves it when it ends.
pub leave_workgroup-cancelled :
    (k : Kernel) (device : Found) {w : ℕ}
    → k.macos_11 ≡ true
    → is_set_up k ≡ true
    → k.cancelled ≡ true
    → device.workgroup ≡ some w
    → (worker_status k device ≡ some workgroup_already_cancelled)
      × (leave_workgroup_if_needed k (make_worker k device).workgroup ≡ true)
unfolding worker_status make_worker init_apple_thread join_workgroup leave_workgroup_if_needed
leave_workgroup-cancelled k device new ready bad e =
    (ground (arith, new, ready, bad, e), ground (arith, new, e))
