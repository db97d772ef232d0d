-- ===== src/Apple/Workers.antt =====
-- `add_worker` (src/worker_pool_implementation.h) on an Apple build with CoreAudio, where the status of a
-- new worker is that of src/apple_threading.cpp.
use twine.Prelude.{
  ℕ, ◌≡◌, ◌≢◌, ◌↔◌, true, false, Option, none, some, ℤ, get_elem?, sym, ◌∙◌, ap, of_some,
}
use twine.Status.{WorkerPoolStatus, AppleThreadingStatus}
use twine.Cores.{CpuInfo}
use twine.Pool.{Platform, Pool, Reply, run, choose_core, add_worker}
use twine.Pool.Acceptance.{add_worker-ok_iff}
use twine.Apple.{Found, Kernel, worker_status}
use twine.Apple.Joining.{HasJoined, worker_status-ok_iff, worker_status-is_set_up}

-- On macOS 11, where no assertion of the thread's initialisation fails, `add_worker` answers OK exactly if
-- all of these went well: the thread for the chosen core was created, the audio device had a workgroup that
-- was found in order, the thread was made realtime, the workgroup was not cancelled, and the thread joined
-- it, or, in a build without assertions, was told that it is a member already.
pub add_worker-joined_iff :
    (k : Kernel) (device : Found) (env : Platform) (p : Pool) (priority : ℤ) (cpu_id : Option ℤ)
    {r : Reply} {core : ℕ} {info : CpuInfo}
    → k.macos_11 ≡ true
    → worker_status k device ≡ some (env.init_status info.id)
    → choose_core p.cores cpu_id ≡ some (some core)
    → get_elem? p.cores core ≡ some info
    → add_worker env p priority cpu_id ≡ some r
    → (r.status ≡ WorkerPoolStatus.ok) ↔ (
        (run env priority info.id ≡ 0)
        × (device.status ≡ AppleThreadingStatus.ok)
        × (device.workgroup ≢ none)
        × (k.realtime ≡ true)
        × (k.cancelled ≡ false)
        × HasJoined k)
add_worker-joined_iff k device env p priority cpu_id {info = info} new status chosen at e =
    let accepts = add_worker-ok_iff env p priority cpu_id chosen at e in
    let joins = worker_status-ok_iff k device new in
    (
      (λ q.
          let (a, b) = accepts.0 q in
          let (ready, found, given, realtime, live, joined) = joins.0 (status ∙ ap some b) in
          (a, found, given, realtime, live, joined)),
      (λ (a, found, given, realtime, live, joined). accepts.1 (
        a,
        of_some (
            sym status
            ∙ joins.1
                (worker_status-is_set_up k device status, found, given, realtime, live, joined)),
      )),
    )
