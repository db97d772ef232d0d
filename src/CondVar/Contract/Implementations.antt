-- ===== src/CondVar/Contract/Implementations.antt =====
-- Which of the condition variables of src/condition_variable_implementation.h do what the interface
-- promises.
use twine.Prelude.{ℕ, ◌≤◌, ◌<◌, ◌≡◌, refl, true, false, [], ◌∷◌, arith}
use mathlib.Core.Option
use twine.CondVar.Contract.{RtConditionVariable, IsNotifying}
use twine.CondVar.Channels.{Channel, IsChannel}
use twine.CondVar.Semaphore as Semaphore
use twine.CondVar.Evl.{Flags}
use twine.CondVar.Evl.Notify as Evl
use twine.CondVar.Evl.Notify.{Buffers}
use twine.CondVar.Xenomai.Notify as Xenomai
use twine.CondVar.Xenomai.Notify.{Queues}

-- PosixSemaphoreConditionVariable, by the value of its semaphore.
abbrev pub posix : RtConditionVariable ℕ
posix = record {
  notify = Semaphore.notify;
  wait = λ value. Option.map (λ v. record { result = true; after = v }) (Semaphore.wait value);
}

module _ {A B : Type 0} (rt : Channel A) (nonrt : Channel B) (f : Flags) where
  -- EvlConditionVariable: threads out of band notify, and one in band waits.
  abbrev pub evl : RtConditionVariable (Buffers A B)
  evl = record {
    notify = Evl.notify rt nonrt false;
    wait = λ s.
        Option.map (λ x. record { result = x.woken; after = x.buffers })
          (Evl.wait rt nonrt f true s);
  }

module _ {R E : Type 0} (socket : Channel R) (event : Channel E) where
  -- XenomaiConditionVariable: realtime threads notify.
  abbrev pub xenomai : RtConditionVariable (Queues R E)
  xenomai = record {
    notify = Xenomai.notify socket event true;
    wait = λ s.
        Option.map (λ x. record { result = x.notified; after = x.queues })
          (Xenomai.wait_on socket event s);
  }

-- PosixSemaphoreConditionVariable keeps the promise of its interface.
pub posix-IsNotifying : (capacity : ℕ) → IsNotifying posix (λ value. value) capacity
unfolding Semaphore.notify Semaphore.wait
posix-IsNotifying capacity = record {
  counted = λ c h. refl;
  woken = λ c n e. (n, ground (arith, e), omega arith);
  unwoken = λ c e. ground (arith, e);
}

module _ {R E : Type 0} {socket : Channel R} {event : Channel E} {unread : R → ℕ} {value : E → ℕ}
    {room limit : ℕ} (v : IsChannel socket unread room (λ n. n) (λ n. n))
    (w : IsChannel event value limit (λ n. 1) (λ n. 8)) where
  -- XenomaiConditionVariable does not keep the promise of its interface: whatever of its state is taken for
  -- the number of notifications that no wait has returned, if nothing waits in its two channels and there
  -- is room for one notification, the promise does not hold.
  pub not_IsNotifying-xenomai :
      (s : Queues R E) (pending : Queues R E → ℕ) (capacity : ℕ)
      → unread s.socket ≡ 0
      → value s.event ≡ 0
      → 1 ≤ room
      → pending s < capacity
      → ¬ IsNotifying (xenomai socket event) pending capacity
  unfolding Xenomai.after
  not_IsNotifying-xenomai s pending capacity e f h k n =
      let told = Xenomai.wait_on-after v w (true ∷ []) s e f h (omega arith) in
      let one = n.counted s k in
      let (d, ends, left) =
        n.woken (Xenomai.notify socket event true s) (pending s) (omega (arith, one)) in
      ground (arith, told, ends)
