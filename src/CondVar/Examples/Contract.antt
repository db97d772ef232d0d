-- ===== src/CondVar/Examples/Contract.antt =====
-- Tests of the promise of RtConditionVariable (src/include/twine/twine.h), over channels that count.
use twine.Prelude.{◌+◌, ◌≤◌, [], ◌∷◌, refl, arith}
use twine.CondVar.Contract.{IsNotifying, results, trues, results-trues}
use twine.CondVar.Contract.Implementations.{
  posix, xenomai, posix-IsNotifying, not_IsNotifying-xenomai,
}
use twine.CondVar.Channels.{counter, counter-IsChannel}
use twine.CondVar.Semaphore.{notified, waited}
use twine.CondVar.Xenomai.Notify.{Queues}

test_not_IsNotifying-xenomai :
    ¬ IsNotifying
      (xenomai (counter (λ n. n) (λ n. n)) (counter (λ n. 1) (λ n. 8)))
      (λ (s : Queues _ _). s.socket)
      64
test_not_IsNotifying-xenomai =
    not_IsNotifying-xenomai (counter-IsChannel 64 (λ n. n) (λ n. n))
      (counter-IsChannel 1000 (λ n. 1) (λ n. 8)) (record { socket = 0; event = 0 }) (λ s. s.socket)
      64 refl refl (omega arith) (omega arith)

test_results-trues : trues (results posix (notified ∷ waited ∷ waited ∷ []) 0) ≤ 0 + 1
test_results-trues =
    results-trues (posix-IsNotifying 5) (notified ∷ waited ∷ waited ∷ []) 0 (omega arith)
