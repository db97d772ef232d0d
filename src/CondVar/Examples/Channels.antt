-- ===== src/CondVar/Examples/Channels.antt =====
-- Tests of notify and wait (src/condition_variable_implementation.h) over channels that count.
use twine.Prelude.{true, false, ◌≡◌, none, some, List, [], ◌∷◌, Bool, refl, arith}
use mathlib.Core.Option
use twine.CondVar.Channels.{counter, counter-IsChannel}
use twine.CondVar.Evl.{Flags}
use twine.CondVar.Xenomai.Notify as Xenomai
use twine.CondVar.Evl.Notify as Evl

abbrev one_rt : List Bool
one_rt = true ∷ []

wait_on-after_example :
    Option.map
      (λ x. x.notified)
      (Xenomai.wait_on (counter (λ n. n) (λ n. n)) (counter (λ n. 1) (λ n. 8)) (
        Xenomai.after
          (counter (λ n. n) (λ n. n))
          (counter (λ n. 1) (λ n. 8))
          one_rt
          (record { socket = 0; event = 0 })))
    ≡ some false
wait_on-after_example =
    Xenomai.wait_on-after (counter-IsChannel 64 (λ n. n) (λ n. n))
      (counter-IsChannel 1000 (λ n. 1) (λ n. 8)) one_rt (record { socket = 0; event = 0 }) refl refl
      (omega arith) (omega arith)

abbrev pub linux : Flags
linux = record { pollin = 1; pollerr = 8; pollhup = 16; pollnval = 32 }

-- One thread out of band has notified, and two waits in band follow.
abbrev one_oob : List Bool
one_oob = false ∷ []

wait-after_example :
    (Option.map
        (λ x. x.woken)
        (Evl.wait (counter (λ n. 1) (λ n. 1)) (counter (λ n. 1) (λ n. 1)) linux false (
          Evl.after
            (counter (λ n. 1) (λ n. 1))
            (counter (λ n. 1) (λ n. 1))
            one_oob
            (record { to_rt = 0; to_nonrt = 0 })))
      ≡ none)
    × (Evl.waits (counter (λ n. 1) (λ n. 1)) (counter (λ n. 1) (λ n. 1)) linux 2 (
          Evl.after
            (counter (λ n. 1) (λ n. 1))
            (counter (λ n. 1) (λ n. 1))
            one_oob
            (record { to_rt = 0; to_nonrt = 0 }))
        ≡ true ∷ false ∷ [])
wait-after_example =
    Evl.wait-after (counter-IsChannel 1024 (λ n. 1) (λ n. 1))
      (counter-IsChannel 1024 (λ n. 1) (λ n. 1)) linux one_oob 2
      (record { to_rt = 0; to_nonrt = 0 }) (omega arith) (omega arith) refl refl (omega arith)
      (omega arith)
