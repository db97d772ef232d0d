-- ===== src/CondVar/Xenomai.antt =====
-- src/condition_variable_implementation.h, class XenomaiConditionVariable.
pub mod Notify
use twine.Prelude.{
  ℕ, ◌≤◌, ◌≡◌, ◌≢◌, ◌↔◌, ◌⊎◌, inl, inr, Bool, true, false, List, [], ◌∷◌, arith, ◌==◌,
  if◌then◌else◌, ℤ, pos, ltb_ℤ, ◌+ℤ◌, ℕ_discrete,
}

-- What the system calls of the constructor answer.
pub record Kernel : Type 0 where
  pub socket : ℤ
  pub bind : ℤ
  pub eventfd : ℤ
  pub open_file : ℤ

-- How the constructor ends, with the files that are open then.
pub record SetUp : Type 0 where
  pub succeeded : Bool
  pub open_files : List ℤ

-- _set_up_files
set_up_files : Kernel → List ℤ → SetUp
set_up_files k files =
    if ltb_ℤ k.eventfd (pos 1)
    then record { succeeded = false; open_files = files }
    else if ltb_ℤ k.open_file (pos 1)
    then record { succeeded = false; open_files = k.eventfd ∷ files }
    else record { succeeded = true; open_files = k.open_file ∷ k.eventfd ∷ files }

-- _set_up_socket, and _set_up_files after it
unfoldable pub make_xenomai : Kernel → SetUp
unfolding set_up_files
make_xenomai k =
    if ltb_ℤ k.socket (pos 0)
    then record { succeeded = false; open_files = [] }
    else if ltb_ℤ k.bind (pos 0)
    then record { succeeded = false; open_files = k.socket ∷ [] }
    else set_up_files k (k.socket ∷ [])

-- A file that is polled: `revents` as `poll` leaves it, and what `read` then gives.
pub record Target : Type 0 where
  pub revents : ℕ
  pub bytes : ℤ

unfoldable pub drain : List Target → ℤ → ℤ
drain [] len = len
drain (t ∷ ts) len = drain ts (if t.revents == 0 then len else len +ℤ t.bytes)

-- The loop over the two targets, and the result.
unfoldable pub wait : (rt_file : Target) → (non_rt_file : Target) → Bool
unfolding drain
wait rt_file non_rt_file = ltb_ℤ (pos 1) (drain (rt_file ∷ non_rt_file ∷ []) (pos 0))

-- If a read of the socket gives the bytes that were sent, one for each notification from a realtime
-- thread, and a read of the eventfd gives 8 bytes, a wait says that it was notified exactly if another
-- thread notified, or if realtime threads notified twice: one notification from a realtime thread
-- alone gives `false`.
pub wait-notified_iff :
    (rt_file non_rt_file : Target) (n : ℕ)
    → rt_file.bytes ≡ pos n
    → non_rt_file.bytes ≡ pos 8
    → (wait rt_file non_rt_file ≡ true)
      ↔ ((non_rt_file.revents ≢ 0) ⊎ ((rt_file.revents ≢ 0) × (2 ≤ n)))
unfolding wait drain
wait-notified_iff rt_file non_rt_file n e f = elim (ℕ_discrete non_rt_file.revents 0) [
  | no b ↦ ((λ q. inl b), (λ q. ground (arith, q)))
  | yes b ↦ elim (ℕ_discrete rt_file.revents 0) [
    | no a ↦ ((λ q. inr (a, ground (arith, q))), (λ q. ground (arith, q)))
    | yes a ↦ ((λ q. absurd (ground (arith, q))), (λ q. absurd (ground (arith, q))))
  ]
]

-- The constructor succeeds exactly if each of its system calls does. No file is left open exactly if
-- the socket could not be opened: if a later call fails, the constructor throws with files open that no
-- destructor will close.
pub make_xenomai-succeeded_iff :
    (k : Kernel)
    → (((make_xenomai k).succeeded ≡ true) ↔ (
        (ltb_ℤ k.socket (pos 0) ≡ false)
        × (ltb_ℤ k.bind (pos 0) ≡ false)
        × (ltb_ℤ k.eventfd (pos 1) ≡ false)
        × (ltb_ℤ k.open_file (pos 1) ≡ false)))
      × (((make_xenomai k).open_files ≡ []) ↔ (ltb_ℤ k.socket (pos 0) ≡ true))
unfolding make_xenomai set_up_files
make_xenomai-succeeded_iff k = (
  (
    (λ q. (ground (arith, q), ground (arith, q), ground (arith, q), ground (arith, q))),
    (λ (socket, bind, eventfd, file). ground (arith, socket, bind, eventfd, file)),
  ),
  ((λ q. ground (arith, q)), (λ q. ground (arith, q))),
)
