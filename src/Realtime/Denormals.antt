-- ===== src/Realtime/Denormals.antt =====
-- set_flush_denormals_to_zero of src/twine.cpp.
use twine.Prelude.{ℕ, ◌/◌, ◌%◌, ◌≡◌, ◌≢◌, refl, Bool, true, false, arith}

-- The control register of SSE before and after it: a build for other processors does nothing.
unfoldable pub set_flush_denormals_to_zero : (sse : Bool) → (mxcsr : ℕ) → ℕ
set_flush_denormals_to_zero true mxcsr = 0x9FC0
set_flush_denormals_to_zero false mxcsr = mxcsr

-- The fields of the register.
abbrev flush_to_zero : ℕ → ℕ
flush_to_zero mxcsr = mxcsr / 32768 % 2

abbrev rounding : ℕ → ℕ
rounding mxcsr = mxcsr / 8192 % 4

abbrev exception_masks : ℕ → ℕ
exception_masks mxcsr = mxcsr / 128 % 64

abbrev denormals_are_zero : ℕ → ℕ
denormals_are_zero mxcsr = mxcsr / 64 % 2

abbrev exception_flags : ℕ → ℕ
exception_flags mxcsr = mxcsr % 64

-- Whatever the register was, both flags are set. The rest of it is written, too: all exceptions are masked,
-- their flags are cleared, and the rounding mode is to the nearest, also if the thread had set another.
pub set_flush_denormals_to_zero-fields :
    (mxcsr : ℕ)
    → (flush_to_zero (set_flush_denormals_to_zero true mxcsr) ≡ 1)
      × (denormals_are_zero (set_flush_denormals_to_zero true mxcsr) ≡ 1)
      × (exception_masks (set_flush_denormals_to_zero true mxcsr) ≡ 63)
      × (exception_flags (set_flush_denormals_to_zero true mxcsr) ≡ 0)
      × (rounding mxcsr ≢ 0 → rounding (set_flush_denormals_to_zero true mxcsr) ≢ rounding mxcsr)
unfolding set_flush_denormals_to_zero
set_flush_denormals_to_zero-fields mxcsr = (refl, refl, refl, refl, (λ h e. h (omega (arith, e))))
