-- ===== src/Inspect/Grease.antt =====
-- The GREASE values that `isGrease` of backend/internal/tlsinspect/inspector.go recognises.
use secure_mail_scope_sih.Common.{ℕ, ◌+◌, ◌*◌, ◌/◌, ◌%◌, ◌<◌, ◌≡◌, ◌↔◌, true, arith}
use secure_mail_scope_sih.Inspect.Values.{is_grease_number}

-- The numbers taken for GREASE are exactly 0x0A0A, 0x1A1A, ..., 0xFAFA, those of RFC 8701.
pub is_grease_number_iff :
    (num : ℕ) → (is_grease_number num ≡ true) ↔ ((k : ℕ) × (k < 16) × (num ≡ 0x0A0A + 0x1010 * k))
unfolding is_grease_number
is_grease_number_iff num =
    (λ h. (num % 256 / 16, ground arith, ground arith), λ (k, small, e). ground arith)
