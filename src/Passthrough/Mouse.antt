-- ===== src/Passthrough/Mouse.antt =====
-- `struct mouse_state` of kbm-passthrough and the four-byte boot mouse report.
pub mod Motion
use meta_dualsense.Prelude.{ℕ, suc, zero, List, [], ◌∷◌, if◌then◌else◌}
use meta_dualsense.Prelude.Int.{ℤ, pos, negsuc, ltb_ℤ, to_unsigned}

-- `buttons` is a byte, the others are `int32_t`.
pub record MouseState : Type 0 where
  pub buttons : ℕ
  pub pending_dx : ℤ
  pub pending_dy : ℤ
  pub pending_wheel : ℤ

abbrev pub mouse_zero : MouseState
mouse_zero = record { buttons = 0; pending_dx = pos 0; pending_dy = pos 0; pending_wheel = pos 0 }

unfoldable pub clamp_int8 : ℤ → ℤ
clamp_int8 v = if ltb_ℤ (pos 127) v then pos 127 else if ltb_ℤ v (negsuc 126) then negsuc 126 else v

-- `(uint8_t)x`
abbrev pub byte : ℤ → ℕ
byte = to_unsigned 256

-- The new state and the bytes written.
unfoldable pub mouse_flush : MouseState → MouseState × List ℕ
unfolding clamp_int8
mouse_flush s =
    let x = clamp_int8 s.pending_dx in
    let y = clamp_int8 s.pending_dy in
    let w = clamp_int8 s.pending_wheel in
    (
      record s { pending_dx = pos 0; pending_dy = pos 0; pending_wheel = pos 0 },
      s.buttons ∷ byte x ∷ byte y ∷ byte w ∷ [],
    )
