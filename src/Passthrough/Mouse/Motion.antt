-- ===== src/Passthrough/Mouse/Motion.antt =====
-- What a flushed report says of the motion that was pending.
use meta_dualsense.Prelude.{ℕ, ◌-◌, refl, ◌≡◌, [], ◌∷◌, arith, if◌then◌else◌, ltb}
use meta_dualsense.Prelude.Int.{ℤ, pos, negsuc, ◌≤ℤ◌, to_unsigned}
use meta_dualsense.Passthrough.Mouse.{MouseState, clamp_int8, byte, mouse_flush}

-- The `int8_t` that the host reads from a byte.
unfoldable pub signed8 : ℕ → ℤ
signed8 b = if ltb b 128 then pos b else negsuc (255 - b)

-- `u` is the value of the range -127 .. 127 that is closest to `v`: it lies in the range, and no
-- other value of the range lies between the two.
abbrev pub IsClosest : ℤ → ℤ → Type 0
IsClosest v u =
    (negsuc 126 ≤ℤ u)
    × (u ≤ℤ pos 127)
    × ((w : ℤ) → negsuc 126 ≤ℤ w → w ≤ℤ pos 127 → (w ≤ℤ v → w ≤ℤ u) × (v ≤ℤ w → u ≤ℤ w))

clamp_int8-IsClosest : (v : ℤ) → IsClosest v (clamp_int8 v)
unfolding clamp_int8
clamp_int8-IsClosest v =
    (ground arith, ground arith, λ w lo hi. (λ h. ground arith, λ h. ground arith))

signed8-byte : (v : ℤ) → signed8 (byte (clamp_int8 v)) ≡ clamp_int8 v
unfolding signed8 clamp_int8 to_unsigned
signed8-byte v = ground arith

byte-IsClosest : (v : ℤ) → IsClosest v (signed8 (byte (clamp_int8 v)))
byte-IsClosest v = rw signed8-byte (clamp_int8-IsClosest v)

-- A flush writes the button byte and three motion bytes, each of which the host reads as the value
-- of -127 .. 127 closest to the motion that was pending on that axis, and leaves no motion pending
-- and the buttons as they were.
pub mouse_flush_reports :
    (s : MouseState)
    → (x : ℕ) × (y : ℕ) × (w : ℕ) × (mouse_flush s ≡ (
      record s { pending_dx = pos 0; pending_dy = pos 0; pending_wheel = pos 0 },
      s.buttons ∷ x ∷ y ∷ w ∷ [],
    ))
      × IsClosest s.pending_dx (signed8 x)
      × IsClosest s.pending_dy (signed8 y)
      × IsClosest s.pending_wheel (signed8 w)
unfolding mouse_flush
mouse_flush_reports s = (
  byte (clamp_int8 s.pending_dx),
  byte (clamp_int8 s.pending_dy),
  byte (clamp_int8 s.pending_wheel),
  refl,
  byte-IsClosest s.pending_dx,
  byte-IsClosest s.pending_dy,
  byte-IsClosest s.pending_wheel,
)
