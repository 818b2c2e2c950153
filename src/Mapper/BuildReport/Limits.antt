-- ===== src/Mapper/BuildReport/Limits.antt =====
-- Each value that a report is made of fits a byte.
use meta_dualsense.Prelude.{ℕ, ◌<◌, ◌≡◌, Bool, true, false, List, [], ◌∷◌, if◌then◌else◌, arith}
use meta_dualsense.Prelude.Int.{ℤ, to_unsigned-lt}
use meta_dualsense.Prelude.Bits.{set_bit, set_bit-lt}
use meta_dualsense.Report.{ds_stick_center, ds_act_l2, ds_act_r2}
use meta_dualsense.Config.{Config}
use meta_dualsense.Mapper.{Mapper}
use meta_dualsense.Mapper.Float.{Float}
use meta_dualsense.Mapper.Burst.{is_active}
use meta_dualsense.Mapper.Stick.{
  byte, left_stick_axis, dpad_from_state, stick_clamp_pair, stick_byte, deflect, mouse_to_stick,
}
use meta_dualsense.Mapper.BuildReport.{
  with_bits, btn0_bits, btn1_bits, btn2_bits, sens_scale, scaled, recoils, recoiled, report_writes,
}
use meta_dualsense.Mapper.BuildReport.Writes.{AreBytes}

-- The bits that a list of buttons sets lie in a byte.
abbrev AreLow : List (ℕ × ℕ) → Type 0
AreLow [] = Unit
AreLow ((a, k) ∷ rest) = (k < 8) × AreLow rest

with_bits-lt :
    (on : ℕ → Bool) (bits : List (ℕ × ℕ)) (w : ℕ)
    → AreLow bits
    → w < 256
    → with_bits on bits w < 256
unfolding with_bits
with_bits-lt on [] w l h = h
with_bits-lt on ((a, k) ∷ rest) w l h =
    with_bits-lt on rest (if on a then set_bit w k else w) l.1
      (ground (arith, set_bit-lt 8 w k h l.0))

dpad-lt : {Double : Type 0} (m : Mapper Double) → dpad_from_state m < 256
unfolding dpad_from_state
dpad-lt m = ground arith

byte-lt : (v : ℤ) → byte v < 256
byte-lt v = to_unsigned-lt v

pub axis-lt : {Double : Type 0} (m : Mapper Double) (a b : ℕ) → left_stick_axis m a b < 256
unfolding left_stick_axis
axis-lt m a b = byte-lt _

if-lt : (b : Bool) (x y : ℕ) → x < 256 → y < 256 → (if b then x else y) < 256
if-lt true x y h k = h
if-lt false x y h k = k

pair_if-lt :
    (b : Bool) (p q : ℕ × ℕ)
    → (p.0 < 256) × (p.1 < 256)
    → (q.0 < 256) × (q.1 < 256)
    → ((if b then p else q).0 < 256) × ((if b then p else q).1 < 256)
pair_if-lt true p q h k = h
pair_if-lt false p q h k = k

triple_if-lt :
    {M : Type 0} (b : Bool) (p q : M × ℕ × ℕ)
    → (p.1 < 256) × (p.2 < 256)
    → (q.1 < 256) × (q.2 < 256)
    → ((if b then p else q).1 < 256) × ((if b then p else q).2 < 256)
triple_if-lt true p q h k = h
triple_if-lt false p q h k = k

module _ (fp : Float) where
  open fp use {Double}

  pub clamp_pair-lt :
      (x y : ℕ)
      → x < 256
      → y < 256
      → ((stick_clamp_pair fp x y).0 < 256) × ((stick_clamp_pair fp x y).1 < 256)
  unfolding stick_clamp_pair
  clamp_pair-lt x y hx hy = pair_if-lt _ _ _ (byte-lt _, byte-lt _) (hx, hy)

  pub mouse_to_stick-lt :
      (cfg : Config Double) (m : Mapper Double) (vx vy : Double)
      → ((mouse_to_stick fp cfg m vx vy).1 < 256) × ((mouse_to_stick fp cfg m vx vy).2 < 256)
  unfolding mouse_to_stick deflect stick_byte
  mouse_to_stick-lt cfg m vx vy =
      triple_if-lt _
        (record m { debt_x = fp.lit 0 0; debt_y = fp.lit 0 0 }, ds_stick_center, ds_stick_center) _
        (omega arith, omega arith) (byte-lt _, byte-lt _)

  pub seq-mouse_to_stick :
      (cfg : Config Double) (m : Mapper Double) (vx vy : Double)
      → (mouse_to_stick fp cfg m vx vy).0.seq ≡ m.seq
  unfolding mouse_to_stick deflect
  seq-mouse_to_stick cfg m vx vy = ground arith

  scaled-lt : (s : Double) (r : ℕ) → r < 256 → scaled fp s r < 256
  unfolding scaled
  scaled-lt s r h = if-lt _ _ _ (byte-lt _) h

  recoiled-lt : (on : Bool) (bias : Double) (r : ℕ) → r < 256 → recoiled fp on bias r < 256
  unfolding recoiled
  recoiled-lt true bias r h = byte-lt _
  recoiled-lt false bias r h = h

  pub writes-AreBytes :
      (cfg : Config Double) (m : Mapper Double) (left right : ℕ × ℕ) (now_ns : ℕ)
      → left.0 < 256
      → left.1 < 256
      → right.0 < 256
      → right.1 < 256
      → m.seq < 256
      → AreBytes (report_writes fp cfg m left right now_ns)
  unfolding report_writes
  writes-AreBytes cfg m left right now_ns a b c d e =
      let on : ℕ → Bool = λ a. is_active fp cfg m a now_ns in
      let s = sens_scale fp cfg m in
      let r = recoils fp cfg m in
      let sx = scaled-lt s right.0 c in
      let sy = scaled-lt s right.1 d in
      let low0 : AreLow btn0_bits =
        (omega arith, (omega arith, (omega arith, (omega arith, tt)))) in
      let low1 : AreLow btn1_bits = (
        omega arith,
        (
          omega arith,
          (
            omega arith,
            (omega arith, (omega arith, (omega arith, (omega arith, (omega arith, tt))))),
          ),
        ),
      ) in
      let low2 : AreLow btn2_bits = (omega arith, (omega arith, (omega arith, tt))) in
      (
        omega arith,
        (
          a,
          (
            b,
            (
              c,
              (
                d,
                (
                  sx,
                  (
                    sy,
                    (
                      recoiled-lt r cfg.recoil_x (scaled fp s right.0) sx,
                      (
                        recoiled-lt r cfg.recoil_y (scaled fp s right.1) sy,
                        (
                          if-lt (on ds_act_l2) 255 0 (omega arith) (omega arith),
                          (
                            if-lt (on ds_act_r2) 255 0 (omega arith) (omega arith),
                            (
                              e,
                              (
                                with_bits-lt on btn0_bits (dpad_from_state m) low0 (dpad-lt m),
                                (
                                  with_bits-lt on btn1_bits 0 low1 (omega arith),
                                  (
                                    with_bits-lt on btn2_bits 0 low2 (omega arith),
                                    (omega arith, (omega arith, (omega arith, (omega arith, tt)))),
                                  ),
                                ),
                              ),
                            ),
                          ),
                        ),
                      ),
                    ),
                  ),
                ),
              ),
            ),
          ),
        ),
      )
