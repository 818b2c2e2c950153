-- ===== src/Mapper/Stick.antt =====
-- The sticks and the dpad of recipes-apps/kbm-mapper-ff/files/mapper.c: `window_sum`,
-- `mouse_to_stick`, `left_stick_axis`, `stick_clamp_pair` and `dpad_from_state`.
pub mod Velocity
use meta_dualsense.Prelude.{ℕ, zero, suc, ◌+◌, ◌-◌, ◌%◌, ◌&&◌, if◌then◌else◌, get_or}
use meta_dualsense.Prelude.Int.{ℤ, pos, negsuc, ltb_ℤ, to_unsigned, ◌+ℤ◌, ◌-ℤ◌, ◌*ℤ◌}
use meta_dualsense.Report.{
  ds_stick_center, ds_dpad_n, ds_dpad_ne, ds_dpad_e, ds_dpad_se, ds_dpad_s, ds_dpad_sw, ds_dpad_w,
  ds_dpad_nw, ds_dpad_none, ds_act_dpad_up, ds_act_dpad_down, ds_act_dpad_left, ds_act_dpad_right,
}
use meta_dualsense.Config.{Config}
use meta_dualsense.Mapper.{MouseSample, Mapper, no_sample, is_pressed}
use meta_dualsense.Mapper.Float.{Float}

-- The conversion to `uint8_t`
abbrev pub byte : ℤ → ℕ
byte = to_unsigned 256

-- A value below the first bound is set to it, else one above the second is set to that.
abbrev pub clamp : ℤ → ℤ → ℤ → ℤ
clamp low high v = if ltb_ℤ v low then low else if ltb_ℤ high v then high else v

module _ {Double : Type 0} where
  unfoldable pub left_stick_axis : Mapper Double → ℕ → ℕ → ℕ
  left_stick_axis m below above =
      let v0 = if is_pressed m below then negsuc 126 else pos 0 in
      let v1 = if is_pressed m above then v0 +ℤ pos 127 else v0 in byte (pos ds_stick_center +ℤ v1)

  unfoldable pub dpad_from_state : Mapper Double → ℕ
  dpad_from_state m =
      let u = is_pressed m ds_act_dpad_up in
      let d = is_pressed m ds_act_dpad_down in
      let l = is_pressed m ds_act_dpad_left in
      let r = is_pressed m ds_act_dpad_right in
      if u && r
      then ds_dpad_ne
      else if u && l
      then ds_dpad_nw
      else if d && r
      then ds_dpad_se
      else if d && l
      then ds_dpad_sw
      else if u
      then ds_dpad_n
      else if d
      then ds_dpad_s
      else if l
      then ds_dpad_w
      else if r
      then ds_dpad_e
      else ds_dpad_none

module _ (fp : Float) where
  open fp use {Double, lit, of_int, add, sub, mul, div, lt, le, to_int, lrint, sqrt, pow}

  unfoldable pub stick_clamp_pair : ℕ → ℕ → ℕ × ℕ
  stick_clamp_pair x y =
      let dx = pos x -ℤ pos ds_stick_center in
      let dy = pos y -ℤ pos ds_stick_center in
      let mag = sqrt (of_int (dx *ℤ dx +ℤ dy *ℤ dy)) in
      let s = div (lit 1270 1) mag in
      if lt (lit 1270 1) mag
      then (
        byte (pos ds_stick_center +ℤ lrint (mul (of_int dx) s)),
        byte (pos ds_stick_center +ℤ lrint (mul (of_int dy) s)),
      )
      else (x, y)

  -- The sums of `window_sum` while it runs: the motion, and the time of the sample added last.
  pub record Window : Type 0 where
    pub dx : Double
    pub dy : Double
    pub oldest : ℤ

  unfoldable pub counted : Window → MouseSample → Window
  counted w s = record { dx = add w.dx (of_int s.dx); dy = add w.dy (of_int s.dy); oldest = s.t_ns }

  -- The loop from `i` on, of which `left` passes remain.
  unfoldable pub scan : Mapper Double → ℤ → ℕ → ℕ → Window → Window
  scan m cutoff zero i w = w
  scan m cutoff (suc left) i w =
      let s = get_or m.ring ((m.ring_head + 256 - 1 - i) % 256) no_sample in
      let rest = scan m cutoff left (suc i) (counted w s) in if ltb_ℤ s.t_ns cutoff then w else rest

  -- The sums and the time span in ms
  unfoldable pub window_sum : Config Double → Mapper Double → ℕ → Double × Double × Double
  window_sum cfg m now_ns =
      let cutoff = pos now_ns -ℤ to_int (mul cfg.window_ms (lit 1000000 0)) in
      let w =
        scan m cutoff m.ring_count 0 (record { dx = lit 0 0; dy = lit 0 0; oldest = pos now_ns }) in
      let dt_ms = div (of_int (pos now_ns -ℤ w.oldest)) (lit 1000000 0) in
      (w.dx, w.dy, if lt dt_ms (lit 10 1) then cfg.window_ms else dt_ms)

  -- `(int)lrint(DS_STICK_CENTER + o * 127.0)`, clamped to a byte
  unfoldable pub stick_byte : Double → ℕ
  stick_byte o =
      byte
        (clamp (pos 0) (pos 255) (lrint (add (of_int (pos ds_stick_center)) (mul o (lit 1270 1)))))

  -- The part of `mouse_to_stick` behind the test for no deflection: the state with the new debt,
  -- and the two bytes.
  unfoldable pub deflect :
      Config Double → Mapper Double → Double → Double → Double → Mapper Double × ℕ × ℕ
  deflect cfg m nx ny mag =
      let dirx = div nx mag in
      let diry = div ny mag in
      let over = lt cfg.outer_sat mag in
      let excess = sub mag cfg.outer_sat in
      let kept = sub (lit 10 1) cfg.debt_drain in
      let curved = pow (if over then cfg.outer_sat else mag) cfg.curve_exp in
      let out0 = add cfg.anti_deadzone (mul (sub cfg.outer_sat cfg.anti_deadzone) curved) in
      let out1 = if lt cfg.outer_sat out0 then cfg.outer_sat else out0 in
      let out2 = if lt out1 (lit 0 0) then lit 0 0 else out1 in
      (
        record m {
          debt_x = if over then mul dirx excess else mul m.debt_x kept;
          debt_y = if over then mul diry excess else mul m.debt_y kept;
        },
        stick_byte (mul dirx out2),
        stick_byte (mul diry out2),
      )

  unfoldable pub mouse_to_stick :
      Config Double → Mapper Double → Double → Double → Mapper Double × ℕ × ℕ
  mouse_to_stick cfg m vx vy =
      let sens = if lt (lit 0 0) cfg.sens_counts_ms then cfg.sens_counts_ms else lit 10 1 in
      let nx = add (div vx sens) m.debt_x in
      let ny = add (div vy sens) m.debt_y in
      let mag = sqrt (add (mul nx nx) (mul ny ny)) in
      if le mag (lit 1 9)
      then (record m { debt_x = lit 0 0; debt_y = lit 0 0 }, ds_stick_center, ds_stick_center)
      else deflect cfg m nx ny mag
