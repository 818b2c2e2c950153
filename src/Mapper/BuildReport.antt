-- ===== src/Mapper/BuildReport.antt =====
-- `mapper_build_report` of recipes-apps/kbm-mapper-ff/files/mapper.c.
pub mod Writes
pub mod Limits
pub mod Bytes
pub mod Hat
pub mod Kept
pub mod Places
pub mod Buttons
use meta_dualsense.Prelude.{
  ℕ, ◌+◌, ◌/◌, ◌%◌, ◌^◌, Bool, not, ◌&&◌, ◌||◌, List, [], ◌∷◌, ◌==◌, ltb, if◌then◌else◌, set,
  replicate,
}
use meta_dualsense.Prelude.Int.{pos, negsuc, ◌+ℤ◌, ◌-ℤ◌}
use meta_dualsense.Prelude.Bits.{set_bit}
use meta_dualsense.Report.{
  ds_report_len, ds_report_id, ds_off_lx, ds_off_ly, ds_off_rx, ds_off_ry, ds_off_l2, ds_off_r2,
  ds_off_seq, ds_off_btn0, ds_off_btn1, ds_off_btn2, ds_off_ts, ds_act_none, ds_act_lstick_up,
  ds_act_lstick_down, ds_act_lstick_left, ds_act_lstick_right, ds_act_cross, ds_act_circle,
  ds_act_square, ds_act_triangle, ds_act_l1, ds_act_r1, ds_act_l2, ds_act_r2, ds_act_l3, ds_act_r3,
  ds_act_create, ds_act_options, ds_act_ps, ds_act_touchpad, ds_act_mute,
}
use meta_dualsense.Config.{Config}
use meta_dualsense.Mapper.{Mapper, is_pressed}
use meta_dualsense.Mapper.Float.{Float}
use meta_dualsense.Mapper.Burst.{burst_tick, is_active}
use meta_dualsense.Mapper.Stick.{
  byte, clamp, left_stick_axis, dpad_from_state, stick_clamp_pair, window_sum, mouse_to_stick,
}

-- `if (on) buttons |= 1u << k`, for each pair in turn
unfoldable pub with_bits : (ℕ → Bool) → List (ℕ × ℕ) → ℕ → ℕ
with_bits on [] w = w
with_bits on ((a, k) ∷ rest) w = with_bits on rest (if on a then set_bit w k else w)

-- The buttons of the three bytes, each with its bit, in the order of the code.
abbrev pub btn0_bits : List (ℕ × ℕ)
btn0_bits = (ds_act_square, 4) ∷ (ds_act_cross, 5) ∷ (ds_act_circle, 6) ∷ (ds_act_triangle, 7) ∷ []

abbrev pub btn1_bits : List (ℕ × ℕ)
btn1_bits =
    (ds_act_l1, 0)
    ∷ (ds_act_r1, 1)
    ∷ (ds_act_l2, 2)
    ∷ (ds_act_r2, 3)
    ∷ (ds_act_create, 4)
    ∷ (ds_act_options, 5)
    ∷ (ds_act_l3, 6)
    ∷ (ds_act_r3, 7)
    ∷ []

abbrev pub btn2_bits : List (ℕ × ℕ)
btn2_bits = (ds_act_ps, 0) ∷ (ds_act_touchpad, 1) ∷ (ds_act_mute, 2) ∷ []

-- The assignments to `buf[i]` in turn
unfoldable pub written : List (ℕ × ℕ) → List ℕ → List ℕ
written [] buf = buf
written ((i, v) ∷ rest) buf = written rest (set buf i v)

abbrev pub time_stamp : ℕ → ℕ
time_stamp now_ns = now_ns / 1000 / 333 % 2 ^ 32

module _ (fp : Float) where
  open fp use {Double, lit, of_int, mul, eq, to_int}

  unfoldable pub sens_scale : Config Double → Mapper Double → Double
  sens_scale cfg m =
      let s0 = lit 10 1 in
      let s1 =
        if not (cfg.ads_action == ds_act_none) && is_pressed m cfg.ads_action
        then mul s0 cfg.ads_sens_scale
        else s0 in
      if not (cfg.recoil_action == ds_act_none) && is_pressed m cfg.recoil_action
      then mul s1 cfg.fire_sens_scale
      else s1

  -- A byte of the right stick behind the sensitivity scaling
  unfoldable pub scaled : Double → ℕ → ℕ
  scaled s r =
      let v = to_int (mul (of_int (pos r -ℤ pos 128)) s) in
      if not (eq s (lit 10 1)) then byte (clamp (negsuc 127) (pos 127) v +ℤ pos 128) else r

  unfoldable pub recoils : Config Double → Mapper Double → Bool
  recoils cfg m =
      not (cfg.recoil_action == ds_act_none)
      && ((not (eq cfg.recoil_x (lit 0 1)) || not (eq cfg.recoil_y (lit 0 1)))
          && is_pressed m cfg.recoil_action)

  -- A byte of the right stick behind the recoil compensation
  unfoldable pub recoiled : Bool → Double → ℕ → ℕ
  recoiled on bias r =
      let b = to_int (mul bias (lit 1270 1)) in
      if on then byte (clamp (pos 0) (pos 255) (pos r +ℤ b)) else r

  -- The assignments behind `memset`, by the state with the press times refreshed, the left stick
  -- and the right stick.
  unfoldable pub report_writes : Config Double → Mapper Double → ℕ × ℕ → ℕ × ℕ → ℕ → List (ℕ × ℕ)
  report_writes cfg m left right now_ns =
      let on : ℕ → Bool = λ a. is_active fp cfg m a now_ns in
      let ts = time_stamp now_ns in
      let s = sens_scale cfg m in
      let r = recoils cfg m in
      (0, ds_report_id)
      ∷ (ds_off_lx, left.0)
      ∷ (ds_off_ly, left.1)
      ∷ (ds_off_rx, right.0)
      ∷ (ds_off_ry, right.1)
      ∷ (ds_off_rx, scaled s right.0)
      ∷ (ds_off_ry, scaled s right.1)
      ∷ (ds_off_rx, recoiled r cfg.recoil_x (scaled s right.0))
      ∷ (ds_off_ry, recoiled r cfg.recoil_y (scaled s right.1))
      ∷ (ds_off_l2, if on ds_act_l2 then 255 else 0)
      ∷ (ds_off_r2, if on ds_act_r2 then 255 else 0)
      ∷ (ds_off_seq, m.seq)
      ∷ (ds_off_btn0, with_bits on btn0_bits (dpad_from_state m))
      ∷ (ds_off_btn1, with_bits on btn1_bits 0)
      ∷ (ds_off_btn2, with_bits on btn2_bits 0)
      ∷ (ds_off_ts + 0, ts % 256)
      ∷ (ds_off_ts + 1, ts / 2 ^ 8 % 256)
      ∷ (ds_off_ts + 2, ts / 2 ^ 16 % 256)
      ∷ (ds_off_ts + 3, ts / 2 ^ 24 % 256)
      ∷ []

  -- The state and the buffer, which has `len` bytes.
  unfoldable pub mapper_build_report :
      Config Double → Mapper Double → List ℕ → ℕ → ℕ → Mapper Double × List ℕ
  unfolding report_writes
  mapper_build_report cfg m0 buf len now_ns =
      let m1 = burst_tick m0 now_ns in
      let left =
        stick_clamp_pair fp (left_stick_axis m1 ds_act_lstick_left ds_act_lstick_right)
          (left_stick_axis m1 ds_act_lstick_up ds_act_lstick_down) in
      let (dx, dy, dt_ms) = window_sum fp cfg m1 now_ns in
      let (m2, rx, ry) = mouse_to_stick fp cfg m1 (fp.div dx dt_ms) (fp.div dy dt_ms) in
      if ltb len ds_report_len then (m0, buf) else (
        record m2 { seq = (m2.seq + 1) % 256 },
        written (report_writes cfg m2 left (rx, ry) now_ns) (replicate len 0),
      )
