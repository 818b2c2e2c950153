-- ===== src/Tests/Reports.antt =====
-- The mapper's reports at concrete states, with whole numbers for doubles.
use meta_dualsense.Prelude.{
  not, ◌||◌, inl, ℕ, refl, ◌+◌, ◌*◌, ◌/◌, ◌%◌, ◌^◌, ◌<◌, ◌≡◌, true, List, [], ◌∷◌, ◌==◌,
  if◌then◌else◌, get_or, length, replicate, take, refl, arith,
}
use meta_dualsense.Prelude.Int.{ℤ, pos, ltb_ℤ, quot, ◌-ℤ◌, ◌*ℤ◌}
use meta_dualsense.Prelude.Bits.{has_bit, set_bit}
use meta_dualsense.Input.{InputEvent, rel_x}
use meta_dualsense.Report.{
  ds_act_cross, ds_act_l2, ds_act_r2, ds_act_dpad_up, ds_act_dpad_down, ds_act_dpad_left,
  ds_act_dpad_right,
}
use meta_dualsense.Config.{Config, config_init_defaults}
use meta_dualsense.Mapper.{Mapper, mapper_init, set_action, is_pressed}
use meta_dualsense.Mapper.Frames.{frames, no_frames}
use meta_dualsense.Mapper.History.{run}
use meta_dualsense.Mapper.Burst.{burst_tick, is_active}
use meta_dualsense.Mapper.Burst.Clockwork.{clockwork_lem}
use meta_dualsense.Mapper.Burst.Since.{burst_tick_since}
use meta_dualsense.Mapper.Stick.{window_sum}
use meta_dualsense.Mapper.Stick.Velocity.{within, last_time, sum, window_sum-frames}
use meta_dualsense.Mapper.BuildReport.{mapper_build_report}
use meta_dualsense.Mapper.BuildReport.Bytes.{report_bytes}
use meta_dualsense.Mapper.BuildReport.Hat.{hat}
use meta_dualsense.Mapper.BuildReport.Places.{cross}
use meta_dualsense.Mapper.BuildReport.Buttons.{report_buttons, report_hat}
use meta_dualsense.Tests.Events.{motion, frame_end}
use meta_dualsense.Tests.Doubles.{whole}

abbrev defaults : Config ℤ
defaults = config_init_defaults whole

-- The cross is held.
abbrev cross_held : Mapper ℤ
cross_held = set_action (mapper_init (pos 0)) ds_act_cross true

abbrev buffer : List ℕ
buffer = replicate 64 7

report_bytes_example :
    let (m', report) = mapper_build_report whole defaults cross_held buffer 64 5000000000 in
    (length report ≡ 64)
    × (get_or report 40 0 < 256)
    × (get_or report 7 0 ≡ cross_held.seq)
    × (get_or report 11 0
          + 2 ^ 8 * get_or report 12 0
          + 2 ^ 16 * get_or report 13 0
          + 2 ^ 24 * get_or report 14 0
        ≡ 5000000000 / 1000 / 333 % 2 ^ 32)
    × (m'.seq ≡ (cross_held.seq + 1) % 256)
unfolding set_action mapper_init
report_bytes_example =
    report_bytes whole defaults cross_held buffer 64 5000000000 40 (omega arith) (omega arith)
      (omega arith)

report_buttons_example :
    has_bit (get_or (mapper_build_report whole defaults cross_held buffer 64 5000000000).1 8 0) 5
    ≡ is_active whole defaults (burst_tick cross_held 5000000000) ds_act_cross 5000000000
report_buttons_example =
    report_buttons whole defaults cross_held buffer 64 5000000000 8 5 ds_act_cross (omega arith)
      cross

report_hat_example :
    let m' = burst_tick cross_held 5000000000 in
    let report = (mapper_build_report whole defaults cross_held buffer 64 5000000000).1 in
    (has_bit (get_or report 8 0) 3
      ≡ has_bit
          (hat
            (is_pressed m' ds_act_dpad_up)
            (is_pressed m' ds_act_dpad_down)
            (is_pressed m' ds_act_dpad_left)
            (is_pressed m' ds_act_dpad_right))
          3)
    × (get_or report 5 0 ≡ (if is_active whole defaults m' ds_act_l2 5000000000 then 255 else 0))
    × (get_or report 6 0 ≡ (if is_active whole defaults m' ds_act_r2 5000000000 then 255 else 0))
report_hat_example =
    report_hat whole defaults cross_held buffer 64 5000000000 3 (omega arith) (omega arith)

abbrev moves : List InputEvent
moves = motion rel_x (pos 3) ∷ frame_end ∷ motion rel_x (pos 4) ∷ frame_end ∷ []

window_sum-frames_example :
    let cutoff = pos 1000000000 -ℤ defaults.window_ms *ℤ pos 1000000 in
    let counted = within cutoff (take 256 (frames no_frames moves).all) in
    let dt_ms = quot (pos 1000000000 -ℤ last_time (pos 1000000000) counted) 1000000 in
    window_sum whole defaults (run defaults (mapper_init (pos 0)) moves) 1000000000 ≡ (
      sum whole (λ s. s.dx) (pos 0) counted,
      sum whole (λ s. s.dy) (pos 0) counted,
      if ltb_ℤ dt_ms (pos 1) then defaults.window_ms else dt_ms,
    )
window_sum-frames_example = window_sum-frames whole defaults (pos 0) moves 1000000000

burst_tick_since_example :
    let since = get_or cross_held.pressed_since_ns ds_act_cross 0 in
    (get_or (burst_tick cross_held 9).pressed_since_ns ds_act_cross 0 ≡ (
      if is_pressed (burst_tick cross_held 9) ds_act_cross
      then (if since == 0 then 9 else since)
      else 0))
    × (is_pressed (burst_tick cross_held 9) ds_act_cross ≡ is_pressed cross_held ds_act_cross)
unfolding set_action mapper_init
burst_tick_since_example = burst_tick_since cross_held 9 ds_act_cross (omega arith) (omega arith)

-- The right trigger bursts at 10 Hz.
abbrev bursting : Config ℤ
bursting = record defaults { burst_hz = λ a. pos 10; burst_duty = λ a. pos 1 }

abbrev firing : Mapper ℤ
firing = record (set_action (mapper_init (pos 0)) ds_act_r2 true) {
  pressed_since_ns = replicate 28 1000;
}

-- A cycle of 100 ms, high throughout, of which 30 ms are over, for the third time.
clockwork_lem_example :
    is_active whole bursting firing ds_act_r2 (1000 + (3 * 100000000 + 30000000))
    ≡ (not (ltb_ℤ (pos 0) (pos 100000000)) || ltb_ℤ (pos 30000000) (pos 100000000 *ℤ pos 1))
unfolding config_init_defaults quot is_pressed set_action mapper_init has_bit set_bit
clockwork_lem_example =
    clockwork_lem whole bursting firing ds_act_r2 3 30000000 refl refl refl refl (inl (omega arith))
