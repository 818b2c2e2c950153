-- ===== src/Mapper/BuildReport/Buttons.antt =====
-- Which buttons a report shows.
use meta_dualsense.Prelude.{
  ℕ, ◌<◌, ◌≤◌, ◌≡◌, ap, ◌∙◌, Bool, false, List, ltb, if◌then◌else◌, get_or, replicate, arith,
}
use meta_dualsense.Prelude.Bits.{has_bit}
use meta_dualsense.Report.{
  ds_report_len, ds_act_l2, ds_act_r2, ds_act_dpad_up, ds_act_dpad_down, ds_act_dpad_left,
  ds_act_dpad_right, ds_act_lstick_up, ds_act_lstick_down, ds_act_lstick_left, ds_act_lstick_right,
}
use meta_dualsense.Config.{Config}
use meta_dualsense.Mapper.{Mapper, is_pressed}
use meta_dualsense.Mapper.Float.{Float}
use meta_dualsense.Mapper.Burst.{burst_tick, is_active}
use meta_dualsense.Mapper.Stick.{left_stick_axis, stick_clamp_pair, window_sum, mouse_to_stick}
use meta_dualsense.Mapper.BuildReport.{written, report_writes, mapper_build_report}
use meta_dualsense.Mapper.BuildReport.Writes.{last_value, get_or-report}
use meta_dualsense.Mapper.BuildReport.Hat.{hat}
use meta_dualsense.Mapper.BuildReport.Kept.{is_active-mouse_to_stick, hat-mouse_to_stick}
use meta_dualsense.Mapper.BuildReport.Places.{
  IsButton, button_writes, dpad_writes, in_report, trigger_writes,
}

module _ (fp : Float) (cfg : Config (fp.Double)) where
  open fp use {Double}

  report_parts :
      (m : Mapper Double) (buf : List ℕ) (len now_ns : ℕ)
      → ds_report_len ≤ len
      → let m' = burst_tick m now_ns in
        let report = (mapper_build_report fp cfg m buf len now_ns).1 in
        ((byte k a : ℕ)
          → IsButton byte k a
          → has_bit (get_or report byte 0) k ≡ is_active fp cfg m' a now_ns)
        × ((j : ℕ)
            → j < 4
            → has_bit (get_or report 8 0) j
              ≡ has_bit
                  (hat
                    (is_pressed m' ds_act_dpad_up)
                    (is_pressed m' ds_act_dpad_down)
                    (is_pressed m' ds_act_dpad_left)
                    (is_pressed m' ds_act_dpad_right))
                  j)
        × (get_or report 5 0 ≡ (if is_active fp cfg m' ds_act_l2 now_ns then 255 else 0))
        × (get_or report 6 0 ≡ (if is_active fp cfg m' ds_act_r2 now_ns then 255 else 0))
  unfolding mapper_build_report
  report_parts m buf len now_ns h =
      let m1 = burst_tick m now_ns in
      let (dx, dy, dt_ms) = window_sum fp cfg m1 now_ns in
      let moved = mouse_to_stick fp cfg m1 (fp.div dx dt_ms) (fp.div dy dt_ms) in
      let left =
        stick_clamp_pair fp (left_stick_axis m1 ds_act_lstick_left ds_act_lstick_right)
          (left_stick_axis m1 ds_act_lstick_up ds_act_lstick_down) in
      let ws = report_writes fp cfg moved.0 left (moved.1, moved.2) now_ns in
      let at : (j : ℕ) → j < len → get_or (written ws (replicate len 0)) j 0 ≡ last_value ws j 0 =
        get_or-report ws len in
      let same : (a : ℕ) → is_active fp cfg moved.0 a now_ns ≡ is_active fp cfg m1 a now_ns =
        λ a. is_active-mouse_to_stick fp cfg m1 (fp.div dx dt_ms) (fp.div dy dt_ms) a now_ns in
      let hats = hat-mouse_to_stick fp cfg m1 (fp.div dx dt_ms) (fp.div dy dt_ms) in
      let long : ltb len ds_report_len ≡ false = ground arith in
      let (t5, t6) = trigger_writes fp cfg moved.0 left (moved.1, moved.2) now_ns in
      rw long (
        λ byte k a b.
            ap (λ (w : ℕ). has_bit w k) (at byte (omega (arith, in_report fp cfg b)))
            ∙ button_writes fp cfg moved.0 left (moved.1, moved.2) now_ns byte k a b
            ∙ same a,
        λ j q.
            ap (λ (w : ℕ). has_bit w j) (at 8 (omega arith))
            ∙ dpad_writes fp cfg moved.0 left (moved.1, moved.2) now_ns j q
            ∙ ap (λ (w : ℕ). has_bit w j) hats,
        at 5 (omega arith) ∙ t5 ∙ ap (λ (b : Bool). if b then 255 else 0) (same ds_act_l2),
        at 6 (omega arith) ∙ t6 ∙ ap (λ (b : Bool). if b then 255 else 0) (same ds_act_r2),
      )

  -- For a buffer of at least 64 bytes: each of the fifteen buttons has its bit set in the report
  -- exactly if its action is active, pressed and not in the low phase of a burst, in the state with
  -- the press times brought up to date.
  pub report_buttons :
      (m : Mapper Double) (buf : List ℕ) (len now_ns byte k a : ℕ)
      → ds_report_len ≤ len
      → IsButton byte k a
      → has_bit (get_or (mapper_build_report fp cfg m buf len now_ns).1 byte 0) k
        ≡ is_active fp cfg (burst_tick m now_ns) a now_ns
  report_buttons m buf len now_ns byte k a h b = (report_parts m buf len now_ns h).0 byte k a b

  -- For a buffer of at least 64 bytes, by the state with the press times brought up to date: the
  -- low four bits of byte 8 are those of the hat's value for the four directions held, and bytes 5
  -- and 6 are 255 if the action of the left and right trigger is active, else 0.
  pub report_hat :
      (m : Mapper Double) (buf : List ℕ) (len now_ns j : ℕ)
      → ds_report_len ≤ len
      → j < 4
      → let m' = burst_tick m now_ns in
        let report = (mapper_build_report fp cfg m buf len now_ns).1 in
        (has_bit (get_or report 8 0) j
          ≡ has_bit
              (hat
                (is_pressed m' ds_act_dpad_up)
                (is_pressed m' ds_act_dpad_down)
                (is_pressed m' ds_act_dpad_left)
                (is_pressed m' ds_act_dpad_right))
              j)
        × (get_or report 5 0 ≡ (if is_active fp cfg m' ds_act_l2 now_ns then 255 else 0))
        × (get_or report 6 0 ≡ (if is_active fp cfg m' ds_act_r2 now_ns then 255 else 0))
  report_hat m buf len now_ns j h q =
      let (buttons, bits, left, right) = report_parts m buf len now_ns h in (bits j q, left, right)
