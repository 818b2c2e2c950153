-- ===== src/Tests/Motion.antt =====
-- The mapper at concrete events, with doubles left out: the unit stands for a double.
use meta_dualsense.Prelude.{◌≡◌, List, [], ◌∷◌, ◌==◌, take, if◌then◌else◌}
use meta_dualsense.Prelude.Int.{pos, negsuc}
use meta_dualsense.Input.{InputEvent, key_w, rel_x, rel_y}
use meta_dualsense.Report.{ds_act_none, ds_act_lstick_up}
use meta_dualsense.Config.{Config}
use meta_dualsense.Mapper.{Mapper, mapper_init}
use meta_dualsense.Mapper.Frames.{frames, no_frames}
use meta_dualsense.Mapper.History.{samples, run, run_records}
use meta_dualsense.Tests.Events.{key_down, motion, frame_end}

-- W moves the left stick up.
abbrev w_alone : Config Unit
w_alone = record {
  window_ms = tt;
  curve_exp = tt;
  anti_deadzone = tt;
  outer_sat = tt;
  sens_counts_ms = tt;
  debt_drain = tt;
  key_action = λ code. if code == key_w then ds_act_lstick_up else ds_act_none;
  btn_action = λ code. ds_act_none;
  burst_hz = λ a. tt;
  burst_duty = λ a. tt;
  burst_jitter = λ a. tt;
  burst_duty_jitter = λ a. tt;
  burst_skip_prob = λ a. tt;
  hotkey_codes = [];
  hotkey_n = 0;
  recoil_action = ds_act_none;
  recoil_x = tt;
  recoil_y = tt;
  ads_action = ds_act_none;
  ads_sens_scale = tt;
  fire_sens_scale = tt;
}

abbrev initial : Mapper Unit
initial = mapper_init tt

-- W goes down while the mouse moves.
abbrev some_events : List InputEvent
some_events =
    key_down key_w
    ∷ motion rel_x (pos 3)
    ∷ motion rel_y (negsuc 0)
    ∷ frame_end
    ∷ motion rel_x (pos 2)
    ∷ []

run_records_example :
    (samples (run w_alone initial some_events) ≡ take 256 (frames no_frames some_events).all)
    × ((run w_alone initial some_events).pending_dx ≡ (frames no_frames some_events).dx)
    × ((run w_alone initial some_events).pending_dy ≡ (frames no_frames some_events).dy)
run_records_example = run_records w_alone tt some_events
