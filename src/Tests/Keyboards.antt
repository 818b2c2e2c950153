-- ===== src/Tests/Keyboards.antt =====
-- kbm-passthrough at concrete inputs.
use meta_dualsense.Prelude.{ℕ, ◌≡◌, List, [], ◌∷◌, if◌then◌else◌}
use meta_dualsense.Prelude.Int.{pos, negsuc}
use meta_dualsense.Input.{InputEvent, key_a, key_leftshift}
use meta_dualsense.Passthrough.Keyboard.{kbd_zero, kbd_report}
use meta_dualsense.Passthrough.Keyboard.KeySet.{
  KeyOp, press, release, run_set, zero-Refines, Refines,
}
use meta_dualsense.Passthrough.Mouse.{MouseState, mouse_zero, mouse_flush}
use meta_dualsense.Passthrough.Mouse.Motion.{signed8, IsClosest, mouse_flush_reports}
use meta_dualsense.Passthrough.Hotkey.Mirror.{loaded}
use meta_dualsense.Passthrough.Loop.{State, service_device}
use meta_dualsense.Passthrough.Loop.Effects.{key_ops, service_device_keys}
use meta_dualsense.Passthrough.Loop.Reports.{any_touch, kbd_reports, service_device_reports}
use meta_dualsense.Tests.Events.{key_down, key_up, frame_end}

-- Seven keys go down, of which the last is lost, and the first comes up.
abbrev seven_keys : List KeyOp
seven_keys = press 4 ∷ press 5 ∷ press 6 ∷ press 7 ∷ press 8 ∷ press 9 ∷ press 10 ∷ release 4 ∷ []

abbrev start : State
start = record { kbd_state = kbd_zero; mouse_state = mouse_zero; hotkey = loaded [] 0 }

-- Shift and A go down, and A comes up again.
abbrev typed : List (InputEvent × ℕ)
typed = (key_down key_leftshift, 1) ∷ (key_down key_a, 2) ∷ (frame_end, 2) ∷ (key_up key_a, 3) ∷ []

service_device_keys_example :
    Refines (service_device start typed 4).0.kbd_state (run_set [] (key_ops typed))
service_device_keys_example = service_device_keys start typed 4 [] zero-Refines

service_device_reports_example :
    kbd_reports (service_device start typed 4).1
    ≡ (if any_touch typed then kbd_report (service_device start typed 4).0.kbd_state ∷ [] else [])
service_device_reports_example = service_device_reports start typed 4

-- More motion than a report holds, in both directions.
abbrev fast : MouseState
fast = record {
  buttons = 1;
  pending_dx = pos 300;
  pending_dy = negsuc 199;
  pending_wheel = negsuc 0;
}

mouse_flush_reports_example :
    (x : ℕ) × (y : ℕ) × (w : ℕ) × (mouse_flush fast ≡ (
      record fast { pending_dx = pos 0; pending_dy = pos 0; pending_wheel = pos 0 },
      1 ∷ x ∷ y ∷ w ∷ [],
    ))
    × IsClosest (pos 300) (signed8 x)
    × IsClosest (negsuc 199) (signed8 y)
    × IsClosest (negsuc 0) (signed8 w)
mouse_flush_reports_example = mouse_flush_reports fast
