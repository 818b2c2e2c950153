-- ===== src/Tests/Events.antt =====
-- Events for the examples.
use meta_dualsense.Prelude.{ℕ}
use meta_dualsense.Prelude.Int.{ℤ, pos}
use meta_dualsense.Input.{InputEvent, ev_key, ev_rel, ev_syn, syn_report}

abbrev pub event_of : ℕ → ℕ → ℤ → InputEvent
event_of type code value = record {
  sec = pos 1;
  usec = pos 5;
  type = type;
  code = code;
  value = value;
}

abbrev pub key_down : ℕ → InputEvent
key_down code = event_of ev_key code (pos 1)

abbrev pub key_up : ℕ → InputEvent
key_up code = event_of ev_key code (pos 0)

abbrev pub motion : ℕ → ℤ → InputEvent
motion code value = event_of ev_rel code value

abbrev pub frame_end : InputEvent
frame_end = event_of ev_syn syn_report (pos 0)
