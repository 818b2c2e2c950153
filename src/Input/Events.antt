-- ===== src/Input/Events.antt =====
-- Event types, axes and mouse buttons of linux/input-event-codes.h, and `struct input_event`.
use Prim.Native.Nat.{ℕ}
use meta_dualsense.Prelude.Int.{ℤ}

abbrev pub btn_mouse : ℕ
btn_mouse = 0x110

abbrev pub btn_left : ℕ
btn_left = 0x110

abbrev pub btn_right : ℕ
btn_right = 0x111

abbrev pub btn_middle : ℕ
btn_middle = 0x112

abbrev pub btn_side : ℕ
btn_side = 0x113

abbrev pub btn_extra : ℕ
btn_extra = 0x114

abbrev pub rel_x : ℕ
rel_x = 0x00

abbrev pub rel_y : ℕ
rel_y = 0x01

abbrev pub rel_wheel : ℕ
rel_wheel = 0x08

abbrev pub ev_syn : ℕ
ev_syn = 0x00

abbrev pub ev_key : ℕ
ev_key = 0x01

abbrev pub ev_rel : ℕ
ev_rel = 0x02

abbrev pub syn_report : ℕ
syn_report = 0

-- The fields that the programs read; the time is that of the event's `input_event_sec` and `_usec`.
pub record InputEvent : Type 0 where
  pub sec : ℤ
  pub usec : ℤ
  pub type : ℕ
  pub code : ℕ
  pub value : ℤ
