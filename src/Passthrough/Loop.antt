-- ===== src/Passthrough/Loop.antt =====
-- The event loop of kbm-passthrough: what one readable input device does to the keyboard, the mouse
-- and the chord, and the reports that it sends.
pub mod Modifiers
pub mod Effects
pub mod Reports
use Prim.Native.Nat.{bit_and, bit_or}
use meta_dualsense.Prelude.{
  ℕ, ◌-◌, Bool, true, false, not, ◌&&◌, ◌||◌, List, [], ◌∷◌, ◌++◌, ◌==◌, ltb, if◌then◌else◌,
}
use meta_dualsense.Prelude.Int.{ℤ, pos, ◌+ℤ◌, eqb_ℤ, wrap32}
use meta_dualsense.Input.{InputEvent, ev_key, ev_rel, ev_syn, syn_report, rel_x, rel_y, rel_wheel}
use meta_dualsense.Passthrough.Keymap.{key_to_hid, kbd_modifier_bit, btn_to_bit}
use meta_dualsense.Passthrough.Keyboard.{KbdState, kbd_zero, kbd_press, kbd_release, kbd_report}
use meta_dualsense.Passthrough.Mouse.{MouseState, mouse_zero, mouse_flush}
use meta_dualsense.Passthrough.Hotkey.{HotkeyState, hotkey_update, hotkey_should_fire}

-- What the daemon writes: a report to /dev/hidg0 or /dev/hidg1, or the start of the other mode's
-- service. A failed write of a report is at most logged and changes no state.
pub data Output : Type 0 where
  kbd : List ℕ → Output
  mouse : List ℕ → Output
  switch_to_emulation : Output

pub record State : Type 0 where
  pub kbd_state : KbdState
  pub mouse_state : MouseState
  pub hotkey : HotkeyState

-- `modifiers |= bit`, or `modifiers &= ~bit` in a byte
unfoldable pub put_bit : Bool → ℕ → ℕ → ℕ
put_bit down w b = if down then bit_or w b else bit_and w (255 - b)

-- `kbd_press` or `kbd_release`, whose results the loop does not use
abbrev pub apply_key : Bool → KbdState → ℕ → KbdState
apply_key down s usage = if down then (kbd_press s usage).0 else (kbd_release s usage).0

-- The keyboard after an `EV_KEY` event, and whether it is to be reported.
unfoldable pub key_to_kbd : KbdState → ℕ → Bool → KbdState × Bool
key_to_kbd s code down =
    let modbit = kbd_modifier_bit code in
    let usage = key_to_hid code in
    if not (modbit == 0)
    then (record s { modifiers = put_bit down s.modifiers modbit }, true)
    else if ltb code 256 && not (usage == 0)
    then (apply_key down s usage, true)
    else (s, false)

-- The mouse after an `EV_KEY` event, and the reports sent.
unfoldable pub key_to_mouse : MouseState → ℕ → Bool → MouseState × List Output
key_to_mouse s code down =
    let bbit = btn_to_bit code in
    let flushed = mouse_flush (record s { buttons = put_bit down s.buttons bbit }) in
    if bbit == 0 then (s, []) else (flushed.0, mouse flushed.1 ∷ [])

-- `pending += value` in an `int32_t`, with two's complement wrap-around
abbrev pub add32 : ℤ → ℤ → ℤ
add32 a b = wrap32 (a +ℤ b)

unfoldable pub move : MouseState → ℕ → ℤ → MouseState
move s code value =
    if code == rel_x
    then record s { pending_dx = add32 s.pending_dx value }
    else if code == rel_y
    then record s { pending_dy = add32 s.pending_dy value }
    else if code == rel_wheel
    then record s { pending_wheel = add32 s.pending_wheel value }
    else s

abbrev pub has_motion : MouseState → Bool
has_motion s =
    not (eqb_ℤ s.pending_dx (pos 0))
    || not (eqb_ℤ s.pending_dy (pos 0))
    || not (eqb_ℤ s.pending_wheel (pos 0))

-- The result of one event: the state, whether the keyboard is dirty, and the reports sent.
pub record Step : Type 0 where
  pub state : State
  pub dirty : Bool
  pub sent : List Output

on_key : State → Bool → InputEvent → Step
on_key s dirty e =
    let down = eqb_ℤ e.value (pos 1) in
    let (k, changed) = key_to_kbd s.kbd_state e.code down in
    let (m, reports) = key_to_mouse s.mouse_state e.code down in
    record {
      state = record s { kbd_state = k; mouse_state = m };
      dirty = dirty || changed;
      sent = reports;
    }

on_syn : State → Bool → Step
on_syn s dirty =
    let flushed = mouse_flush s.mouse_state in
    if has_motion s.mouse_state
    then record {
      state = record s { mouse_state = flushed.0 };
      dirty = dirty;
      sent = mouse flushed.1 ∷ [];
    }
    else record { state = s; dirty = dirty; sent = [] }

-- The body of the loop that drains a device; `now_ns` is what `mono_ns()` returns.
unfoldable pub handle_event : State → Bool → InputEvent → ℕ → Step
unfolding on_key on_syn
handle_event s0 dirty e now_ns =
    let s = record s0 { hotkey = hotkey_update s0.hotkey e now_ns } in
    if e.type == ev_key
    then (if eqb_ℤ e.value (pos 2)
        then record { state = s; dirty = dirty; sent = [] }
        else on_key s dirty e)
    else if e.type == ev_rel
    then record {
      state = record s { mouse_state = move s.mouse_state e.code e.value };
      dirty = dirty;
      sent = [];
    }
    else if e.type == ev_syn && e.code == syn_report
    then on_syn s dirty
    else record { state = s; dirty = dirty; sent = [] }

-- Drains the events that a device has ready, each with the time at which it is read.
unfoldable pub drain : State → Bool → List (InputEvent × ℕ) → Step
drain s dirty [] = record { state = s; dirty = dirty; sent = [] }
drain s dirty ((e, now_ns) ∷ events) =
    let first = handle_event s dirty e now_ns in
    let rest = drain first.state first.dirty events in
    record rest { sent = first.sent ++ rest.sent }

-- One pass over a readable device: the events, the keyboard report if it is dirty, the chord's test.
unfoldable pub service_device : State → List (InputEvent × ℕ) → ℕ → State × List Output
service_device s events now_ns =
    let drained = drain s false events in
    let (hotkey', fire) = hotkey_should_fire drained.state.hotkey now_ns in
    (
      record (drained.state) { hotkey = hotkey' },
      drained.sent
          ++ ((if drained.dirty then kbd (kbd_report drained.state.kbd_state) ∷ [] else [])
              ++ (if fire then switch_to_emulation ∷ [] else [])),
    )
