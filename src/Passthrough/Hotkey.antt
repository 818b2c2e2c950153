-- ===== src/Passthrough/Hotkey.antt =====
-- The mode-switch chord of kbm-passthrough, whose state has its own copy of the codes.
pub mod Mirror
use meta_dualsense.Prelude.{
  ℕ, suc, zero, ◌-◌, ◌/◌, Bool, true, false, not, Option, none, some, List, [], ◌∷◌, ◌==◌, leb,
  if◌then◌else◌, replicate,
}
use meta_dualsense.Input.{InputEvent, ev_key}
use meta_dualsense.Chord.{note_key, all_pressed, is_down}

-- Times are readings of CLOCK_MONOTONIC in ns and never negative; `codes` and `pressed` have
-- HOTKEY_MAX elements.
pub record HotkeyState : Type 0 where
  pub codes : List ℕ
  pub n : ℕ
  pub pressed : List Bool
  pub all_since_ns : ℕ
  pub fired : Bool

settle : HotkeyState → Option (List Bool) → ℕ → HotkeyState
settle s none now_ns = s
settle s (some pressed) now_ns =
    let t = record s { pressed = pressed } in
    if all_pressed s.n pressed
    then (if s.all_since_ns == 0 then record t { all_since_ns = now_ns } else t)
    else record t { all_since_ns = 0; fired = false }

unfoldable pub hotkey_update : HotkeyState → InputEvent → ℕ → HotkeyState
unfolding settle
hotkey_update s e now_ns =
    if not (e.type == ev_key)
    then s
    else if s.n == 0
    then s
    else settle s (note_key s.n s.codes s.pressed e.code (is_down e)) now_ns

unfoldable pub hotkey_should_fire : HotkeyState → ℕ → HotkeyState × Bool
hotkey_should_fire s now_ns =
    if s.fired
    then (s, false)
    else if s.all_since_ns == 0
    then (s, false)
    else if leb 1000 ((now_ns - s.all_since_ns) / 1000000)
    then (record s { fired = true }, true)
    else (s, false)
