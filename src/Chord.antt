-- ===== src/Chord.antt =====
-- The mode-switch chord of dualsense-ffsd (recipes-apps/kbm-mapper-ff/files/main.c): `hotkey_state`,
-- `hotkey_update`, `hotkey_should_fire`. The codes and their number are the two fields of the
-- configuration that these functions read.
pub mod History
pub mod Fires
pub mod Held
pub mod Once
pub mod Repeated
use meta_dualsense.Prelude.{
  ℕ, suc, zero, ◌-◌, ◌/◌, Bool, true, false, not, ◌&&◌, Option, none, some, List, [], ◌∷◌, ◌==◌,
  leb, if◌then◌else◌, replicate,
}
use meta_dualsense.Prelude.Int.{ℤ, pos, eqb_ℤ}
use meta_dualsense.Input.{InputEvent, ev_key}

-- Times are readings of CLOCK_MONOTONIC in ns and never negative; `pressed` has eight elements.
pub record HotkeyState : Type 0 where
  pub pressed : List Bool
  pub all_since_ns : ℕ
  pub fired : Bool

-- `hotkey_reset`, also the initial value
abbrev pub hotkey_reset : HotkeyState
hotkey_reset = record { pressed = replicate 8 false; all_since_ns = 0; fired = false }

abbrev pub cons_some : Bool → Option (List Bool) → Option (List Bool)
cons_some p none = none
cons_some p (some ps) = some (p ∷ ps)

-- The loop that stores the state of the first chord key with this code; `none` if there is none,
-- where `relevant` stays false. A loop past the end of an array does not arise: at most eight
-- codes are in use.
unfoldable pub note_key : ℕ → List ℕ → List Bool → ℕ → Bool → Option (List Bool)
note_key zero codes pressed code down = none
note_key (suc n) [] pressed code down = none
note_key (suc n) (c ∷ codes) [] code down = none
note_key (suc n) (c ∷ codes) (p ∷ pressed) code down =
    if code == c then some (down ∷ pressed) else cons_some p (note_key n codes pressed code down)

-- The loop that leaves `all` true.
unfoldable pub all_pressed : ℕ → List Bool → Bool
all_pressed zero pressed = true
all_pressed (suc n) [] = true
all_pressed (suc n) (p ∷ pressed) = p && all_pressed n pressed

unfoldable pub settle : ℕ → HotkeyState → Option (List Bool) → ℕ → HotkeyState
settle n s none now_ns = s
settle n s (some pressed) now_ns =
    if all_pressed n pressed
    then record {
      pressed = pressed;
      all_since_ns = if s.all_since_ns == 0 then now_ns else s.all_since_ns;
      fired = s.fired;
    }
    else record { pressed = pressed; all_since_ns = 0; fired = false }

-- `e->value != 0`
abbrev pub is_down : InputEvent → Bool
is_down e = not (eqb_ℤ e.value (pos 0))

unfoldable pub hotkey_update : List ℕ → ℕ → HotkeyState → InputEvent → ℕ → HotkeyState
hotkey_update codes n s e now_ns =
    if not (e.type == ev_key)
    then s
    else if n == 0
    then s
    else settle n s (note_key n codes s.pressed e.code (is_down e)) now_ns

-- The time held is a difference of `int64_t`; a negative one and 0 both stay below the second.
unfoldable pub hotkey_should_fire : HotkeyState → ℕ → HotkeyState × Bool
hotkey_should_fire s now_ns =
    if s.fired
    then (s, false)
    else if s.all_since_ns == 0
    then (s, false)
    else if leb 1000 ((now_ns - s.all_since_ns) / 1000000)
    then (record s { fired = true }, true)
    else (s, false)

-- What the daemon's loop does with the chord: an event that it reads, or the test behind the loop.
pub data ChordOp : Type 0 where
  event : InputEvent → ℕ → ChordOp
  check : ℕ → ChordOp

unfoldable pub chord_step : List ℕ → ℕ → HotkeyState → ChordOp → HotkeyState
chord_step codes n s (event e now_ns) = hotkey_update codes n s e now_ns
chord_step codes n s (check now_ns) = (hotkey_should_fire s now_ns).0

-- The state after a history, whose latest operation stands first.
unfoldable pub chord_run : List ℕ → ℕ → List ChordOp → HotkeyState
chord_run codes n [] = hotkey_reset
chord_run codes n (op ∷ ops) = chord_step codes n (chord_run codes n ops) op
