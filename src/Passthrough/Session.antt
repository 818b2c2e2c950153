-- ===== src/Passthrough/Session.antt =====
-- The run of kbm-passthrough from its start to its end (recipes-apps/kbm-passthrough/files/main.c): the
-- release reports, hot-plug, removal of devices, and the loop around `Passthrough.Loop`. Its table of
-- input devices repeats that of dualsense-ffsd line by line and is `Ffsd.Slots`.
pub mod Switch
pub mod Released
use meta_dualsense.Prelude.{
  ℕ, suc, zero, Bool, true, false, Option, none, some, List, [], ◌∷◌, ◌++◌, if◌then◌else◌,
}
use meta_dualsense.Prelude.Text.{Bytes, codes, behind_prefix}
use meta_dualsense.Input.{InputEvent}
use meta_dualsense.Ffsd.Slots.{InputSlot, FdEffect, plug, clip, input_slots_remove_fd}
use meta_dualsense.Passthrough.Keyboard.{kbd_zero, kbd_report}
use meta_dualsense.Passthrough.Mouse.{mouse_zero}
use meta_dualsense.Passthrough.Loop.{State, Output, kbd, mouse, service_device}
use meta_dualsense.Passthrough.ChordFile.{hotkey_load}

-- What `open` of a gadget node returns.
pub data HidgOpen : Type 0 where
  opened : ℕ → HidgOpen
  not_there : HidgOpen  -- ENOENT or EACCES
  failed : HidgOpen

unfoldable pub open_hidg_result : HidgOpen → Option ℕ → Option ℕ
open_hidg_result (opened fd) later = some fd
open_hidg_result not_there later = later
open_hidg_result failed later = none

-- The loop with so many rounds left, of 100; `tries` is what the rounds from number `i` on get.
unfoldable pub open_hidg : ℕ → (ℕ → HidgOpen) → ℕ → Option ℕ
open_hidg zero tries i = none
open_hidg (suc rounds) tries i = open_hidg_result (tries i) (open_hidg rounds tries (suc i))

unfoldable pub kbd_send_release_all : Output
kbd_send_release_all = kbd (kbd_report kbd_zero)

unfoldable pub mouse_send_release_all : Output
mouse_send_release_all = mouse (0 ∷ 0 ∷ 0 ∷ 0 ∷ [])

-- What is sent at the start and at the end.
unfoldable pub release_all : List Output
release_all = kbd_send_release_all ∷ mouse_send_release_all ∷ []

pub data Action : Type 0 where
  send : Output → Action
  descriptor : FdEffect → Action
  release : ℕ → Action  -- epoll_ctl(DEL) where there is one, EVIOCGRAB of 0, close

pub record Session : Type 0 where
  pub state : State
  pub slots : List InputSlot

-- A descriptor that is ready, and what reading it gives.
pub data Ready : Type 0 where
  -- The names of the inotify events, with what opening each device gives; `[]` if the read fails.
  notify : List (Bytes × (Bytes → Option ℕ)) → Ready
  -- An input device: its descriptor, the events with their times, the time of the chord's test, and
  -- whether the read that ended the loop failed with ENODEV or ENOENT.
  input : ℕ → List (InputEvent × ℕ) → ℕ → Bool → Ready

abbrev pub sends : List Output → List Action
sends [] = []
sends (o ∷ os) = send o ∷ sends os

abbrev pub descriptors : List FdEffect → List Action
descriptors [] = []
descriptors (e ∷ es) = descriptor e ∷ descriptors es

unfoldable pub on_name :
    List InputSlot → Bytes → (Bytes → Option ℕ) → Option Bytes → List InputSlot × List Action
on_name slots name c_open none = (slots, [])
on_name slots name c_open (some rest) =
    let (slots', effects) = plug c_open slots (clip (codes "/dev/input/" ++ name)) in
    (slots', descriptors effects)

unfoldable pub on_names :
    List InputSlot → List (Bytes × (Bytes → Option ℕ)) → List InputSlot × List Action
on_names slots [] = (slots, [])
on_names slots ((name, c_open) ∷ names) =
    let (slots1, first) = on_name slots name c_open (behind_prefix (codes "event") name) in
    let (slots2, rest) = on_names slots1 names in (slots2, first ++ rest)

unfoldable pub drop_device : List InputSlot → ℕ → Bool → List InputSlot × List Action
drop_device slots fd gone =
    if gone then (input_slots_remove_fd slots fd, release fd ∷ []) else (slots, [])

unfoldable pub step : Session → Ready → Session × List Action
step s (notify names) =
    let (slots', acts) = on_names s.slots names in (record s { slots = slots' }, acts)
step s (input fd events now_ns gone) =
    let (state', out) = service_device s.state events now_ns in
    let (slots', acts) = drop_device s.slots fd gone in
    (record { state = state'; slots = slots' }, sends out ++ acts)

unfoldable pub run : Session → List Ready → Session × List Action
run s [] = (s, [])
run s (r ∷ rs) = let (s1, first) = step s r in let (s2, rest) = run s1 rs in (s2, first ++ rest)

-- The state in front of the loop: the chord of the configuration file, and the devices found.
unfoldable pub started : Option Bytes → List InputSlot → Session
started file slots = record {
  state = record { kbd_state = kbd_zero; mouse_state = mouse_zero; hotkey = hotkey_load file };
  slots = slots;
}

abbrev pub release_slot : Option ℕ → List Action
release_slot none = []
release_slot (some fd) = release fd ∷ []

unfoldable pub release_slots : List InputSlot → List Action
release_slots [] = []
release_slots (s ∷ slots) = release_slot s.fd ++ release_slots slots

-- All of it, up to the closing of the gadget nodes, inotify and epoll.
unfoldable pub session : Option Bytes → List InputSlot → List Ready → List Action
session file slots rs =
    let (s, acts) = run (started file slots) rs in
    sends release_all ++ (acts ++ (sends release_all ++ release_slots s.slots))
