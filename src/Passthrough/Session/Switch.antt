-- ===== src/Passthrough/Session/Switch.antt =====
-- When kbm-passthrough starts the other mode, and what its host sees first and last.
use meta_dualsense.Prelude.{
  ℕ, ◌≡◌, refl, ◌∙◌, ap, Bool, true, false, not, ◌&&◌, ◌||◌, Option, List, [], ◌∷◌, ◌++◌,
  if◌then◌else◌, arith, Bool-cases, inl, inr, ◌==◌,
}
use meta_dualsense.Prelude.Text.{Bytes}
use meta_dualsense.Input.{InputEvent, ev_key, ev_rel, ev_syn, syn_report}
use meta_dualsense.Prelude.Int.{pos, eqb_ℤ}
use meta_dualsense.Chord.{ChordOp, event, check}
use meta_dualsense.Chord.History.{complete_since, second_ago, has_fired, AreDistinct}
use meta_dualsense.Chord.Fires.{AreTimed, hotkey_should_fire_iff}
use meta_dualsense.Ffsd.Slots.{InputSlot}
use meta_dualsense.Passthrough.Hotkey.{HotkeyState, hotkey_update, hotkey_should_fire}
use meta_dualsense.Passthrough.Hotkey.Mirror
use meta_dualsense.Passthrough.Hotkey.Mirror.{loaded, mirrors_chord}
use meta_dualsense.Passthrough.Loop.{
  State, Output, kbd, mouse, switch_to_emulation, handle_event, drain, service_device, Step,
  key_to_mouse, has_motion,
}
use meta_dualsense.Passthrough.ChordFile.{hotkey_load}
use meta_dualsense.Passthrough.ChordFile.Loaded.{hotkey_load-loaded}
use meta_dualsense.Passthrough.Keyboard.{kbd_report}
use meta_dualsense.Passthrough.Mouse.{MouseState}
use meta_dualsense.Passthrough.Keymap.{btn_to_bit}
use meta_dualsense.Passthrough.Session.{Session, Ready, notify, input, step, run, started}

-- The operations on the chord, the latest first.
abbrev pub read_ops : List (InputEvent × ℕ) → List ChordOp → List ChordOp
read_ops [] ops = ops
read_ops ((e, now_ns) ∷ events) ops = read_ops events (event e now_ns ∷ ops)

unfoldable pub history : List ChordOp → List Ready → List ChordOp
history ops [] = ops
history ops (notify names ∷ rs) = history ops rs
history ops (input fd events now_ns gone ∷ rs) = history (check now_ns ∷ read_ops events ops) rs

unfoldable pub switches : List Output → Bool
switches [] = false
switches (switch_to_emulation ∷ os) = true
switches (kbd r ∷ os) = switches os
switches (mouse r ∷ os) = switches os

switches-append : (a b : List Output) → switches (a ++ b) ≡ (switches a || switches b)
unfolding switches
switches-append [] b = refl
switches-append (kbd r ∷ a) b = switches-append a b
switches-append (mouse r ∷ a) b = switches-append a b
switches-append (switch_to_emulation ∷ a) b = refl

-- The chord after a step of the drain, which sends no switch.
abbrev HandsOn : HotkeyState → Step → Type 0
HandsOn h r = (r.state.hotkey ≡ h) × (switches r.sent ≡ false)

HandsOn-if :
    (h : HotkeyState) (b : Bool) (x y : Step)
    → HandsOn h x
    → HandsOn h y
    → HandsOn h (if b then x else y)
HandsOn-if h true x y v w = v
HandsOn-if h false x y v w = w

key_to_mouse-switches :
    (m : MouseState) (code : ℕ) (down : Bool) → switches (key_to_mouse m code down).1 ≡ false
unfolding key_to_mouse switches
key_to_mouse-switches m code down = elim (Bool-cases (btn_to_bit code == 0)) [
  | inl other ↦ rw other refl
  | inr button ↦ rw button refl
]

handle_event_hotkey :
    (s : State) (dirty : Bool) (e : InputEvent) (now_ns : ℕ)
    → HandsOn (hotkey_update s.hotkey e now_ns) (handle_event s dirty e now_ns)
unfolding handle_event switches
handle_event_hotkey s dirty e now_ns =
    let h = hotkey_update s.hotkey e now_ns in
    HandsOn-if h (e.type == ev_key) _ _
      (HandsOn-if h (eqb_ℤ e.value (pos 2)) _ _ (refl, refl)
        (refl, key_to_mouse-switches s.mouse_state e.code (eqb_ℤ e.value (pos 1))))
      (HandsOn-if h (e.type == ev_rel) _ _ (refl, refl)
        (HandsOn-if h (e.type == ev_syn && e.code == syn_report) _ _
          (HandsOn-if h (has_motion s.mouse_state) _ _ (refl, refl) (refl, refl)) (refl, refl)))

-- The chord's state behind a history: the loaded chord, run over it.
abbrev Follows : HotkeyState → List ChordOp → HotkeyState → Type 0
Follows start ops h = h ≡ Mirror.run start ops

drain_hotkey :
    (start : HotkeyState) (ops : List ChordOp) (s : State) (dirty : Bool)
    (events : List (InputEvent × ℕ))
    → Follows start ops s.hotkey
    → Follows start (read_ops events ops) (drain s dirty events).state.hotkey
      × (switches (drain s dirty events).sent ≡ false)
unfolding drain switches
drain_hotkey start ops s dirty [] f = (f, refl)
drain_hotkey start ops s dirty ((e, now_ns) ∷ events) f =
    let first = handle_event s dirty e now_ns in
    let (moved, quiet) = handle_event_hotkey s dirty e now_ns in
    let here : first.state.hotkey ≡ Mirror.run start (event e now_ns ∷ ops) =
      moved ∙ (unfold Mirror.run Mirror.step in ap (λ h. hotkey_update h e now_ns) f) in
    let (rest, rest_quiet) =
      drain_hotkey start (event e now_ns ∷ ops) first.state first.dirty events here in
    (
      rest,
      ground (
        arith,
        switches-append first.sent (drain first.state first.dirty events).sent,
        quiet,
        rest_quiet,
      ),
    )

switches-end :
    (dirty fire : Bool) (r : List ℕ)
    → switches
        ((if dirty then kbd r ∷ [] else []) ++ (if fire then switch_to_emulation ∷ [] else []))
      ≡ fire
unfolding switches
switches-end true true r = refl
switches-end true false r = refl
switches-end false true r = refl
switches-end false false r = refl

service_hotkey :
    (start : HotkeyState) (ops : List ChordOp) (s : State) (events : List (InputEvent × ℕ))
    (now_ns : ℕ)
    → Follows start ops s.hotkey
    → let (s', out) = service_device s events now_ns in
      Follows start (check now_ns ∷ read_ops events ops) s'.hotkey
      × (switches out ≡ (hotkey_should_fire (Mirror.run start (read_ops events ops)) now_ns).1)
unfolding service_device Mirror.run Mirror.step
service_hotkey start ops s events now_ns f =
    let (behind, quiet) = drain_hotkey start ops s false events f in
    (
      ap (λ h. (hotkey_should_fire h now_ns).0) behind,
      switches-append (drain s false events).sent _
          ∙ rw quiet (
              switches-end (drain s false events).dirty
                (hotkey_should_fire (drain s false events).state.hotkey now_ns).1
                (kbd_report (drain s false events).state.kbd_state))
          ∙ ap (λ h. (hotkey_should_fire h now_ns).1) behind,
    )

run_hotkey :
    (start : HotkeyState) (ops : List ChordOp) (s : Session) (rs : List Ready)
    → Follows start ops s.state.hotkey
    → Follows start (history ops rs) (run s rs).0.state.hotkey
unfolding run step history
run_hotkey start ops s [] f = f
run_hotkey start ops s (notify names ∷ rs) f = run_hotkey start ops (step s (notify names)).0 rs f
run_hotkey start ops s (input fd events now_ns gone ∷ rs) f =
    run_hotkey start (check now_ns ∷ read_ops events ops) (step s (input fd events now_ns gone)).0
      rs (service_hotkey start ops s.state events now_ns f).0

-- For the chord of the configuration file, of different keys, and events read at times other than
-- 0: when kbm-passthrough has read a device, it starts the other mode exactly if the key events of
-- all devices left the chord complete for at least a second, and no earlier test found it so since a
-- key event last left some key of it up.
pub switch_iff_held :
    (file : Option Bytes) (slots : List InputSlot) (rs : List Ready)
    (events : List (InputEvent × ℕ)) (now_ns : ℕ)
    → AreDistinct (hotkey_load file).n (hotkey_load file).codes
    → AreTimed (read_ops events (history [] rs))
    → let s = (run (started file slots) rs).0 in
      let chord = hotkey_load file in
      let ops = read_ops events (history [] rs) in
      switches (service_device s.state events now_ns).1 ≡ (
        not (has_fired chord.n chord.codes ops)
        && second_ago (complete_since chord.n chord.codes ops) now_ns)
unfolding started
switch_iff_held file slots rs events now_ns distinct timed =
    let chord = hotkey_load file in
    let ops = read_ops events (history [] rs) in
    let (same, le) = hotkey_load-loaded file in
    let behind = run_hotkey chord [] (started file slots) rs (unfold Mirror.run in refl) in
    (service_hotkey chord (history [] rs) (run (started file slots) rs).0.state events now_ns
      behind).1
    ∙ ap (λ h. (hotkey_should_fire (Mirror.run h ops) now_ns).1) same
    ∙ mirrors_chord chord.codes chord.n ops now_ns
    ∙ hotkey_should_fire_iff chord.n chord.codes ops now_ns le distinct timed
