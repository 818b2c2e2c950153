-- ===== src/Passthrough/Loop/Reports.antt =====
-- When the loop reports the keyboard.
use meta_dualsense.Prelude.{
  ℕ, ◌≡◌, refl, Bool, true, false, not, ◌&&◌, ◌||◌, List, [], ◌∷◌, ◌++◌, ◌==◌, ltb, if◌then◌else◌,
  arith, ◌∙◌, ap,
}
use meta_dualsense.Prelude.Int.{pos, eqb_ℤ}
use meta_dualsense.Input.{InputEvent}
use meta_dualsense.Passthrough.Keymap.{key_to_hid, kbd_modifier_bit}
use meta_dualsense.Passthrough.Keyboard.{KbdState, kbd_report}
use meta_dualsense.Passthrough.Hotkey.{hotkey_should_fire}
use meta_dualsense.Passthrough.Loop.{
  State, Output, kbd, mouse, switch_to_emulation, key_to_kbd, key_to_mouse, handle_event, drain,
  service_device,
}
use meta_dualsense.Passthrough.Loop.Effects.{is_key, dirty-handle_event}

-- The event changes a key or a modifier.
unfoldable pub touches : InputEvent → Bool
touches e =
    is_key e
    && (not (kbd_modifier_bit e.code == 0) || (ltb e.code 256 && not (key_to_hid e.code == 0)))

unfoldable pub any_touch : List (InputEvent × ℕ) → Bool
unfolding touches
any_touch [] = false
any_touch ((e, now_ns) ∷ events) = touches e || any_touch events

changed-key_to_kbd :
    (s : KbdState) (e : InputEvent)
    → (is_key e && (key_to_kbd s e.code (eqb_ℤ e.value (pos 1))).1) ≡ touches e
unfolding key_to_kbd touches
changed-key_to_kbd s e = ground arith

dirty-drain :
    (s : State) (dirty : Bool) (events : List (InputEvent × ℕ))
    → (drain s dirty events).dirty ≡ (dirty || any_touch events)
unfolding drain any_touch
dirty-drain s dirty [] = ground arith
dirty-drain s dirty ((e, now_ns) ∷ events) =
    let first = handle_event s dirty e now_ns in
    ground (
      arith,
      dirty-drain first.state first.dirty events,
      dirty-handle_event s dirty e now_ns,
      changed-key_to_kbd s.kbd_state e,
    )

-- The keyboard reports among what is sent.
unfoldable pub kbd_reports : List Output → List (List ℕ)
kbd_reports [] = []
kbd_reports (kbd r ∷ sent) = r ∷ kbd_reports sent
kbd_reports (mouse r ∷ sent) = kbd_reports sent
kbd_reports (switch_to_emulation ∷ sent) = kbd_reports sent

kbd_reports-append :
    (xs ys : List Output) → kbd_reports xs ≡ [] → kbd_reports (xs ++ ys) ≡ kbd_reports ys
unfolding kbd_reports
kbd_reports-append [] ys h = refl
kbd_reports-append (kbd r ∷ xs) ys h = cc
kbd_reports-append (mouse r ∷ xs) ys h = kbd_reports-append xs ys h
kbd_reports-append (switch_to_emulation ∷ xs) ys h = kbd_reports-append xs ys h

kbd_reports-handle_event :
    (s : State) (dirty : Bool) (e : InputEvent) (now_ns : ℕ)
    → kbd_reports (handle_event s dirty e now_ns).sent ≡ []
unfolding kbd_reports handle_event key_to_mouse
kbd_reports-handle_event s dirty e now_ns = ground arith

kbd_reports-drain :
    (s : State) (dirty : Bool) (events : List (InputEvent × ℕ))
    → kbd_reports (drain s dirty events).sent ≡ []
unfolding drain
kbd_reports-drain s dirty [] = unfold kbd_reports in refl
kbd_reports-drain s dirty ((e, now_ns) ∷ events) =
    let first = handle_event s dirty e now_ns in
    kbd_reports-append first.sent (drain first.state first.dirty events).sent
      (kbd_reports-handle_event s dirty e now_ns)
    ∙ kbd_reports-drain first.state first.dirty events

tail_reports :
    (dirty fire : Bool) (r : List ℕ)
    → kbd_reports
        ((if dirty then kbd r ∷ [] else []) ++ (if fire then switch_to_emulation ∷ [] else []))
      ≡ (if dirty then r ∷ [] else [])
unfolding kbd_reports
tail_reports true true r = refl
tail_reports true false r = refl
tail_reports false true r = refl
tail_reports false false r = refl

-- A pass over a readable device sends one keyboard report, of the state behind all its events, if
-- any of them presses or releases a modifier or a key with a usage, and none otherwise.
pub service_device_reports :
    (s : State) (events : List (InputEvent × ℕ)) (now_ns : ℕ)
    → let (s', sent) = service_device s events now_ns in
      kbd_reports sent ≡ (if any_touch events then kbd_report s'.kbd_state ∷ [] else [])
unfolding service_device
service_device_reports s events now_ns =
    let drained = drain s false events in
    let fire = (hotkey_should_fire drained.state.hotkey now_ns).1 in
    kbd_reports-append drained.sent _ (kbd_reports-drain s false events)
    ∙ tail_reports drained.dirty fire (kbd_report drained.state.kbd_state)
    ∙ ap (λ (d : Bool). if d then kbd_report drained.state.kbd_state ∷ [] else [])
        (dirty-drain s false events)
