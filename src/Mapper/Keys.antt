-- ===== src/Mapper/Keys.antt =====
-- The pressed actions after any sequence of events.
use meta_dualsense.Prelude.{
  ℕ, ◌≡◌, refl, Bool, true, false, not, ◌&&◌, List, [], ◌∷◌, ◌==◌, ltb, if◌then◌else◌, ◌∙◌, ap,
  arith,
}
use meta_dualsense.Prelude.Int.{ℤ, pos, eqb_ℤ}
use meta_dualsense.Input.{InputEvent, ev_key}
use meta_dualsense.Config.{Config}
use meta_dualsense.Mapper.{
  Mapper, no_action, push_sample, mapper_handle_event, is_pressed, action_of, event_ns, add32,
}
use meta_dualsense.Mapper.Pressed.{is_pressed-set_action}
use meta_dualsense.Mapper.History.{run}

module _ {Double : Type 0} (cfg : Config Double) where
  -- Whether the event presses or releases a key or button that the configuration binds to `a`
  abbrev pub concerns : ℕ → InputEvent → Bool
  concerns a e =
      e.type == ev_key && ltb e.code 0x300 && not (no_action a) && action_of cfg e.code == a

  -- The state of `a` after the events, from a state in which it is `down`: the latest event on it
  -- decides.
  unfoldable pub last_said : ℕ → Bool → List InputEvent → Bool
  last_said a down [] = down
  last_said a down (e ∷ events) =
      last_said a (if concerns a e then not (eqb_ℤ e.value (pos 0)) else down) events

  is_pressed-push_sample :
      (m : Mapper Double) (t : ℤ) (a : ℕ) → is_pressed (push_sample m t) a ≡ is_pressed m a
  unfolding is_pressed push_sample
  is_pressed-push_sample m t a = refl

  is_pressed-if :
      (t : Bool) (m n : Mapper Double) (a : ℕ)
      → is_pressed (if t then m else n) a ≡ (if t then is_pressed m a else is_pressed n a)
  is_pressed-if true m n a = refl
  is_pressed-if false m n a = refl

  is_pressed-moved :
      (m : Mapper Double) (dx dy : ℤ) (a : ℕ)
      → is_pressed (record m { pending_dx = dx; pending_dy = dy }) a ≡ is_pressed m a
  unfolding is_pressed
  is_pressed-moved m dx dy a = refl

  is_pressed-handle_event :
      (m : Mapper Double) (e : InputEvent) (a : ℕ)
      → is_pressed (mapper_handle_event cfg m e) a
        ≡ (if concerns a e then not (eqb_ℤ e.value (pos 0)) else is_pressed m a)
  unfolding mapper_handle_event
  is_pressed-handle_event m e a =
      let key = is_pressed-set_action m (action_of cfg e.code) a (not (eqb_ℤ e.value (pos 0))) in
      let along = is_pressed-moved m (add32 m.pending_dx e.value) m.pending_dy a in
      let across = is_pressed-moved m m.pending_dx (add32 m.pending_dy e.value) a in
      rw
        (
          is_pressed-if, is_pressed-if, is_pressed-if, is_pressed-if, is_pressed-if, is_pressed-if,
          is_pressed-if, key,
        )
        (ground (arith, along, across, is_pressed-push_sample m (event_ns e) a))

  -- After any sequence of events an action is pressed exactly if the latest event on a key or button
  -- bound to it was a press or an auto-repeat; if there was none, it is as before.
  pub is_pressed-run :
      (m : Mapper Double) (events : List InputEvent) (a : ℕ)
      → is_pressed (run cfg m events) a ≡ last_said a (is_pressed m a) events
  unfolding run last_said
  is_pressed-run m [] a = refl
  is_pressed-run m (e ∷ events) a =
      is_pressed-run (mapper_handle_event cfg m e) events a
      ∙ ap (λ d. last_said a d events) (is_pressed-handle_event m e a)
