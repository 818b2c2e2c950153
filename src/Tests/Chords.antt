-- ===== src/Tests/Chords.antt =====
-- The chord of both daemons at concrete histories.
use meta_dualsense.Prelude.{ℕ, ◌≡◌, refl, false, not, ◌&&◌, List, [], ◌∷◌, inl, arith}
use meta_dualsense.Input.{key_leftctrl, key_esc}
use meta_dualsense.Chord.{
  hotkey_should_fire, ChordOp, event, check, chord_run, note_key, all_pressed, settle,
  hotkey_update, chord_step,
}
use meta_dualsense.Chord.History.{among, complete_since, second_ago, has_fired}
use meta_dualsense.Chord.Fires.{hotkey_should_fire_iff}
use meta_dualsense.Chord.Once.{WasBroken, fires_again_only_broken}
use meta_dualsense.Chord.Repeated.{repeated_never_fires}
use meta_dualsense.Tests.Events.{key_down, key_up}

abbrev ctrl_esc : List ℕ
ctrl_esc = key_leftctrl ∷ key_esc ∷ []

-- Ctrl at 1 s, then Esc at 2 s.
abbrev pub both_down : List ChordOp
both_down = event (key_down key_esc) 2000000000 ∷ event (key_down key_leftctrl) 1000000000 ∷ []

hotkey_should_fire_iff_example :
    (hotkey_should_fire (chord_run ctrl_esc 2 both_down) 3000000000).1 ≡ (
      not (has_fired 2 ctrl_esc both_down)
      && second_ago (complete_since 2 ctrl_esc both_down) 3000000000)
hotkey_should_fire_iff_example =
    hotkey_should_fire_iff 2 ctrl_esc both_down 3000000000 (omega arith)
      (unfold among in (refl, (refl, tt))) (omega arith, (omega arith, tt))

-- Esc comes up and goes down again.
abbrev again : List ChordOp
again = event (key_down key_esc) 5000000000 ∷ event (key_up key_esc) 4000000000 ∷ []

fires_again_only_broken_example : WasBroken ctrl_esc 2 again (check 3000000000 ∷ both_down)
unfolding hotkey_should_fire chord_run chord_step hotkey_update settle note_key all_pressed
fires_again_only_broken_example =
    fires_again_only_broken ctrl_esc 2 both_down again 3000000000 6000000000 refl refl

repeated_never_fires_example :
    (hotkey_should_fire (chord_run (key_esc ∷ key_esc ∷ []) 2 both_down) 3000000000).1 ≡ false
repeated_never_fires_example =
    repeated_never_fires 2 (key_esc ∷ key_esc ∷ []) both_down 3000000000 (omega arith)
      (inl (unfold among in refl))
