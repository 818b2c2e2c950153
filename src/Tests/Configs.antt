-- ===== src/Tests/Configs.antt =====
-- The configuration file at concrete texts.
use meta_dualsense.Prelude.{ℕ, ◌≡◌, refl, List, [], ◌∷◌, ◌++◌, some, length, take, arith}
use meta_dualsense.Prelude.Int.{ℤ, pos}
use meta_dualsense.Prelude.Text.{Bytes, codes, same_text, same_ci, to_lower}
use meta_dualsense.Report.{ds_act_cross}
use meta_dualsense.Input.{key_leftctrl, key_f12}
use meta_dualsense.Config.{store, config_init_defaults}
use meta_dualsense.Config.Names.{lookup_ci}
use meta_dualsense.Config.Parser.{apply, config_load}
use meta_dualsense.Config.Validity.{IsValid}
use meta_dualsense.Config.Validity.Load.{config_load-IsValid}
use meta_dualsense.Config.Refusals.{IsAllOrNothing, apply-IsAllOrNothing}
use meta_dualsense.Config.RoundTrip.{setting}
use meta_dualsense.Config.RoundTrip.Chords.{chord_file, chord_round_trip}
use meta_dualsense.Config.RoundTrip.Bindings.{key_binding_round_trip}
use meta_dualsense.Chord
use meta_dualsense.Tests.Doubles.{whole}

-- Every number is read as 0.
abbrev pub no_atof : Bytes → ℤ
no_atof s = pos 0

abbrev some_file : Bytes
some_file =
    codes "key.q=l1\nkey.nope=l1\n# note\nhotkey.mode_toggle=LEFTCTRL, F12,F1\nwindow_ms=9\n"

config_load-IsValid_example : IsValid (config_load whole no_atof (some some_file)).0
config_load-IsValid_example = config_load-IsValid whole no_atof (some some_file)

apply-IsAllOrNothing_example :
    IsAllOrNothing whole no_atof
      (config_init_defaults whole)
      (codes "key.nope")
      (codes "l1")
      (apply whole no_atof (config_init_defaults whole) (codes "key.nope") (codes "l1"))
unfolding same_text
apply-IsAllOrNothing_example =
    apply-IsAllOrNothing whole no_atof (config_init_defaults whole) (codes "key.nope") (codes "l1")
      refl

abbrev two_names : List Bytes
two_names = codes "leftctrl" ∷ codes "F12" ∷ []

abbrev two_keys : List ℕ
two_keys = key_leftctrl ∷ key_f12 ∷ []

chord_round_trip_example :
    let (c, messages) = config_load whole no_atof (some (chord_file two_names)) in
    (c.hotkey_n ≡ length two_keys) × (take c.hotkey_n c.hotkey_codes ≡ two_keys) × (messages ≡ [])
unfolding lookup_ci same_ci same_text to_lower
chord_round_trip_example = chord_round_trip whole no_atof two_names two_keys refl (omega arith)

key_binding_round_trip_example :
    config_load whole no_atof
      (some (setting (codes "key." ++ codes "q") (codes "Cross") ++ 10 ∷ []))
    ≡ (
      record (config_init_defaults whole) {
        key_action = store (config_init_defaults whole).key_action 16 ds_act_cross;
      },
      [],
    )
unfolding lookup_ci same_ci same_text to_lower
key_binding_round_trip_example =
    key_binding_round_trip whole no_atof (codes "q") (codes "Cross") 16 ds_act_cross refl refl
