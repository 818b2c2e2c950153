-- ===== src/Config/RoundTrip/Bindings.antt =====
-- A key or a button bound to an action in the configuration file.
use meta_dualsense.Prelude.{
  ℕ, ◌%◌, ◌≤◌, ◌<◌, ◌≡◌, refl, true, false, ◌&&◌, [], ◌∷◌, ◌++◌, some, arith, ◌==◌, leb, length,
  length-append, all, ap, ◌∙◌, map,
}
use meta_dualsense.Prelude.Text.{Bytes, codes, is_space, same_text, to_lower, behind_prefix}
use meta_dualsense.Prelude.Text.Plain.{all-append}
use meta_dualsense.Mapper.Float.{Float}
use meta_dualsense.Config.{Config, store, config_init_defaults}
use meta_dualsense.Config.Names.{
  Named, btn_names, action_names, lookup_ci, config_action_from_name, config_key_from_name,
  config_btn_from_name,
}
use meta_dualsense.Config.Lookup.{lookup_ci-all, lookup_ci-word, is_word, is_chord_byte}
use meta_dualsense.Config.Parser.{
  set_key, set_btn, apply, apply_key, apply_mouse, config_load, at_line,
}
use meta_dualsense.Config.RoundTrip.{setting, is_key, is_key_byte, config_load-setting}
use meta_dualsense.Config.RoundTrip.Chords.{key_name_word, word_printed}

btn_names_words : all (λ (row : Named). is_word (map to_lower row.0)) btn_names ≡ true
unfolding to_lower
btn_names_words = refl

action_names_words : all (λ (row : Named). is_word (map to_lower row.0)) action_names ≡ true
unfolding to_lower
action_names_words = refl

word_key : (s : Bytes) → all is_chord_byte s ≡ true → is_key s ≡ true
word_key [] h = refl
word_key (c ∷ s) h = ground (arith, h, word_key s (ground (arith, h)))

-- An action found is not the empty one, and fits a byte.
action_range :
    (v : Bytes) (act : ℕ)
    → lookup_ci action_names v ≡ some act
    → ((act == 0) ≡ false) × (act % 256 ≡ act)
action_range v act found =
    let (name, same, row) =
      lookup_ci-all (λ (row : Named). leb 1 row.1 && leb row.1 27) action_names v refl found in
    (ground (arith, row), ground (arith, row))

setting_fits : (k v : Bytes) → length k ≤ 20 → length v ≤ 12 → length (setting k v) < 511
setting_fits k v hk hv = omega (arith, length-append k (61 ∷ v))

module _ (fp : Float) (atof : Bytes → fp.Double) where
  open fp use {Double}

  apply-key :
      (c : Config Double) (name v : Bytes)
      → apply fp atof c (codes "key." ++ name) v
        ≡ set_key c (codes "key." ++ name) v (config_key_from_name name) (config_action_from_name v)
  unfolding apply apply_key same_text behind_prefix
  apply-key c name v = refl

  apply-btn :
      (c : Config Double) (name v : Bytes)
      → apply fp atof c (codes "mouse." ++ name) v
        ≡ set_btn c
            (codes "mouse." ++ name)
            v
            (config_btn_from_name name)
            (config_action_from_name v)
  unfolding apply apply_key apply_mouse same_text behind_prefix
  apply-btn c name v = refl

  -- A line that binds a key to an action, each by one of its names in either case: exactly that
  -- key's entry of the defaults changes, to that action, and there is no message.
  pub key_binding_round_trip :
      (name v : Bytes) (code act : ℕ)
      → config_key_from_name name ≡ some code
      → lookup_ci action_names v ≡ some act
      → let c = config_init_defaults fp in
        config_load fp atof (some (setting (codes "key." ++ name) v ++ 10 ∷ []))
        ≡ (record c { key_action = store c.key_action code act }, [])
  unfolding set_key config_action_from_name is_space
  key_binding_round_trip name v code act key found =
      let c = config_init_defaults fp in
      let (word, full, short) = key_name_word name code key in
      let (v_word, v_full, v_short) = lookup_ci-word action_names v action_names_words found in
      let (some_action, byte) = action_range v act found in
      let applied : apply fp atof c (codes "key." ++ name) v
          ≡ (record c { key_action = store c.key_action code act }, []) =
        apply-key c name v ∙ rw (key, found) (rw (some_action, byte) refl) in
      config_load-setting fp atof 107 (codes "ey." ++ name) v
        (all-append is_key_byte (codes "key.") name refl (word_key name word))
        (word_printed v v_word) (setting_fits (codes "key." ++ name) v (omega arith) v_short)
      ∙ ap (λ o. (o.0, at_line 1 o.1)) applied

  -- A line that binds a mouse button: exactly the entry of its code's low byte changes.
  pub button_binding_round_trip :
      (name v : Bytes) (code act : ℕ)
      → config_btn_from_name name ≡ some code
      → lookup_ci action_names v ≡ some act
      → let c = config_init_defaults fp in
        config_load fp atof (some (setting (codes "mouse." ++ name) v ++ 10 ∷ []))
        ≡ (record c { btn_action = store c.btn_action (code % 256) act }, [])
  unfolding set_btn config_action_from_name is_space
  button_binding_round_trip name v code act btn found =
      let c = config_init_defaults fp in
      let (word, full, short) = lookup_ci-word btn_names name btn_names_words btn in
      let (v_word, v_full, v_short) = lookup_ci-word action_names v action_names_words found in
      let (some_action, byte) = action_range v act found in
      let applied : apply fp atof c (codes "mouse." ++ name) v
          ≡ (record c { btn_action = store c.btn_action (code % 256) act }, []) =
        apply-btn c name v ∙ rw (btn, found) (rw (some_action, byte) refl) in
      config_load-setting fp atof 109 (codes "ouse." ++ name) v
        (all-append is_key_byte (codes "mouse.") name refl (word_key name word))
        (word_printed v v_word) (setting_fits (codes "mouse." ++ name) v (omega arith) v_short)
      ∙ ap (λ o. (o.0, at_line 1 o.1)) applied
