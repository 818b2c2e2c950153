-- ===== src/Config/Validity/Load.antt =====
-- The configuration stays valid at every line.
use meta_dualsense.Prelude.{ℕ, suc, refl, List, [], ◌∷◌, Option, none, some, arith, ◌==◌}
use meta_dualsense.Prelude.Text.{
  Bytes, same_text, codes, behind_prefix, cut_last, cut, fgets_all, c_string,
}
use meta_dualsense.Mapper.Float.{Float}
use meta_dualsense.Config.{Config, store, config_init_defaults}
use meta_dualsense.Config.Names.{
  config_action_from_name, config_key_from_name, config_btn_from_name,
}
use meta_dualsense.Config.Validity.{
  IsValid, config_action_from_name_lt, set_hotkey-IsValid, if-IsValid, set_key-IsValid,
  set_btn-IsValid, set_recoil_action-IsValid, set_ads_action-IsValid,
}
use meta_dualsense.Config.Parser.{
  trim, set_burst_field, set_burst, apply_rest, apply_burst, apply_mouse, apply_key, apply,
  apply_cut, apply_trimmed, load_line, load_lines, config_load,
}

module _ (fp : Float) (atof : Bytes → fp.Double) where
  open fp use {Double}

  set_burst_field-IsValid :
      (c : Config Double) (k field : Bytes) (act : ℕ) (v : Bytes)
      → IsValid c
      → IsValid (set_burst_field fp atof c k field act v).0
  unfolding set_burst_field
  set_burst_field-IsValid c k field act v h = if-IsValid (_) _ _ h (
      if-IsValid (same_text field (codes "hz")) _ _ h (
        if-IsValid (same_text field (codes "duty")) _ _ h (
          if-IsValid (same_text field (codes "jitter")) _ _ h (
            if-IsValid (same_text field (codes "duty_jitter")) _ _ h
              (if-IsValid (same_text field (codes "skip_prob")) _ _ h h)))))

  set_burst-IsValid :
      (c : Config Double) (k : Bytes) (o : Option (Bytes × Bytes)) (v : Bytes)
      → IsValid c
      → IsValid (set_burst fp atof c k o v).0
  unfolding set_burst
  set_burst-IsValid c k none v h = h
  set_burst-IsValid c k (some (name, field)) v h =
      set_burst_field-IsValid c _ field (config_action_from_name name) v h

  apply_rest-IsValid :
      (c : Config Double) (k v : Bytes) → IsValid c → IsValid (apply_rest fp atof c k v).0
  unfolding apply_rest
  apply_rest-IsValid c k v h =
      let act = config_action_from_name v in
      let below = config_action_from_name_lt v in
      if-IsValid (same_text k (codes "recoil.action")) _ _
        (set_recoil_action-IsValid c v act below h)
        (if-IsValid (same_text k (codes "recoil.x")) _ _ h (
          if-IsValid (same_text k (codes "recoil.y")) _ _ h (
            if-IsValid (same_text k (codes "ads.action")) _ _
              (set_ads_action-IsValid c v act below h)
              (if-IsValid (same_text k (codes "ads.sens_scale")) _ _ h
                (if-IsValid (same_text k (codes "fire.sens_scale")) _ _ h h)))))

  apply_burst-IsValid :
      (c : Config Double) (k v : Bytes) (o : Option Bytes)
      → IsValid c
      → IsValid (apply_burst fp atof c k v o).0
  unfolding apply_burst
  apply_burst-IsValid c k v none h = apply_rest-IsValid c k v h
  apply_burst-IsValid c k v (some name) h = set_burst-IsValid c k (cut_last 46 name) v h

  apply_mouse-IsValid :
      (c : Config Double) (k v : Bytes) (o : Option Bytes)
      → IsValid c
      → IsValid (apply_mouse fp atof c k v o).0
  unfolding apply_mouse
  apply_mouse-IsValid c k v (some name) h =
      set_btn-IsValid c k v (config_btn_from_name name) _ (config_action_from_name_lt v) h
  apply_mouse-IsValid c k v none h =
      if-IsValid (same_text k (codes "hotkey.mode_toggle")) _ _ (set_hotkey-IsValid c v h)
        (apply_burst-IsValid c k v (behind_prefix (codes "burst.") k) h)

  apply_key-IsValid :
      (c : Config Double) (k v : Bytes) (o : Option Bytes)
      → IsValid c
      → IsValid (apply_key fp atof c k v o).0
  unfolding apply_key
  apply_key-IsValid c k v (some name) h =
      set_key-IsValid c k v (config_key_from_name name) _ (config_action_from_name_lt v) h
  apply_key-IsValid c k v none h = apply_mouse-IsValid c k v (behind_prefix (codes "mouse.") k) h

  pub apply-IsValid :
      (c : Config Double) (k v : Bytes) → IsValid c → IsValid (apply fp atof c k v).0
  unfolding apply
  apply-IsValid c k v h = if-IsValid (same_text k (codes "window_ms")) _ _ h (
      if-IsValid (same_text k (codes "curve_exp")) _ _ h (
        if-IsValid (same_text k (codes "anti_deadzone")) _ _ h (
          if-IsValid (same_text k (codes "outer_sat")) _ _ h (
            if-IsValid (same_text k (codes "sens_counts_ms")) _ _ h (
              if-IsValid (same_text k (codes "debt_drain")) _ _ h
                (apply_key-IsValid c k v (behind_prefix (codes "key.") k) h))))))

  apply_cut-IsValid :
      (c : Config Double) (o : Option (Bytes × Bytes))
      → IsValid c
      → IsValid (apply_cut fp atof c o).0
  unfolding apply_cut
  apply_cut-IsValid c none h = h
  apply_cut-IsValid c (some (k, v)) h = apply-IsValid c (trim k) (trim v) h

  apply_trimmed-IsValid :
      (c : Config Double) (s : Bytes) → IsValid c → IsValid (apply_trimmed fp atof c s).0
  unfolding apply_trimmed
  apply_trimmed-IsValid c [] h = h
  apply_trimmed-IsValid c (first ∷ s) h =
      if-IsValid (first == 35) _ _ h (apply_cut-IsValid c (cut 61 (first ∷ s)) h)

  load_line-IsValid :
      (c : Config Double) (line : Bytes) → IsValid c → IsValid (load_line fp atof c line).0
  unfolding load_line
  load_line-IsValid c line h = apply_trimmed-IsValid c (trim (c_string line)) h

  load_lines-IsValid :
      (lineno : ℕ) (c : Config Double) (lines : List Bytes)
      → IsValid c
      → IsValid (load_lines fp atof lineno c lines).0
  unfolding load_lines
  load_lines-IsValid lineno c [] h = h
  load_lines-IsValid lineno c (line ∷ lines) h =
      load_lines-IsValid (suc lineno) (load_line fp atof c line).0 lines
        (load_line-IsValid c line h)

  config_init_defaults-IsValid : IsValid (config_init_defaults fp)
  unfolding config_init_defaults store
  config_init_defaults-IsValid = record {
    eight = refl;
    count = omega arith;
    keys = λ i. ground arith;
    btns = λ i. ground arith;
    recoil = omega arith;
    ads = omega arith;
  }

  -- Whatever the file holds, and if it cannot be opened, the configuration read has a chord of at
  -- most eight codes, and no key, button or feature has a number that is not an action's.
  pub config_load-IsValid : (file : Option Bytes) → IsValid (config_load fp atof file).0
  unfolding config_load
  config_load-IsValid none = config_init_defaults-IsValid
  config_load-IsValid (some file) =
      load_lines-IsValid 1 (config_init_defaults fp) (fgets_all 512 file)
        config_init_defaults-IsValid
