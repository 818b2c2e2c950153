-- ===== src/Config/Refusals.antt =====
-- What a setting that is not understood leaves behind.
use meta_dualsense.Prelude.{
  ℕ, ◌≡◌, refl, ◌∙◌, ap, Bool, true, false, [], ◌∷◌, ◌++◌, Option, none, some, inl, inr, ◌⊎◌, ◌==◌,
  leb, ◌||◌, if◌then◌else◌, length, arith, Bool-cases,
}
use meta_dualsense.Prelude.Text.{Bytes, same_text, same_text_lem, codes, behind_prefix, cut_last}
use meta_dualsense.Report.{ds_act_max, ds_act_none}
use meta_dualsense.Mapper.Float.{Float}
use meta_dualsense.Config.{Config}
use meta_dualsense.Config.Names.{
  config_action_from_name, config_key_from_name, config_btn_from_name,
}
use meta_dualsense.Config.Parser.{
  Outcome, set_key, set_btn, set_recoil_action, set_ads_action, set_burst_field, set_burst,
  apply_rest, apply_burst, apply_mouse, apply_key, apply,
}
use meta_dualsense.Config.Settings.{
  OfBurst, Takes, takes_window_ms, takes_curve_exp, takes_anti_deadzone, takes_outer_sat,
  takes_sens_counts_ms, takes_debt_drain, takes_key, takes_btn, takes_hz, takes_duty, takes_jitter,
  takes_duty_jitter, takes_skip_prob, takes_recoil_action, takes_recoil_x, takes_recoil_y,
  takes_ads_action, takes_ads_sens_scale, takes_fire_sens_scale, apply-Takes,
}

behind_prefix_lem :
    (prefix s rest : Bytes) → behind_prefix prefix s ≡ some rest → s ≡ prefix ++ rest
unfolding behind_prefix
behind_prefix_lem [] s rest h = cc
behind_prefix_lem (p ∷ prefix) [] rest h = cc
behind_prefix_lem (p ∷ prefix) (c ∷ s) rest h = elim (Bool-cases (p == c)) [
  | inr other ↦ absurd (ground (arith, h))
  | inl same ↦
      let letter : c ≡ p = ground arith in
      let behind : behind_prefix prefix s ≡ some rest = ground (arith, h) in
      rw (letter, behind_prefix_lem prefix s rest behind) refl
]

module _ (fp : Float) (atof : Bytes → fp.Double) where
  open fp use {Double}

  -- Either the setting is taken as the table says, without a message, or there is one and the
  -- configuration is the one before.
  abbrev IsHandled : Config Double → Bytes → Bytes → Outcome Double → Type 0
  IsHandled c k v o = (Takes fp atof c k v o.0 × (o.1 ≡ [])) ⊎ ((o.0 ≡ c) × (length o.1 ≡ 1))

  if-IsHandled :
      {c : Config Double} {k v : Bytes} (b : Bool) (x y : Outcome Double)
      → (b ≡ true → IsHandled c k v x)
      → (b ≡ false → IsHandled c k v y)
      → IsHandled c k v (if b then x else y)
  if-IsHandled true x y f g = f refl
  if-IsHandled false x y f g = g refl

  set_key-IsHandled :
      (c : Config Double) (k v name : Bytes) (code : Option ℕ)
      → k ≡ codes "key." ++ name
      → config_key_from_name name ≡ code
      → IsHandled c k v (set_key c k v code (config_action_from_name v))
  unfolding set_key
  set_key-IsHandled c k v name none h known = inr (refl, refl)
  set_key-IsHandled c k v name (some code) h known =
      if-IsHandled (config_action_from_name v == 0) _ _ (λ bad. inr (refl, refl))
        (λ act. inl (takes_key name code h known act, refl))

  set_btn-IsHandled :
      (c : Config Double) (k v name : Bytes) (code : Option ℕ)
      → k ≡ codes "mouse." ++ name
      → config_btn_from_name name ≡ code
      → IsHandled c k v (set_btn c k v code (config_action_from_name v))
  unfolding set_btn
  set_btn-IsHandled c k v name none h known = inr (refl, refl)
  set_btn-IsHandled c k v name (some code) h known =
      if-IsHandled (config_action_from_name v == 0) _ _ (λ bad. inr (refl, refl))
        (λ act. inl (takes_btn name code h known act, refl))

  set_burst_field-IsHandled :
      (c : Config Double) (k rest name field v : Bytes)
      → k ≡ codes "burst." ++ rest
      → cut_last 46 rest ≡ some (name, field)
      → IsHandled c k v (
          set_burst_field fp atof c (codes "burst." ++ name) field (config_action_from_name name) v)
  unfolding set_burst_field
  set_burst_field-IsHandled c k rest name field v h parts =
      let a = config_action_from_name name in
      let of_field : (f : Bytes)
          → (a == 0 || leb ds_act_max a) ≡ false
          → same_text field f ≡ true
          → OfBurst fp atof k f a =
        λ f known same. record {
          rest = rest;
          name = name;
          key = h;
          parts = parts ∙ ap (λ g. some (name, g)) (same_text_lem field f same);
          action = refl;
          known = known;
        } in
      if-IsHandled (a == 0 || leb ds_act_max a) _ _ (λ bad. inr (refl, refl))
        (λ known.
          if-IsHandled (same_text field (codes "hz")) _ _
            (λ same. inl (takes_hz a (of_field _ known same), refl))
            (λ o1.
              if-IsHandled (same_text field (codes "duty")) _ _
                (λ same. inl (takes_duty a (of_field _ known same), refl))
                (λ o2.
                  if-IsHandled (same_text field (codes "jitter")) _ _
                    (λ same. inl (takes_jitter a (of_field _ known same), refl))
                    (λ o3.
                      if-IsHandled (same_text field (codes "duty_jitter")) _ _
                        (λ same. inl (takes_duty_jitter a (of_field _ known same), refl))
                        (λ o4.
                          if-IsHandled (same_text field (codes "skip_prob")) _ _
                            (λ same. inl (takes_skip_prob a (of_field _ known same), refl))
                            (λ o5. inr (refl, refl)))))))

  set_burst-IsHandled :
      (c : Config Double) (k rest : Bytes) (o : Option (Bytes × Bytes)) (v : Bytes)
      → k ≡ codes "burst." ++ rest
      → cut_last 46 rest ≡ o
      → IsHandled c k v (set_burst fp atof c k o v)
  unfolding set_burst
  set_burst-IsHandled c k rest none v h parts = inr (refl, refl)
  set_burst-IsHandled c k rest (some (name, field)) v h parts =
      set_burst_field-IsHandled c k rest name field v h parts

  apply_rest-IsHandled :
      (c : Config Double) (k v : Bytes) → IsHandled c k v (apply_rest fp atof c k v)
  unfolding apply_rest set_recoil_action set_ads_action
  apply_rest-IsHandled c k v =
      let act = config_action_from_name v in
      if-IsHandled (same_text k (codes "recoil.action")) _ _
        (λ h.
          if-IsHandled (act == ds_act_none) _ _ (λ bad. inr (refl, refl))
            (λ known. inl (takes_recoil_action (same_text_lem k _ h) known, refl)))
        (λ o1.
          if-IsHandled (same_text k (codes "recoil.x")) _ _
            (λ h. inl (takes_recoil_x (same_text_lem k _ h), refl))
            (λ o2.
              if-IsHandled (same_text k (codes "recoil.y")) _ _
                (λ h. inl (takes_recoil_y (same_text_lem k _ h), refl))
                (λ o3.
                  if-IsHandled (same_text k (codes "ads.action")) _ _
                    (λ h.
                      if-IsHandled (act == ds_act_none) _ _ (λ bad. inr (refl, refl))
                        (λ known. inl (takes_ads_action (same_text_lem k _ h) known, refl)))
                    (λ o4.
                      if-IsHandled (same_text k (codes "ads.sens_scale")) _ _
                        (λ h. inl (takes_ads_sens_scale (same_text_lem k _ h), refl))
                        (λ o5.
                          if-IsHandled (same_text k (codes "fire.sens_scale")) _ _
                            (λ h. inl (takes_fire_sens_scale (same_text_lem k _ h), refl))
                            (λ o6. inr (refl, refl)))))))

  apply_burst-IsHandled :
      (c : Config Double) (k v : Bytes) (o : Option Bytes)
      → behind_prefix (codes "burst.") k ≡ o
      → IsHandled c k v (apply_burst fp atof c k v o)
  unfolding apply_burst
  apply_burst-IsHandled c k v none h = apply_rest-IsHandled c k v
  apply_burst-IsHandled c k v (some rest) h =
      set_burst-IsHandled c k rest (cut_last 46 rest) v (behind_prefix_lem _ k rest h) refl

  apply_mouse-IsHandled :
      (c : Config Double) (k v : Bytes) (o : Option Bytes)
      → same_text k (codes "hotkey.mode_toggle") ≡ false
      → behind_prefix (codes "mouse.") k ≡ o
      → IsHandled c k v (apply_mouse fp atof c k v o)
  unfolding apply_mouse
  apply_mouse-IsHandled c k v (some name) other h =
      set_btn-IsHandled c k v name _ (behind_prefix_lem _ k name h) refl
  apply_mouse-IsHandled c k v none other h =
      rw other (apply_burst-IsHandled c k v (behind_prefix (codes "burst.") k) refl)

  apply_key-IsHandled :
      (c : Config Double) (k v : Bytes) (o : Option Bytes)
      → same_text k (codes "hotkey.mode_toggle") ≡ false
      → behind_prefix (codes "key.") k ≡ o
      → IsHandled c k v (apply_key fp atof c k v o)
  unfolding apply_key
  apply_key-IsHandled c k v (some name) other h =
      set_key-IsHandled c k v name _ (behind_prefix_lem _ k name h) refl
  apply_key-IsHandled c k v none other h =
      apply_mouse-IsHandled c k v (behind_prefix (codes "mouse.") k) other refl

  apply-IsHandled :
      (c : Config Double) (k v : Bytes)
      → same_text k (codes "hotkey.mode_toggle") ≡ false
      → IsHandled c k v (apply fp atof c k v)
  unfolding apply
  apply-IsHandled c k v other =
      if-IsHandled (same_text k (codes "window_ms")) _ _
        (λ h. inl (takes_window_ms (same_text_lem k _ h), refl))
        (λ o1.
          if-IsHandled (same_text k (codes "curve_exp")) _ _
            (λ h. inl (takes_curve_exp (same_text_lem k _ h), refl))
            (λ o2.
              if-IsHandled (same_text k (codes "anti_deadzone")) _ _
                (λ h. inl (takes_anti_deadzone (same_text_lem k _ h), refl))
                (λ o3.
                  if-IsHandled (same_text k (codes "outer_sat")) _ _
                    (λ h. inl (takes_outer_sat (same_text_lem k _ h), refl))
                    (λ o4.
                      if-IsHandled (same_text k (codes "sens_counts_ms")) _ _
                        (λ h. inl (takes_sens_counts_ms (same_text_lem k _ h), refl))
                        (λ o5.
                          if-IsHandled (same_text k (codes "debt_drain")) _ _
                            (λ h. inl (takes_debt_drain (same_text_lem k _ h), refl))
                            (λ o6.
                              apply_key-IsHandled c k v (behind_prefix (codes "key.") k) other
                                refl))))))

  -- Either the table has the setting, and what it says is done without a message; or it has not, and
  -- there is exactly one message and the configuration is the one before.
  abbrev pub IsAllOrNothing : Config Double → Bytes → Bytes → Outcome Double → Type 0
  IsAllOrNothing c k v o =
      (Takes fp atof c k v o.0 × (o.1 ≡ []))
      ⊎ (((c' : Config Double) → Takes fp atof c k v c' → ⊥) × (o.0 ≡ c) × (length o.1 ≡ 1))

  -- A setting other than the chord is either one of the table `Takes`, which has for each key the
  -- change that a value makes, and then exactly this change is made and there is no message; or it is
  -- none of these, and then there is exactly one message and the configuration is the one before.
  pub apply-IsAllOrNothing :
      (c : Config Double) (k v : Bytes)
      → same_text k (codes "hotkey.mode_toggle") ≡ false
      → IsAllOrNothing c k v (apply fp atof c k v)
  apply-IsAllOrNothing c k v other = elim (apply-IsHandled c k v other) [
    | inl taken ↦ inl taken
    | inr (same, one) ↦ inr (
      λ c' t.
          let silent : length (apply fp atof c k v).1 ≡ 0 =
            ap (λ (o : Outcome Double). length o.1) (apply-Takes fp atof c k v t) in
          absurd (omega (arith, silent, one)),
      same,
      one,
    )
  ]
