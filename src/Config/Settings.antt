-- ===== src/Config/Settings.antt =====
-- The settings of the configuration file other than the chord, as a table: the key, and what becomes
-- of the configuration.
use meta_dualsense.Prelude.{ℕ, ◌≡◌, refl, false, ◌||◌, [], ◌++◌, some, ◌==◌, leb, ◌%◌}
use meta_dualsense.Prelude.Text.{Bytes, same_text, codes, behind_prefix, cut_last}
use meta_dualsense.Report.{ds_act_max, ds_act_none}
use meta_dualsense.Mapper.Float.{Float}
use meta_dualsense.Config.{Config, store}
use meta_dualsense.Config.Names.{
  config_action_from_name, config_key_from_name, config_btn_from_name,
}
use meta_dualsense.Config.Parser.{
  set_key, set_btn, set_recoil_action, set_ads_action, set_burst_field, set_burst, apply_rest,
  apply_burst, apply_mouse, apply_key, apply, unit, signed_unit, scale,
}

module _ (fp : Float) (atof : Bytes → fp.Double) where
  open fp use {Double}

  -- A burst setting: `burst.`, the name of an action, a dot and the name of the field.
  pub record OfBurst (k : Bytes) (field : Bytes) (a : ℕ) : Type 0 where
    pub rest : Bytes
    pub name : Bytes
    pub key : k ≡ codes "burst." ++ rest
    pub parts : cut_last 46 rest ≡ some (name, field)
    pub action : config_action_from_name name ≡ a
    pub known : (a == 0 || leb ds_act_max a) ≡ false

  -- What the value `v` for the key `k` makes of the configuration `c`.
  pub data Takes (c : Config Double) (k v : Bytes) : Config Double → Type 0 where
    takes_window_ms : k ≡ codes "window_ms" → Takes c k v (record c { window_ms = atof v })
    takes_curve_exp : k ≡ codes "curve_exp" → Takes c k v (record c { curve_exp = atof v })
    takes_anti_deadzone :
        k ≡ codes "anti_deadzone" → Takes c k v (record c { anti_deadzone = atof v })
    takes_outer_sat : k ≡ codes "outer_sat" → Takes c k v (record c { outer_sat = atof v })
    takes_sens_counts_ms :
        k ≡ codes "sens_counts_ms" → Takes c k v (record c { sens_counts_ms = atof v })
    takes_debt_drain : k ≡ codes "debt_drain" → Takes c k v (record c { debt_drain = atof v })
    takes_key :
        (name : Bytes) (code : ℕ)
        → k ≡ codes "key." ++ name
        → config_key_from_name name ≡ some code
        → (config_action_from_name v == 0) ≡ false
        → Takes c k v
            (record c { key_action = store c.key_action code (config_action_from_name v % 256) })
    takes_btn :
        (name : Bytes) (code : ℕ)
        → k ≡ codes "mouse." ++ name
        → config_btn_from_name name ≡ some code
        → (config_action_from_name v == 0) ≡ false
        → Takes c k v (record c {
          btn_action = store c.btn_action (code % 256) (config_action_from_name v % 256);
        })
    takes_hz :
        (a : ℕ)
        → OfBurst k (codes "hz") a
        → Takes c k v (record c { burst_hz = store c.burst_hz a (atof v) })
    takes_duty :
        (a : ℕ)
        → OfBurst k (codes "duty") a
        → Takes c k v (record c { burst_duty = store c.burst_duty a (atof v) })
    takes_jitter :
        (a : ℕ)
        → OfBurst k (codes "jitter") a
        → Takes c k v (record c { burst_jitter = store c.burst_jitter a (unit fp (atof v)) })
    takes_duty_jitter :
        (a : ℕ)
        → OfBurst k (codes "duty_jitter") a
        → Takes c k v
            (record c { burst_duty_jitter = store c.burst_duty_jitter a (unit fp (atof v)) })
    takes_skip_prob :
        (a : ℕ)
        → OfBurst k (codes "skip_prob") a
        → Takes c k v (record c { burst_skip_prob = store c.burst_skip_prob a (unit fp (atof v)) })
    takes_recoil_action :
        k ≡ codes "recoil.action"
        → (config_action_from_name v == ds_act_none) ≡ false
        → Takes c k v (record c { recoil_action = config_action_from_name v })
    takes_recoil_x :
        k ≡ codes "recoil.x" → Takes c k v (record c { recoil_x = signed_unit fp (atof v) })
    takes_recoil_y :
        k ≡ codes "recoil.y" → Takes c k v (record c { recoil_y = signed_unit fp (atof v) })
    takes_ads_action :
        k ≡ codes "ads.action"
        → (config_action_from_name v == ds_act_none) ≡ false
        → Takes c k v (record c { ads_action = config_action_from_name v })
    takes_ads_sens_scale :
        k ≡ codes "ads.sens_scale" → Takes c k v (record c { ads_sens_scale = scale fp (atof v) })
    takes_fire_sens_scale :
        k ≡ codes "fire.sens_scale" → Takes c k v (record c { fire_sens_scale = scale fp (atof v) })

  apply-burst :
      (c : Config Double) (k field v : Bytes) (a : ℕ) (b : OfBurst k field a)
      → apply fp atof c k v ≡ set_burst_field fp atof c (codes "burst." ++ b.name) field a v
  unfolding apply apply_key apply_mouse apply_burst set_burst same_text behind_prefix
  apply-burst c k field v a b = rw (b.key, b.parts, b.action) refl

  -- What the table says is what is done, without a message.
  pub apply-Takes :
      (c : Config Double) (k v : Bytes) {c' : Config Double}
      → Takes c k v c'
      → apply fp atof c k v ≡ (c', [])
  unfolding apply apply_key apply_mouse apply_burst apply_rest set_burst_field set_key set_btn
      set_recoil_action set_ads_action same_text behind_prefix
  apply-Takes c k v (takes_window_ms h) = rw h refl
  apply-Takes c k v (takes_curve_exp h) = rw h refl
  apply-Takes c k v (takes_anti_deadzone h) = rw h refl
  apply-Takes c k v (takes_outer_sat h) = rw h refl
  apply-Takes c k v (takes_sens_counts_ms h) = rw h refl
  apply-Takes c k v (takes_debt_drain h) = rw h refl
  apply-Takes c k v (takes_key name code h known act) = rw (h, known, act) refl
  apply-Takes c k v (takes_btn name code h known act) = rw (h, known, act) refl
  apply-Takes c k v (takes_hz a b) = rw (apply-burst c k _ v a b, b.known) refl
  apply-Takes c k v (takes_duty a b) = rw (apply-burst c k _ v a b, b.known) refl
  apply-Takes c k v (takes_jitter a b) = rw (apply-burst c k _ v a b, b.known) refl
  apply-Takes c k v (takes_duty_jitter a b) = rw (apply-burst c k _ v a b, b.known) refl
  apply-Takes c k v (takes_skip_prob a b) = rw (apply-burst c k _ v a b, b.known) refl
  apply-Takes c k v (takes_recoil_action h act) = rw (h, act) refl
  apply-Takes c k v (takes_recoil_x h) = rw h refl
  apply-Takes c k v (takes_recoil_y h) = rw h refl
  apply-Takes c k v (takes_ads_action h act) = rw (h, act) refl
  apply-Takes c k v (takes_ads_sens_scale h) = rw h refl
  apply-Takes c k v (takes_fire_sens_scale h) = rw h refl
