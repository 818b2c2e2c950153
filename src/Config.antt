-- ===== src/Config.antt =====
-- The parsed configuration of the mapper (recipes-apps/kbm-mapper-ff/files/config.h), over any type
-- of doubles, and its defaults (config.c). Arrays are functions of their index.
pub mod Names
pub mod Parser
pub mod Lookup
pub mod Validity
pub mod Settings
pub mod Refusals
pub mod RoundTrip
use meta_dualsense.Prelude.{ℕ, ◌==◌, ◌%◌, if◌then◌else◌, List, [], ◌∷◌}
use meta_dualsense.Input.{
  key_w, key_s, key_a, key_d, key_space, key_leftshift, key_leftctrl, key_esc, btn_left, btn_right,
}
use meta_dualsense.Report.{
  ds_act_none, ds_act_lstick_up, ds_act_lstick_down, ds_act_lstick_left, ds_act_lstick_right,
  ds_act_cross, ds_act_circle, ds_act_r2, ds_act_l2,
}
use meta_dualsense.Mapper.Float.{Float}

pub record Config (Double : Type 0) : Type 0 where
  pub window_ms : Double
  pub curve_exp : Double
  pub anti_deadzone : Double
  pub outer_sat : Double
  pub sens_counts_ms : Double
  pub debt_drain : Double
  pub key_action : ℕ → ℕ
  pub btn_action : ℕ → ℕ
  pub burst_hz : ℕ → Double
  pub burst_duty : ℕ → Double
  pub burst_jitter : ℕ → Double
  pub burst_duty_jitter : ℕ → Double
  pub burst_skip_prob : ℕ → Double
  pub hotkey_codes : List ℕ
  pub hotkey_n : ℕ
  pub recoil_action : ℕ
  pub recoil_x : Double
  pub recoil_y : Double
  pub ads_action : ℕ
  pub ads_sens_scale : Double
  pub fire_sens_scale : Double

-- `a[i] = v`
unfoldable pub store {ℓ} : {A : Type ℓ} → (ℕ → A) → ℕ → A → ℕ → A
store a i v j = if i == j then v else a j

module _ (fp : Float) where
  open fp use {Double, lit}

  unfoldable pub config_init_defaults : Config Double
  config_init_defaults =
      let none_pressed : ℕ → ℕ = λ i. ds_act_none in
      let zeros : ℕ → Double = λ i. lit 0 0 in
      record {
        window_ms = lit 60 1;
        curve_exp = lit 20 1;
        anti_deadzone = lit 10 2;
        outer_sat = lit 97 2;
        sens_counts_ms = lit 80 1;
        debt_drain = lit 5 2;
        key_action =
            store
              (store
                (store
                  (store
                    (store (store none_pressed key_w ds_act_lstick_up) key_s ds_act_lstick_down)
                    key_a ds_act_lstick_left)
                  key_d ds_act_lstick_right)
                key_space ds_act_cross)
              key_leftshift ds_act_circle;
        btn_action =
            store (store none_pressed (btn_left % 256) ds_act_r2) (btn_right % 256) ds_act_l2;
        burst_hz = zeros;
        burst_duty = zeros;
        burst_jitter = zeros;
        burst_duty_jitter = zeros;
        burst_skip_prob = zeros;
        hotkey_codes = key_leftctrl ∷ key_esc ∷ 0 ∷ 0 ∷ 0 ∷ 0 ∷ 0 ∷ 0 ∷ [];
        hotkey_n = 2;
        recoil_action = ds_act_none;
        recoil_x = lit 0 1;
        recoil_y = lit 0 1;
        ads_action = ds_act_none;
        ads_sens_scale = lit 10 1;
        fire_sens_scale = lit 10 1;
      }
