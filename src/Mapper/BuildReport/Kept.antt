-- ===== src/Mapper/BuildReport/Kept.antt =====
-- The update of the right stick keeps all that the buttons and the hat depend on.
use meta_dualsense.Prelude.{ℕ, ◌≡◌, refl, Bool, true, false, if◌then◌else◌}
use meta_dualsense.Report.{ds_act_dpad_up, ds_act_dpad_down, ds_act_dpad_left, ds_act_dpad_right}
use meta_dualsense.Config.{Config}
use meta_dualsense.Mapper.{Mapper, is_pressed}
use meta_dualsense.Mapper.Float.{Float}
use meta_dualsense.Mapper.Burst.{burst_phase, is_active}
use meta_dualsense.Mapper.Stick.{dpad_from_state, deflect, mouse_to_stick}
use meta_dualsense.Mapper.BuildReport.Hat.{hat, dpad_hat}

module _ (fp : Float) (cfg : Config (fp.Double)) where
  open fp use {Double}

  active_if :
      (b : Bool) (p q : Mapper Double × ℕ × ℕ) (a now_ns : ℕ) (x : Bool)
      → is_active fp cfg p.0 a now_ns ≡ x
      → is_active fp cfg q.0 a now_ns ≡ x
      → is_active fp cfg (if b then p else q).0 a now_ns ≡ x
  active_if true p q a now_ns x h k = h
  active_if false p q a now_ns x h k = k

  pub is_active-mouse_to_stick :
      (m : Mapper Double) (vx vy : Double) (a now_ns : ℕ)
      → is_active fp cfg (mouse_to_stick fp cfg m vx vy).0 a now_ns ≡ is_active fp cfg m a now_ns
  unfolding mouse_to_stick deflect is_active burst_phase is_pressed
  is_active-mouse_to_stick m vx vy a now_ns = active_if _ _ _ a now_ns _ refl refl

  pub is_pressed-mouse_to_stick :
      (m : Mapper Double) (vx vy : Double) (a : ℕ)
      → is_pressed (mouse_to_stick fp cfg m vx vy).0 a ≡ is_pressed m a
  unfolding mouse_to_stick deflect is_pressed
  is_pressed-mouse_to_stick m vx vy a = pressed_if _ _ _ refl refl
    where
      pressed_if :
          (b : Bool) (p q : Mapper Double × ℕ × ℕ)
          → is_pressed p.0 a ≡ is_pressed m a
          → is_pressed q.0 a ≡ is_pressed m a
          → is_pressed (if b then p else q).0 a ≡ is_pressed m a
      pressed_if true p q h k = h
      pressed_if false p q h k = k

  pub hat-mouse_to_stick :
      (m : Mapper Double) (vx vy : Double)
      → dpad_from_state (mouse_to_stick fp cfg m vx vy).0
        ≡ hat
            (is_pressed m ds_act_dpad_up)
            (is_pressed m ds_act_dpad_down)
            (is_pressed m ds_act_dpad_left)
            (is_pressed m ds_act_dpad_right)
  hat-mouse_to_stick m vx vy =
      let held = is_pressed-mouse_to_stick m vx vy in
      rw
        (
          ← held ds_act_dpad_up,
          ← held ds_act_dpad_down,
          ← held ds_act_dpad_left,
          ← held ds_act_dpad_right,
        )
        (dpad_hat (mouse_to_stick fp cfg m vx vy).0)
