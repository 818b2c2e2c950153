-- ===== src/Mapper/BuildReport/Places.antt =====
-- Where the assignments of a report put each button, the hat and the triggers.
use meta_dualsense.Prelude.{
  ℕ, ◌<◌, ◌≤◌, ◌≡◌, refl, ap, ◌∙◌, sym, Bool, false, ◌||◌, List, [], ◌∷◌, ◌==◌, if◌then◌else◌,
  arith,
}
use meta_dualsense.Prelude.Bits.{has_bit, set_bit, has_bit-set_bit, has_bit-zero, has_bit-small}
use meta_dualsense.Report.{
  ds_act_cross, ds_act_circle, ds_act_square, ds_act_triangle, ds_act_l1, ds_act_r1, ds_act_l2,
  ds_act_r2, ds_act_l3, ds_act_r3, ds_act_create, ds_act_options, ds_act_ps, ds_act_touchpad,
  ds_act_mute,
}
use meta_dualsense.Config.{Config}
use meta_dualsense.Mapper.{Mapper}
use meta_dualsense.Mapper.Float.{Float}
use meta_dualsense.Mapper.Burst.{is_active}
use meta_dualsense.Mapper.Stick.{dpad_from_state}
use meta_dualsense.Mapper.BuildReport.{with_bits, btn0_bits, btn1_bits, btn2_bits, report_writes}
use meta_dualsense.Mapper.BuildReport.Writes.{last_value}
use meta_dualsense.Mapper.BuildReport.Hat.{small_hat}

-- The buttons of a DualSense report: the byte, the bit of it, and the action.
pub data IsButton : ℕ → ℕ → ℕ → Type 0 where
  square : IsButton 8 4 ds_act_square
  cross : IsButton 8 5 ds_act_cross
  circle : IsButton 8 6 ds_act_circle
  triangle : IsButton 8 7 ds_act_triangle
  l1 : IsButton 9 0 ds_act_l1
  r1 : IsButton 9 1 ds_act_r1
  l2 : IsButton 9 2 ds_act_l2
  r2 : IsButton 9 3 ds_act_r2
  create : IsButton 9 4 ds_act_create
  options : IsButton 9 5 ds_act_options
  l3 : IsButton 9 6 ds_act_l3
  r3 : IsButton 9 7 ds_act_r3
  ps : IsButton 10 0 ds_act_ps
  touchpad : IsButton 10 1 ds_act_touchpad
  mute : IsButton 10 2 ds_act_mute

lit_by : (ℕ → Bool) → List (ℕ × ℕ) → Bool → ℕ → Bool
lit_by on [] b j = b
lit_by on ((a, k) ∷ rest) b j = lit_by on rest (if k == j then on a || b else b) j

has_bit-with_bits :
    (on : ℕ → Bool) (bits : List (ℕ × ℕ)) (w j : ℕ)
    → has_bit (with_bits on bits w) j ≡ lit_by on bits (has_bit w j) j
unfolding with_bits lit_by
has_bit-with_bits on [] w j = refl
has_bit-with_bits on ((a, k) ∷ rest) w j =
    has_bit-with_bits on rest (if on a then set_bit w k else w) j
    ∙ ap (λ b. lit_by on rest b j) (ground (arith, has_bit-set_bit w k j))

module _ (fp : Float) (cfg : Config (fp.Double)) where
  open fp use {Double}

  -- The button bytes among the assignments
  pub button_writes :
      (m : Mapper Double) (left right : ℕ × ℕ) (now_ns byte k a : ℕ)
      → IsButton byte k a
      → has_bit (last_value (report_writes fp cfg m left right now_ns) byte 0) k
        ≡ is_active fp cfg m a now_ns
  unfolding report_writes last_value lit_by
  button_writes m left right now_ns byte k a b = of_button b
    where
      on : ℕ → Bool
      on x = is_active fp cfg m x now_ns

      byte0 :
          (j x : ℕ)
          → 4 ≤ j
          → (on x || false) ≡ lit_by on btn0_bits false j
          → has_bit (with_bits on btn0_bits (dpad_from_state m)) j ≡ on x
      byte0 j x h e =
          has_bit-with_bits on btn0_bits (dpad_from_state m) j
          ∙ ap (λ z. lit_by on btn0_bits z j)
              (has_bit-small 4 j (dpad_from_state m) (small_hat m) h)
          ∙ sym e
          ∙ ground arith

      zeroed :
          (bits : List (ℕ × ℕ)) (j x : ℕ)
          → (on x || false) ≡ lit_by on bits false j
          → has_bit (with_bits on bits 0) j ≡ on x
      zeroed bits j x e =
          has_bit-with_bits on bits 0 j
          ∙ ap (λ z. lit_by on bits z j) (has_bit-zero j)
          ∙ sym e
          ∙ ground arith

      of_button :
          {i j x : ℕ}
          → IsButton i j x
          → has_bit (last_value (report_writes fp cfg m left right now_ns) i 0) j ≡ on x
      of_button square = byte0 4 _ (omega arith) refl
      of_button cross = byte0 5 _ (omega arith) refl
      of_button circle = byte0 6 _ (omega arith) refl
      of_button triangle = byte0 7 _ (omega arith) refl
      of_button l1 = zeroed btn1_bits 0 _ refl
      of_button r1 = zeroed btn1_bits 1 _ refl
      of_button l2 = zeroed btn1_bits 2 _ refl
      of_button r2 = zeroed btn1_bits 3 _ refl
      of_button create = zeroed btn1_bits 4 _ refl
      of_button options = zeroed btn1_bits 5 _ refl
      of_button l3 = zeroed btn1_bits 6 _ refl
      of_button r3 = zeroed btn1_bits 7 _ refl
      of_button ps = zeroed btn2_bits 0 _ refl
      of_button touchpad = zeroed btn2_bits 1 _ refl
      of_button mute = zeroed btn2_bits 2 _ refl

  pub dpad_writes :
      (m : Mapper Double) (left right : ℕ × ℕ) (now_ns j : ℕ)
      → j < 4
      → has_bit (last_value (report_writes fp cfg m left right now_ns) 8 0) j
        ≡ has_bit (dpad_from_state m) j
  unfolding report_writes last_value lit_by
  dpad_writes m left right now_ns j h =
      has_bit-with_bits (λ x. is_active fp cfg m x now_ns) btn0_bits (dpad_from_state m) j
      ∙ ground arith

  pub in_report : {byte k a : ℕ} → IsButton byte k a → byte < 64
  in_report b = of_button b
    where
      of_button : {i j x : ℕ} → IsButton i j x → i < 64
      of_button square = omega arith
      of_button cross = omega arith
      of_button circle = omega arith
      of_button triangle = omega arith
      of_button l1 = omega arith
      of_button r1 = omega arith
      of_button l2 = omega arith
      of_button r2 = omega arith
      of_button create = omega arith
      of_button options = omega arith
      of_button l3 = omega arith
      of_button r3 = omega arith
      of_button ps = omega arith
      of_button touchpad = omega arith
      of_button mute = omega arith

  pub trigger_writes :
      (m : Mapper Double) (left right : ℕ × ℕ) (now_ns : ℕ)
      → (last_value (report_writes fp cfg m left right now_ns) 5 0
          ≡ (if is_active fp cfg m ds_act_l2 now_ns then 255 else 0))
        × (last_value (report_writes fp cfg m left right now_ns) 6 0
            ≡ (if is_active fp cfg m ds_act_r2 now_ns then 255 else 0))
  unfolding report_writes last_value
  trigger_writes m left right now_ns = (refl, refl)
