-- ===== src/Mapper/Pressed.antt =====
-- The bitmap of pressed actions as a set of actions.
use meta_dualsense.Prelude.{ℕ, ◌%◌, ◌≡◌, Bool, true, false, not, ◌&&◌, ◌==◌, if◌then◌else◌, arith}
use meta_dualsense.Prelude.Bits.{has_bit-set_bit, has_bit-clear_bit, has_bit-zero}
use meta_dualsense.Mapper.{Mapper, no_action, set_action, is_pressed, mapper_init}

module _ {Double : Type 0} where
  -- After `set_action` the action, if it is one, is pressed as the call says, and every other action
  -- as before.
  pub is_pressed-set_action :
      (m : Mapper Double) (a b : ℕ) (down : Bool)
      → is_pressed (set_action m a down) b
        ≡ (if not (no_action a) && a == b then down else is_pressed m b)
  unfolding is_pressed set_action
  is_pressed-set_action m a b true = ground (arith, has_bit-set_bit m.pressed_lo (a % 64) (b % 64))
  is_pressed-set_action m a b false =
      ground (arith, has_bit-clear_bit 64 m.pressed_lo (a % 64) (b % 64))

  -- Nothing is pressed in the initial state.
  pub is_pressed-mapper_init : (z : Double) (a : ℕ) → is_pressed (mapper_init z) a ≡ false
  unfolding is_pressed mapper_init
  is_pressed-mapper_init z a = ground (arith, has_bit-zero (a % 64))
