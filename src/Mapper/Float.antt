-- ===== src/Mapper/Float.antt =====
-- The `double` arithmetic that the mapper and kbm-leds use, which the C compiler and libm provide: a
-- type with its operations, taken as a parameter.
use meta_dualsense.Prelude.{ℕ, Bool}
use meta_dualsense.Prelude.Int.{ℤ}

pub record Float : Type 1 where
  pub Double : Type 0
  -- `lit m k` is the literal m / 10 ^ k, and `of_int` the conversion from an integer.
  pub lit : ℕ → ℕ → Double
  pub of_int : ℤ → Double
  pub neg : Double → Double
  pub add : Double → Double → Double
  pub sub : Double → Double → Double
  pub mul : Double → Double → Double
  pub div : Double → Double → Double
  -- `a < b`, `a <= b` and `a == b`
  pub lt : Double → Double → Bool
  pub le : Double → Double → Bool
  pub eq : Double → Double → Bool
  -- The conversion to a signed integer, and `lrint`.
  pub to_int : Double → ℤ
  pub lrint : Double → ℤ
  pub sqrt : Double → Double
  pub log : Double → Double
  pub exp : Double → Double
  pub cos : Double → Double
  pub pow : Double → Double → Double
  pub fmod : Double → Double → Double
