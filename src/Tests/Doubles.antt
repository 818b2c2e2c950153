-- ===== src/Tests/Doubles.antt =====
-- Whole numbers in place of doubles: enough of an arithmetic to run the mapper on.
use meta_dualsense.Prelude.{◌/◌, ◌^◌, not}
use meta_dualsense.Prelude.Int.{ℤ, pos, pos_part, ltb_ℤ, eqb_ℤ, quot, ◌+ℤ◌, ◌-ℤ◌, ◌*ℤ◌}
use meta_dualsense.Mapper.Float.{Float}

abbrev pub whole : Float
whole = record {
  Double = ℤ;
  lit = λ m k. pos (m / 10 ^ k);
  of_int = λ a. a;
  neg = λ a. pos 0 -ℤ a;
  add = λ a b. a +ℤ b;
  sub = λ a b. a -ℤ b;
  mul = λ a b. a *ℤ b;
  div = λ a b. quot a (pos_part b);
  lt = λ a b. ltb_ℤ a b;
  le = λ a b. not (ltb_ℤ b a);
  eq = λ a b. eqb_ℤ a b;
  to_int = λ a. a;
  lrint = λ a. a;
  sqrt = λ a. a;
  log = λ a. a;
  exp = λ a. a;
  cos = λ a. a;
  pow = λ a b. a;
  fmod = λ a b. a;
}
