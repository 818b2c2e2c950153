-- ===== src/Prelude/Text/Decimal.antt =====
-- Numbers printed in base ten, as `%u` and `%d` print them.
use Prim.Native.Nat.{ℕ, suc, zero, ◌+◌, ◌-◌, ◌*◌, ◌/◌, ◌%◌, ◌^◌, ◌≤◌, ◌<◌}
use mathlib.Core.Path.{◌≡◌, refl, ◌∙◌}
use mathlib.Core.Logic.{inl, inr}
use mathlib.Core.List.{[], ◌∷◌, ◌++◌}
use native.Mathlib.Omega.{arith}
use native.Mathlib.Nat.{pow-suc}
use meta_dualsense.Prelude.Tests.{ltb, if◌then◌else◌, Bool-cases}
use meta_dualsense.Prelude.Lists.{length, length-append}
use meta_dualsense.Prelude.Int.{ℤ, pos, negsuc}
use meta_dualsense.Prelude.Text.{Bytes}

-- With as many digits as the fuel at most.
unfoldable pub digits : ℕ → ℕ → Bytes
digits zero n = []
digits (suc fuel) n =
    let more = digits fuel (n / 10) in
    if ltb n 10 then (48 + n) ∷ [] else more ++ (48 + n % 10) ∷ []

-- Ten digits are enough for 32 bits.
unfoldable pub unsigned : ℕ → Bytes
unsigned n = digits 10 n

unfoldable pub decimal : ℤ → Bytes
decimal (pos n) = unsigned n
decimal (negsuc n) = 45 ∷ unsigned (suc n)

pub length-digits : (fuel n : ℕ) → length (digits fuel n) ≤ fuel
unfolding digits
length-digits zero n = omega arith
length-digits (suc fuel) n = elim (Bool-cases (ltb n 10)) [
  | inl one ↦ rw one (omega arith)
  | inr two ↦ rw two (
      omega (
        arith,
        length-append (digits fuel (n / 10)) ((48 + n % 10) ∷ []),
        length-digits fuel (n / 10),
      ))
]

-- The number that digits stand for, the last one first.
unfoldable pub number : Bytes → ℕ → ℕ
number [] n = n
number (c ∷ s) n = number s (10 * n + (c - 48))

number-append : (a b : Bytes) (n : ℕ) → number (a ++ b) n ≡ number b (number a n)
unfolding number
number-append [] b n = refl
number-append (c ∷ a) b n = number-append a b (10 * n + (c - 48))

-- Enough fuel prints the number.
pub number-digits : (fuel n : ℕ) → n < 10 ^ fuel → number (digits fuel n) 0 ≡ n
unfolding digits number
number-digits zero n small = omega arith
number-digits (suc fuel) n small = elim (Bool-cases (ltb n 10)) [
  | inl one ↦ rw one (omega arith)
  | inr two ↦ rw two (
      number-append (digits fuel (n / 10)) ((48 + n % 10) ∷ []) 0
      ∙ omega (arith, number-digits fuel (n / 10) (omega (arith, pow-suc 10 fuel))))
]
