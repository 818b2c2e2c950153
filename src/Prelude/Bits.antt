-- ===== src/Prelude/Bits.antt =====
-- Bit masks at variables: what `|=`, `&= ~` and `&` with a single bit do to each bit of a word.
use Prim.Native.Nat.{bitwise, bit_and-bitwise, bit_or-bitwise, digits, bit_and, bit_or}
use Prim.Native.Nat.{ℕ, zero, suc, ◌+◌, ◌-◌, ◌*◌, ◌/◌, ◌%◌, ◌^◌, ◌≤◌, ◌<◌, min, max}
use mathlib.Core.Path.{◌≡◌, refl, ap, ◌∙◌, sym}
use mathlib.Core.Bool.{Bool, true, false, not, ◌||◌}
use mathlib.Core.Logic.{◌⊎◌, inl, inr}
use native.Mathlib.Omega.{arith}
use native.Mathlib.Nat.{pow-suc, one-le-pow}
use meta_dualsense.Prelude.Tests.{◌==◌, if◌then◌else◌, Bool-cases}

-- `1 << k`
abbrev pub single : ℕ → ℕ
single k = 2 ^ k

-- `w & (1 << k)` as a truth value
unfoldable pub has_bit : ℕ → ℕ → Bool
has_bit w k = not (bit_and w (single k) == 0)

-- `w | (1 << k)`
unfoldable pub set_bit : ℕ → ℕ → ℕ
set_bit w k = bit_or w (single k)

-- `w & ~(1 << k)` in words of `n` bits
unfoldable pub clear_bit : ℕ → ℕ → ℕ → ℕ
clear_bit n w k = bit_and w (2 ^ n - 1 - single k)

-- The bit at position `k`, 0 or 1.
unfoldable pub bit : ℕ → ℕ → ℕ
bit zero w = w % 2
bit (suc k) w = bit k (w / 2)

-- The fuel of the digit recursion does not matter once it covers the first number.
digits_enough :
    (z : ℕ → ℕ) (f : ℕ → ℕ → ℕ) (more a b : ℕ) → digits z f (a + more) a b ≡ bitwise z f a b
digits_enough z f more a b = any_two (a + more) a a b (omega arith) (omega arith)
  where
    any_two : (n m c d : ℕ) → c ≤ n → c ≤ m → digits z f n c d ≡ digits z f m c d
    any_two zero zero c d p q = refl
    any_two zero (suc m) zero d p q = refl
    any_two zero (suc m) (suc c) d p q = absurd (omega arith)
    any_two (suc n) zero zero d p q = refl
    any_two (suc n) zero (suc c) d p q = absurd (omega arith)
    any_two (suc n) (suc m) zero d p q = refl
    any_two (suc n) (suc m) (suc c) d p q =
        ap (λ r. r * 2 + f (suc c % 2) (d % 2))
          (any_two n m (suc c / 2) (d / 2) (omega arith) (omega arith))

-- One digit of each operation.
and_low : (a b : ℕ) → bit_and a b ≡ bit_and (a / 2) (b / 2) * 2 + min (a % 2) (b % 2)
and_low zero b = omega (arith, bit_and-bitwise 0 b, bit_and-bitwise 0 (b / 2))
and_low (suc a) b =
    let fuel : a ≡ suc a / 2 + (a - suc a / 2) = omega arith in
    bit_and-bitwise (suc a) b
    ∙ ap (λ r. r * 2 + min (suc a % 2) (b % 2))
        (ap (λ n. digits (λ y. 0) min n (suc a / 2) (b / 2)) fuel
          ∙ digits_enough (λ y. 0) min (a - suc a / 2) (suc a / 2) (b / 2))
    ∙ ap (λ r. r * 2 + min (suc a % 2) (b % 2)) (sym (bit_and-bitwise (suc a / 2) (b / 2)))

or_low : (a b : ℕ) → bit_or a b ≡ bit_or (a / 2) (b / 2) * 2 + max (a % 2) (b % 2)
or_low zero b = omega (arith, bit_or-bitwise 0 b, bit_or-bitwise 0 (b / 2))
or_low (suc a) b =
    let fuel : a ≡ suc a / 2 + (a - suc a / 2) = omega arith in
    bit_or-bitwise (suc a) b
    ∙ ap (λ r. r * 2 + max (suc a % 2) (b % 2))
        (ap (λ n. digits (λ y. y) max n (suc a / 2) (b / 2)) fuel
          ∙ digits_enough (λ y. y) max (a - suc a / 2) (suc a / 2) (b / 2))
    ∙ ap (λ r. r * 2 + max (suc a % 2) (b % 2)) (sym (bit_or-bitwise (suc a / 2) (b / 2)))

bit-lt : (k w : ℕ) → bit k w < 2
unfolding bit
bit-lt zero w = omega arith
bit-lt (suc k) w = bit-lt k (w / 2)

pub bit-bit_and : (k a b : ℕ) → bit k (bit_and a b) ≡ min (bit k a) (bit k b)
unfolding bit
bit-bit_and zero a b = omega (arith, and_low a b)
bit-bit_and (suc k) a b =
    let half : bit_and a b / 2 ≡ bit_and (a / 2) (b / 2) = omega (arith, and_low a b) in
    ap (bit k) half ∙ bit-bit_and k (a / 2) (b / 2)

pub bit-bit_or : (k a b : ℕ) → bit k (bit_or a b) ≡ max (bit k a) (bit k b)
unfolding bit
bit-bit_or zero a b = omega (arith, or_low a b)
bit-bit_or (suc k) a b =
    let half : bit_or a b / 2 ≡ bit_or (a / 2) (b / 2) = omega (arith, or_low a b) in
    ap (bit k) half ∙ bit-bit_or k (a / 2) (b / 2)

bit-zero : (k : ℕ) → bit k 0 ≡ 0
unfolding bit
bit-zero zero = refl
bit-zero (suc k) = bit-zero k

half-single : (k : ℕ) → (single (suc k) / 2 ≡ single k) × (single (suc k) % 2 ≡ 0)
half-single k = (omega (arith, pow-suc 2 k), omega (arith, pow-suc 2 k))

bit-single : (j k : ℕ) → bit j (single k) ≡ (if k == j then 1 else 0)
unfolding bit
bit-single zero zero = refl
bit-single zero (suc k) = ground (arith, half-single k)
bit-single (suc j) zero = ground (arith, bit-zero j)
bit-single (suc j) (suc k) = ap (bit j) (half-single k).0 ∙ bit-single j k ∙ ground arith

and-zero : (n w : ℕ) → w ≤ n → bit_and w 0 ≡ 0
and-zero n zero h = refl
and-zero zero (suc w) h = elim h [ ]
and-zero (suc n) (suc w) h = omega (arith, and_low (suc w) 0, and-zero n (suc w / 2) (omega arith))

and-single : (w k : ℕ) → bit_and w (single k) ≡ bit k w * single k
unfolding bit
and-single w zero = omega (arith, and_low w 1, and-zero (w / 2) (w / 2) (omega arith))
and-single w (suc k) =
    let rest : bit k (w / 2) * single (suc k) ≡ bit k (w / 2) * single k * 2 =
      omega (arith, ap (λ (t : ℕ). bit k (w / 2) * t) (pow-suc 2 k)) in
    let halves : bit_and (w / 2) (single (suc k) / 2) ≡ bit_and (w / 2) (single k) =
      ap (bit_and (w / 2)) (half-single k).0 in
    omega (arith, and_low w (single (suc k)), half-single k, and-single (w / 2) k, rest, halves)

-- `~x` flips each bit of the word.
bit-complement : (n j x : ℕ) → x < 2 ^ n → j < n → bit j (2 ^ n - 1 - x) ≡ 1 - bit j x
unfolding bit
bit-complement zero j x hx hj = elim hj [ ]
bit-complement (suc n) zero x hx hj = omega (arith, pow-suc 2 n)
bit-complement (suc n) (suc j) x hx hj =
    let half : (2 ^ suc n - 1 - x) / 2 ≡ 2 ^ n - 1 - x / 2 = omega (arith, pow-suc 2 n) in
    ap (bit j) half ∙ bit-complement n j (x / 2) (omega (arith, pow-suc 2 n)) (omega arith)

-- `w & (1 << k)` reads the bit at `k`.
pub has_bit-eq-bit : (w k : ℕ) → has_bit w k ≡ (bit k w == 1)
unfolding has_bit
has_bit-eq-bit w k = ground (arith, and-single w k, bit-lt k w, one-le-pow k 2)

pub has_bit-set_bit : (w k j : ℕ) → has_bit (set_bit w k) j ≡ (if k == j then true else has_bit w j)
unfolding set_bit
has_bit-set_bit w k j = ground (
  arith,
  has_bit-eq-bit (bit_or w (single k)) j,
  has_bit-eq-bit w j,
  bit-bit_or j w (single k),
  bit-single j k,
  bit-lt j w,
)

pub single-lt : (n k : ℕ) → k < n → single k < 2 ^ n
single-lt zero k h = elim h [ ]
single-lt (suc n) zero h = omega (arith, pow-suc 2 n, one-le-pow n 2)
single-lt (suc n) (suc k) h = omega (arith, pow-suc 2 n, pow-suc 2 k, single-lt n k (omega arith))

pub has_bit-clear_bit :
    (n w k j : ℕ)
    → k < n
    → j < n
    → has_bit (clear_bit n w k) j ≡ (if k == j then false else has_bit w j)
unfolding clear_bit
has_bit-clear_bit n w k j hk hj = ground (
  arith,
  has_bit-eq-bit (bit_and w (2 ^ n - 1 - single k)) j,
  has_bit-eq-bit w j,
  bit-bit_and j w (2 ^ n - 1 - single k),
  bit-complement n j (single k) (single-lt n k hk) hj,
  bit-single j k,
  bit-lt j w,
)

pub has_bit-zero : (k : ℕ) → has_bit 0 k ≡ false
has_bit-zero k = ground (arith, has_bit-eq-bit 0 k, bit-zero k)

pub single_eq : (k j : ℕ) → (single k == single j) ≡ (k == j)
single_eq k j = ground (
  arith,
  bit-single j k,
  bit-single j j,
  same_bit (single k) (single j),
  ap single {x = k} {y = j},
)
  where
    same_bit : (v w : ℕ) → v ≡ w → bit j v ≡ bit j w
    same_bit v w e = ap (bit j) e

-- A single bit of a word of `n` bits, or no bit.
unfoldable pub mask_below : ℕ → ℕ → Bool
mask_below zero b = b == 0
mask_below (suc n) b = b == single n || mask_below n b

pub mask_below_cases :
    (n b : ℕ) → mask_below n b ≡ true → (b ≡ 0) ⊎ ((k : ℕ) × (k < n) × (b ≡ single k))
unfolding mask_below
mask_below_cases zero b h = inl (ground arith)
mask_below_cases (suc n) b h = elim (Bool-cases (b == single n)) [
  | inl same ↦ inr (n, omega arith, ground arith)
  | inr other ↦ elim (mask_below_cases n b (ground arith)) [
    | inl z ↦ inl z
    | inr (k, lt, e) ↦ inr (k, omega arith, e)
  ]
]

pub one-le-single : (k : ℕ) → 1 ≤ single k
one-le-single k = one-le-pow k 2 (omega arith)

-- A word of `n` bits stays one.
pub set_bit-lt : (n w k : ℕ) → w < 2 ^ n → k < n → set_bit w k < 2 ^ n
unfolding set_bit
set_bit-lt n w k hw hk = or_lt n w (single k) hw (single-lt n k hk)
  where
    or_lt : (n a b : ℕ) → a < 2 ^ n → b < 2 ^ n → bit_or a b < 2 ^ n
    or_lt zero a b ha hb =
        let za : a ≡ 0 = omega arith in let zb : b ≡ 0 = omega arith in rw (za, zb) (omega arith)
    or_lt (suc n) a b ha hb =
        let half =
          or_lt n (a / 2) (b / 2) (omega (arith, pow-suc 2 n)) (omega (arith, pow-suc 2 n)) in
        omega (arith, or_low a b, pow-suc 2 n, half)

-- A number below `2 ^ n` has no bit from `n` on.
pub has_bit-small : (n k w : ℕ) → w < 2 ^ n → n ≤ k → has_bit w k ≡ false
unfolding bit
has_bit-small n k w h le = ground (arith, has_bit-eq-bit w k, none_there n k w h le)
  where
    none_there : (n k w : ℕ) → w < 2 ^ n → n ≤ k → bit k w ≡ 0
    none_there zero zero w h le = omega arith
    none_there (suc n) zero w h le = absurd (omega arith)
    none_there zero (suc k) w h le = none_there zero k (w / 2) (omega arith) (omega arith)
    none_there (suc n) (suc k) w h le =
        none_there n k (w / 2) (omega (arith, pow-suc 2 n)) (omega arith)
