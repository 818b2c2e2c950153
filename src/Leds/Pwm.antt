-- ===== src/Leds/Pwm.antt =====
-- The brightness that the renderer's ticks add up to.
use meta_dualsense.Prelude.{
  ℕ, zero, suc, ◌+◌, ◌*◌, ◌/◌, ◌%◌, ◌≤◌, ◌≡◌, ◌==◌, if◌then◌else◌, arith, min, Bool-cases, inl, inr,
  ltb,
}
use meta_dualsense.Prelude.Int.{ℤ, pos_part}
use meta_dualsense.Leds.{line_bits, led_mask, pwm_levels}

-- How many of the `n` ticks from `tick` on have the lines set.
unfoldable pub lit_ticks : ℕ → ℕ → ℤ → ℕ
lit_ticks zero tick level = 0
lit_ticks (suc n) tick level =
    let rest = lit_ticks n (suc tick) level in
    if line_bits tick level == led_mask then suc rest else rest

-- What the ticks before `tick` have added up to, if the first was at phase 0.
before : ℕ → ℕ → ℕ
before tick bound = tick / 16 * bound + min (tick % 16) bound

before-suc :
    (tick bound : ℕ)
    → bound ≤ 16
    → before (suc tick) bound
      ≡ (if ltb (tick % 16) bound then suc (before tick bound) else before tick bound)
unfolding before
before-suc tick bound h = elim (Bool-cases (tick % 16 == 15)) [
  | inl wraps ↦
      let q : suc tick / 16 ≡ suc (tick / 16) = ground arith in
      let r : suc tick % 16 ≡ 0 = ground arith in
      let s : tick % 16 ≡ 15 = (ground arith) in rw (q, r, s) (grind arith)
  | inr stays ↦
      let q : suc tick / 16 ≡ tick / 16 = ground arith in
      let r : suc tick % 16 ≡ suc (tick % 16) = ground arith in rw (q, r) (ground arith)
]

lit_ticks-before :
    (n tick : ℕ) (level : ℤ)
    → lit_ticks n tick level + before tick (min (pos_part level) 16)
      ≡ before (tick + n) (min (pos_part level) 16)
unfolding lit_ticks line_bits
lit_ticks-before zero tick level = let same : tick + 0 ≡ tick = omega arith in rw same (omega arith)
lit_ticks-before (suc n) tick level =
    let shift : suc tick + n ≡ tick + suc n = omega arith in
    let rest : lit_ticks n (suc tick) level + before (suc tick) (min (pos_part level) 16)
        ≡ before (tick + suc n) (min (pos_part level) 16) =
      rw shift at (lit_ticks-before n (suc tick) level) in
    ground (arith, rest, before-suc tick (min (pos_part level) 16) (omega arith))

-- In any 16 ticks in a row with one level, the lines are set in as many as the level, none if it is
-- negative and all if it is above 16.
pub lit_ticks_period :
    (tick : ℕ) (level : ℤ) → lit_ticks pwm_levels tick level ≡ min (pos_part level) pwm_levels
unfolding before
lit_ticks_period tick level =
    let same : before (tick + 16) (min (pos_part level) 16)
        ≡ before tick (min (pos_part level) 16) + min (pos_part level) 16 =
      period (min (pos_part level) 16) in
    omega (arith, lit_ticks-before 16 tick level, same)
  where
    period : (bound : ℕ) → before (tick + 16) bound ≡ before tick bound + bound
    period bound =
        let q : (tick + 16) / 16 ≡ suc (tick / 16) = omega arith in
        let r : (tick + 16) % 16 ≡ tick % 16 = omega arith in rw (q, r) (grind arith)
