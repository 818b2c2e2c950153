-- ===== src/Mapper/Burst/Clockwork.antt =====
-- A burst without jitter is a clock of fixed cycle and duty.
use native.Mathlib.Nat.{add-mod_right, mod-eq_of_lt}
use meta_dualsense.Prelude.{
  ℕ, zero, suc, ◌+◌, ◌-◌, ◌*◌, ◌%◌, ◌<◌, ◌≡◌, refl, ◌∙◌, ap, true, false, not, ◌&&◌, ◌||◌, ◌⊎◌, inl,
  inr, get_or, if◌then◌else◌, arith, Bool-cases,
}
use meta_dualsense.Prelude.Int.{pos, pos_part, ltb_ℤ}
use meta_dualsense.Config.{Config}
use meta_dualsense.Mapper.{Mapper, is_pressed}
use meta_dualsense.Mapper.Float.{Float}
use meta_dualsense.Mapper.Burst.{nominal, burst_phase, is_active}

mod_cycles : (q r n : ℕ) → r < n → (q * n + r) % n ≡ r
mod_cycles zero r n h =
    let none_yet : 0 * n + r ≡ r = omega arith in ap (λ k. k % n) none_yet ∙ mod-eq_of_lt h
mod_cycles (suc q) r n h =
    let turn : suc q * n + r ≡ q * n + r + n = omega arith in
    ap (λ k. k % n) turn ∙ add-mod_right (q * n + r) n ∙ mod_cycles q r n h

module _ (fp : Float) where
  open fp use {Double, lit, le, lt, of_int, mul, to_int, div}

  -- The share of a cycle that is high: half of it where none above 0 is configured.
  abbrev pub duty_of : Config Double → ℕ → Double
  duty_of cfg a = if le (cfg.burst_duty a) (lit 0 0) then lit 5 1 else cfg.burst_duty a

  -- For a pressed action with a burst rate, neither jitter nor skips, and a duty of at most 1, the
  -- cycle being the whole nanoseconds of 1e9 / hz and the duty 0.5 where none above 0 is given: after any number of whole cycles since its
  -- press time, and a rest shorter than a cycle, it is active exactly if the rest is below the whole
  -- nanoseconds of the cycle times the duty; where the cycle has no whole nanosecond, always.
  pub clockwork_lem :
      (cfg : Config Double) (m : Mapper Double) (a q r : ℕ)
      → is_pressed m a ≡ true
      → le (cfg.burst_hz a) (lit 0 0) ≡ false
      → (le (cfg.burst_jitter a) (lit 0 0)
          && (le (cfg.burst_duty_jitter a) (lit 0 0) && le (cfg.burst_skip_prob a) (lit 0 0)))
        ≡ true
      → lt (lit 1 0) (duty_of cfg a) ≡ false
      → (r < pos_part (to_int (div (lit 1000000000 0) (cfg.burst_hz a))))
        ⊎ (ltb_ℤ (pos 0) (to_int (div (lit 1000000000 0) (cfg.burst_hz a))) ≡ false)
      → let cycle = to_int (div (lit 1000000000 0) (cfg.burst_hz a)) in
        is_active fp cfg m a (get_or m.pressed_since_ns a 0 + (q * pos_part cycle + r))
        ≡ (not (ltb_ℤ (pos 0) cycle) || ltb_ℤ (pos r) (to_int (mul (of_int cycle) (duty_of cfg a))))
  unfolding is_active burst_phase nominal
  clockwork_lem cfg m a q r held bursts plain no_more (inr none) = rw (held, bursts, none) refl
  clockwork_lem cfg m a q r held bursts plain no_more (inl rest) =
      let cycle = to_int (div (lit 1000000000 0) (cfg.burst_hz a)) in
      let since = get_or m.pressed_since_ns a 0 in
      let later : since + (q * pos_part cycle + r) - since ≡ q * pos_part cycle + r = omega arith in
      elim (Bool-cases (ltb_ℤ (pos 0) cycle)) [
        | inr none ↦ rw (held, bursts, none) refl
        | inl runs ↦
            rw (held, bursts, runs, plain, no_more, later, mod_cycles q r (pos_part cycle) rest)
              refl
      ]
