-- ===== src/Mapper/Burst.antt =====
-- Burst-on-hold of recipes-apps/kbm-mapper-ff/files/mapper.c: `burst_tick`, `burst_cycle_uniform`,
-- `burst_cycle_normal` and `is_active`.
pub mod Since
pub mod Clockwork
use Prim.Native.Nat.{bit_xor}
use meta_dualsense.Prelude.{
  ℕ, zero, suc, ◌+◌, ◌-◌, ◌*◌, ◌/◌, ◌%◌, ◌^◌, Bool, true, false, not, ◌&&◌, List, [], ◌∷◌, ◌==◌,
  ltb, if◌then◌else◌, get_or,
}
use meta_dualsense.Prelude.Int.{ℤ, pos, pos_part, ltb_ℤ}
use meta_dualsense.Config.{Config}
use meta_dualsense.Mapper.{Mapper, is_pressed}
use meta_dualsense.Mapper.Float.{Float}

-- The body of the loop of `burst_tick`, for an action that is pressed or not.
unfoldable pub tick_since : Bool → ℕ → ℕ → ℕ
tick_since now now_ns since =
    if now && since == 0 then now_ns else if not now && not (since == 0) then 0 else since

-- The loop over the elements from action `a` on.
unfoldable pub ticked : (ℕ → Bool) → ℕ → ℕ → List ℕ → List ℕ
unfolding tick_since
ticked pressed now_ns a [] = []
ticked pressed now_ns a (since ∷ rest) =
    tick_since (pressed a) now_ns since ∷ ticked pressed now_ns (suc a) rest

-- The loop starts at action 1 and leaves element 0.
unfoldable pub tick_all : (ℕ → Bool) → ℕ → List ℕ → List ℕ
tick_all pressed now_ns [] = []
tick_all pressed now_ns (since ∷ rest) = since ∷ ticked pressed now_ns 1 rest

module _ {Double : Type 0} where
  unfoldable pub burst_tick : Mapper Double → ℕ → Mapper Double
  unfolding tick_all
  burst_tick m now_ns = record m {
    pressed_since_ns = tick_all (is_pressed m) now_ns m.pressed_since_ns;
  }

abbrev pub mod64 : ℕ → ℕ
mod64 x = x % 2 ^ 64

-- The mixing steps of `burst_cycle_uniform` and the 53 bits that it uses.
unfoldable pub cycle_bits : ℕ → ℕ → ℕ
cycle_bits cycle_idx salt =
    let x0 = bit_xor (mod64 (cycle_idx * 0x9e3779b97f4a7c15)) salt in
    let x1 = mod64 (bit_xor x0 (x0 / 2 ^ 30) * 0xbf58476d1ce4e5b9) in
    let x2 = mod64 (bit_xor x1 (x1 / 2 ^ 27) * 0x94d049bb133111eb) in
    let x3 = bit_xor x2 (x2 / 2 ^ 31) in x3 / 2 ^ 11 % 2 ^ 53

module _ (fp : Float) where
  open fp use {Double, lit, of_int, neg, mul, div, lt, le, to_int, sqrt, log, exp, cos}

  unfoldable pub burst_cycle_uniform : ℕ → ℕ → Double
  burst_cycle_uniform cycle_idx salt =
      div (of_int (pos (cycle_bits cycle_idx salt))) (of_int (pos (2 ^ 53)))

  unfoldable pub burst_cycle_normal : ℕ → ℕ → Double
  burst_cycle_normal cycle_idx salt =
      let u0 = burst_cycle_uniform cycle_idx salt in
      let u1 = if lt u0 (lit 1 12) then lit 1 12 else u0 in
      let u2 = burst_cycle_uniform cycle_idx (bit_xor salt 0xb7e151628aed2a6b) in
      mul (sqrt (mul (neg (lit 20 1)) (log u1)))
        (cos (mul (mul (lit 20 1) (lit 314159265358979323846 20)) u2))

  -- What the loop over the cycles reads: the tuning of the action, and how long it has been held.
  pub record Cadence : Type 0 where
    pub base_cycle_ns : ℤ
    pub duty : Double
    pub jitter : Double
    pub duty_jitter : Double
    pub skip_prob : Double
    pub salt_iv : ℕ
    pub since : ℕ

  -- `phase < (int64_t)(base_cycle_ns * duty)` for the nominal phase; the cycle is positive.
  unfoldable pub nominal : Cadence → Bool
  nominal c =
      ltb_ℤ (pos (c.since % pos_part c.base_cycle_ns))
        (to_int (mul (of_int c.base_cycle_ns) c.duty))

  -- The length of cycle `ci`, at least 1
  unfoldable pub cycle_length : Cadence → ℕ → ℕ
  cycle_length c ci =
      let drawn = exp (mul c.jitter (burst_cycle_normal ci c.salt_iv)) in
      let low = if lt drawn (lit 25 2) then lit 25 2 else drawn in
      let clamped = if lt (lit 40 1) low then lit 40 1 else low in
      let mult = if lt (lit 0 0) c.jitter then clamped else lit 10 1 in
      let this_cycle = to_int (mul (of_int c.base_cycle_ns) mult) in
      if ltb_ℤ (pos 0) this_cycle then pos_part this_cycle else 1

  -- The outcome in cycle `ci`, which begins at `cum` and holds the present.
  unfoldable pub in_cycle : Cadence → ℕ → ℕ → ℕ → Bool
  in_cycle c ci cum this_cycle =
      let drawn =
        mul c.duty (
          exp (mul c.duty_jitter (burst_cycle_normal ci (bit_xor c.salt_iv 0xa5a5a5a5a5a5a5a5)))) in
      let duty1 = if lt (lit 0 0) c.duty_jitter then drawn else c.duty in
      let duty2 = if lt duty1 (lit 5 2) then lit 5 2 else duty1 in
      let duty3 = if lt (lit 95 2) duty2 then lit 95 2 else duty2 in
      if lt (lit 0 0) c.skip_prob
        && lt (burst_cycle_uniform ci (bit_xor c.salt_iv 0x5a5a5a5a5a5a5a5a)) c.skip_prob
      then false
      else ltb_ℤ (pos (c.since - cum)) (to_int (mul (of_int (pos this_cycle)) duty3))

  -- The loop over the cycles from `ci` on, of which `left` remain.
  unfoldable pub walk : Cadence → ℕ → ℕ → ℕ → Bool
  walk c zero ci cum = nominal c
  walk c (suc left) ci cum =
      let this_cycle = cycle_length c ci in
      let rest = walk c left (suc ci) (cum + this_cycle) in
      if ltb c.since (cum + this_cycle) then in_cycle c ci cum this_cycle else rest

  -- The part of `is_active` behind the test of `burst_hz`.
  unfoldable pub burst_phase : Config Double → Mapper Double → ℕ → ℕ → Bool
  burst_phase cfg m a now_ns =
      let duty0 = cfg.burst_duty a in
      let duty1 = if le duty0 (lit 0 0) then lit 5 1 else duty0 in
      let c : Cadence = record {
        base_cycle_ns = to_int (div (lit 1000000000 0) (cfg.burst_hz a));
        duty = if lt (lit 1 0) duty1 then lit 1 0 else duty1;
        jitter = cfg.burst_jitter a;
        duty_jitter = cfg.burst_duty_jitter a;
        skip_prob = cfg.burst_skip_prob a;
        salt_iv = mod64 (a * 0x100000001b3);
        since = now_ns - get_or m.pressed_since_ns a 0;
      } in
      if not (ltb_ℤ (pos 0) c.base_cycle_ns)
      then true
      else if le c.jitter (lit 0 0) && (le c.duty_jitter (lit 0 0) && le c.skip_prob (lit 0 0))
      then nominal c
      else walk c 4096 0 0

  unfoldable pub is_active : Config Double → Mapper Double → ℕ → ℕ → Bool
  unfolding burst_phase
  is_active cfg m a now_ns =
      if not (is_pressed m a)
      then false
      else if le (cfg.burst_hz a) (lit 0 0)
      then true
      else burst_phase cfg m a now_ns
