-- ===== src/Leds.antt =====
-- The LED daemon (recipes-apps/kbm-leds/files/main.c): the pattern curves, the choice of the pattern
-- by the polling thread, and a tick of the renderer.
pub mod Pwm
pub mod Overlay
pub mod Polling
use meta_dualsense.Prelude.{
  ℕ, zero, suc, ◌+◌, ◌*◌, ◌/◌, ◌%◌, Bool, true, false, not, ◌&&◌, Option, none, some, List, [], ◌∷◌,
  ◌==◌, ltb, leb, if◌then◌else◌,
}
use meta_dualsense.Prelude.Int.{ℤ, pos, ltb_ℤ}
use meta_dualsense.Mapper.Float.{Float}

-- `enum pattern_id`
abbrev pub p_calm_focus : ℕ
p_calm_focus = 0

abbrev pub p_alert_ready : ℕ
p_alert_ready = 1

abbrev pub p_heart_searching : ℕ
p_heart_searching = 2

abbrev pub p_idle_drift : ℕ
p_idle_drift = 3

abbrev pub p_cold_tide : ℕ
p_cold_tide = 4

abbrev pub p_crossfade : ℕ
p_crossfade = 5

abbrev pub pwm_levels : ℕ
pwm_levels = 16

abbrev pub crossfade_ms : ℕ
crossfade_ms = 2000

abbrev pub led_mask : ℕ
led_mask = 0x0F

module _ (fp : Float) where
  open fp use {Double, lit, of_int, add, sub, mul, div, lt, to_int, cos, fmod}

  unfoldable pub bell : Double → Double → Double → Double
  bell t peak width =
      let d = div (sub t peak) width in
      let v = sub (lit 10 1) (mul d d) in if lt v (lit 0 1) then lit 0 1 else mul v v

  abbrev pub pi : Double
  pi = lit 314159265358979323846 20

  unfoldable pub calm_focus : Double → Double
  calm_focus t = mul (lit 5 1) (sub (lit 10 1) (cos (div (mul (mul (lit 20 1) pi) t) (lit 40 1))))

  unfoldable pub alert_ready : Double → Double
  alert_ready t =
      let phase = div (fmod t (lit 12 1)) (lit 12 1) in
      let a = bell phase (lit 6 2) (lit 4 2) in
      let b = bell phase (lit 18 2) (lit 4 2) in if lt b a then a else b

  unfoldable pub heart_searching : Double → Double
  heart_searching t =
      let phase = div (fmod t (lit 8 1)) (lit 8 1) in
      let lub = mul (bell phase (lit 7 2) (lit 5 2)) (lit 55 2) in
      let dub = mul (bell phase (lit 22 2) (lit 7 2)) (lit 100 2) in if lt dub lub then lub else dub

  unfoldable pub idle_drift : Double → Double
  idle_drift t =
      mul (mul (lit 30 2) (lit 5 1))
        (sub (lit 10 1) (cos (div (mul (mul (lit 20 1) pi) t) (lit 70 1))))

  unfoldable pub cold_tide : Double → Double
  cold_tide t =
      let phase = div (fmod t (lit 35 1)) (lit 35 1) in
      if lt phase (lit 30 2)
      then div phase (lit 30 2)
      else sub (lit 10 1) (div (sub phase (lit 30 2)) (lit 70 2))

  unfoldable pub crossfade_curve : Double → Double
  crossfade_curve t =
      let phase = div (fmod t (lit 25 2)) (lit 25 2) in
      if lt phase (lit 5 1) then mul phase (lit 20 1) else mul (sub (lit 10 1) phase) (lit 20 1)

  unfoldable pub sample_pattern : ℕ → Double → Double
  sample_pattern p t =
      if p == p_calm_focus
      then calm_focus t
      else if p == p_alert_ready
      then alert_ready t
      else if p == p_heart_searching
      then heart_searching t
      else if p == p_idle_drift
      then idle_drift t
      else if p == p_cold_tide
      then cold_tide t
      else if p == p_crossfade
      then crossfade_curve t
      else lit 0 1

  -- `(int)(b * PWM_LEVELS + 0.5)` of the brightness, cut to 0 .. 1
  unfoldable pub level_of : Double → ℤ
  level_of b0 =
      let b1 = if lt b0 (lit 0 1) then lit 0 1 else b0 in
      let b = if lt (lit 10 1) b1 then lit 10 1 else b1 in
      to_int (add (mul b (of_int (pos pwm_levels))) (lit 5 1))

-- The lines set in a tick
unfoldable pub line_bits : ℕ → ℤ → ℕ
line_bits tick level = if ltb_ℤ (pos (tick % pwm_levels)) level then led_mask else 0

-- What `select_pattern` returns for what it finds: both services and the host.
unfoldable pub select_pattern : Bool → Bool → Bool → ℕ
select_pattern emu pt host =
    if emu && pt
    then p_cold_tide
    else if not emu && not pt
    then p_idle_drift
    else if not host
    then p_heart_searching
    else if emu
    then p_calm_focus
    else p_alert_ready

-- One poll: the number that the first line of the override file begins with, if there is one, what
-- `select_pattern` finds, and the time at which a change is noted.
pub record Poll : Type 0 where
  pub force : Option ℤ
  pub emu : Bool
  pub pt : Bool
  pub host : Bool
  pub at_ms : ℕ

-- The override, if it names a pattern
unfoldable pub forced : Option ℤ → ℕ → ℕ
forced none selected = selected
forced (some (pos v)) selected = if leb v p_crossfade then v else selected
forced (some v) selected = selected

unfoldable pub next_pattern : Poll → ℕ
next_pattern poll = forced poll.force (select_pattern poll.emu poll.pt poll.host)

-- The two shared atomics and the thread's `last`
pub record Leds : Type 0 where
  pub current_pattern : ℕ
  pub crossfade_until_ms : ℕ
  pub last : ℕ

-- The state when the thread starts, by the initial poll of `main`
unfoldable pub started : ℕ → Leds
started p = record { current_pattern = p; crossfade_until_ms = 0; last = p }

-- A pass of the loop of `state_thread`
unfoldable pub state_step : Leds → Poll → Leds
state_step s poll =
    let np = next_pattern poll in
    record {
      current_pattern = np;
      crossfade_until_ms =
          if not (np == s.last) then poll.at_ms + crossfade_ms else s.crossfade_until_ms;
      last = np;
    }

-- The pattern that a tick of the renderer shows
unfoldable pub shown : Leds → ℕ → ℕ
shown s now_ms = if ltb now_ms s.crossfade_until_ms then p_crossfade else s.current_pattern
