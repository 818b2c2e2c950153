-- ===== src/Tests/Lights.antt =====
-- kbm-leds at concrete polls and ticks.
use meta_dualsense.Prelude.{
  ◌≡◌, refl, true, false, not, ◌&&◌, ◌||◌, Option, some, ◌++◌, min, none, List, [], ◌∷◌, ◌==◌,
  if◌then◌else◌,
}
use meta_dualsense.Prelude.Int.{pos, pos_part}
use meta_dualsense.Leds.{
  Poll, p_idle_drift, p_cold_tide, p_heart_searching, p_crossfade, pwm_levels, next_pattern, shown,
}
use meta_dualsense.Leds.Pwm.{lit_ticks, lit_ticks_period}
use meta_dualsense.Prelude.Text.{Bytes, codes, same_text}
use meta_dualsense.Leds.Polling.{poll, unconfigured, pattern_reasons}
use meta_dualsense.Leds.Overlay.{run, wanted, changed_at, recent, shown_overlay}

-- The emulation starts, with a host.
abbrev connected : List Poll
connected = record { force = none; emu = true; pt = false; host = true; at_ms = 5000 } ∷ []

shown_overlay_example : shown (run p_idle_drift connected) 6000 ≡ (
    if recent (changed_at p_idle_drift connected) 6000
    then p_crossfade
    else wanted p_idle_drift connected)
shown_overlay_example = shown_overlay p_idle_drift connected 6000

lit_ticks_period_example : lit_ticks pwm_levels 37 (pos 5) ≡ min (pos_part (pos 5)) pwm_levels
lit_ticks_period_example = lit_ticks_period 37 (pos 5)

-- One controller, which a host has configured, while no override is there.
abbrev host_present : Bytes → Option Bytes
host_present path =
    if same_text path (codes "/sys/class/udc/fe980000.usb/state")
    then some (codes "configured" ++ 10 ∷ [])
    else none

abbrev controllers : Option (List Bytes)
controllers = some (codes "." ∷ codes ".." ∷ codes "fe980000.usb" ∷ [])

pattern_reasons_example :
    let p = next_pattern (poll host_present (λ line. some (pos 4)) controllers true false 7) in
    ((p == p_cold_tide) ≡ (true && false))
    × ((p == p_heart_searching)
        ≡ ((true || false) && not (true && false) && unconfigured host_present controllers))
unfolding same_text
pattern_reasons_example =
    pattern_reasons host_present (λ line. some (pos 4)) controllers true false 7 refl
