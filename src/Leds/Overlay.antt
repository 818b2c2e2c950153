-- ===== src/Leds/Overlay.antt =====
-- When the renderer shows the acknowledgement in place of the pattern.
use meta_dualsense.Prelude.{
  ℕ, ◌+◌, ◌≡◌, refl, Bool, true, false, not, ◌&&◌, Option, none, some, List, [], ◌∷◌, ◌==◌, ltb,
  if◌then◌else◌, arith,
}
use meta_dualsense.Leds.{
  Poll, Leds, started, next_pattern, state_step, shown, select_pattern, p_cold_tide, p_crossfade,
  crossfade_ms,
}

-- The state after polls, whose latest stands first.
unfoldable pub run : ℕ → List Poll → Leds
run p [] = started p
run p (poll ∷ polls) = state_step (run p polls) poll

-- The pattern that the polls ask for
unfoldable pub wanted : ℕ → List Poll → ℕ
wanted p [] = p
wanted p (poll ∷ polls) = next_pattern poll

-- The time of the latest poll that asked for another pattern than the one before it.
unfoldable pub changed_at : ℕ → List Poll → Option ℕ
changed_at p [] = none
changed_at p (poll ∷ polls) =
    let before = changed_at p polls in
    if next_pattern poll == wanted p polls then before else some poll.at_ms

abbrev pub recent : Option ℕ → ℕ → Bool
recent none now_ms = false
recent (some t) now_ms = ltb now_ms (t + crossfade_ms)

until : Option ℕ → ℕ
until none = 0
until (some t) = t + crossfade_ms

record Tracks (p : ℕ) (polls : List Poll) (s : Leds) : Type 0 where
  current : s.current_pattern ≡ wanted p polls
  last : s.last ≡ wanted p polls
  ends : s.crossfade_until_ms ≡ until (changed_at p polls)

ends_if :
    (same : Bool) (at_ms : ℕ) (before : Option ℕ)
    → (if not same then at_ms + crossfade_ms else until before)
      ≡ until (if same then before else some at_ms)
unfolding until
ends_if true at_ms before = refl
ends_if false at_ms before = refl

run-Tracks : (p : ℕ) (polls : List Poll) → Tracks p polls (run p polls)
unfolding run wanted changed_at started state_step until
run-Tracks p [] = record { current = refl; last = refl; ends = refl }
run-Tracks p (poll ∷ polls) =
    let r = run-Tracks p polls in
    record {
      current = refl;
      last = refl;
      ends =
          rw (r.last, r.ends)
            (ends_if (next_pattern poll == wanted p polls) poll.at_ms (changed_at p polls));
    }

recent_lem : (o : Option ℕ) (now_ms : ℕ) → ltb now_ms (until o) ≡ recent o now_ms
unfolding until
recent_lem none now_ms = ground arith
recent_lem (some t) now_ms = refl

-- After any polls, the renderer shows the crossfade exactly for the two seconds behind the latest
-- poll that changed the pattern, and else the pattern that the latest poll asked for.
pub shown_overlay :
    (p : ℕ) (polls : List Poll) (now_ms : ℕ)
    → shown (run p polls) now_ms
      ≡ (if recent (changed_at p polls) now_ms then p_crossfade else wanted p polls)
unfolding shown
shown_overlay p polls now_ms =
    let r = run-Tracks p polls in
    rw (r.ends, r.current, recent_lem (changed_at p polls) now_ms) refl

-- Without an override, the error pattern is asked for exactly if both services are active: neither
-- a missing host nor the time that it has been missing leads to it.
pub cold_tide_iff : (emu pt host : Bool) → (select_pattern emu pt host == p_cold_tide) ≡ (emu && pt)
unfolding select_pattern
cold_tide_iff true true host = refl
cold_tide_iff true false true = refl
cold_tide_iff true false false = refl
cold_tide_iff false true true = refl
cold_tide_iff false true false = refl
cold_tide_iff false false host = refl
