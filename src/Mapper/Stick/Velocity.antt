-- ===== src/Mapper/Stick/Velocity.antt =====
-- What the velocity window of the right stick adds up.
use meta_dualsense.Prelude.{
  ℕ, zero, suc, ◌+◌, ◌-◌, ◌%◌, ◌<◌, ◌≤◌, ◌≡◌, refl, Bool-cases, inl, inr, List, [], ◌∷◌,
  if◌then◌else◌, get_or, take, arith,
}
use meta_dualsense.Prelude.Int.{ℤ, pos, ltb_ℤ, ◌-ℤ◌}
use meta_dualsense.Input.{InputEvent}
use meta_dualsense.Config.{Config}
use meta_dualsense.Mapper.{MouseSample, Mapper, mapper_init, no_sample}
use meta_dualsense.Mapper.Float.{Float}
use meta_dualsense.Mapper.Samples.{recent}
use meta_dualsense.Mapper.Frames.{frames, no_frames}
use meta_dualsense.Mapper.History.{samples, run, run_records, run-IsValid}
use meta_dualsense.Mapper.Stick.{Window, counted, scan, window_sum}

-- The samples before the first that is older than the cutoff, from the latest on.
unfoldable pub within : ℤ → List MouseSample → List MouseSample
within cutoff [] = []
within cutoff (s ∷ rest) = if ltb_ℤ s.t_ns cutoff then [] else s ∷ within cutoff rest

-- The time of the last of the samples, the one given if there is none.
unfoldable pub last_time : ℤ → List MouseSample → ℤ
last_time t [] = t
last_time t (s ∷ rest) = last_time s.t_ns rest

module _ (fp : Float) where
  open fp use {Double, lit, of_int, add, mul, div, lt, to_int}

  -- A number of each sample, added to the one given from the latest sample on.
  unfoldable pub sum : (MouseSample → ℤ) → Double → List MouseSample → Double
  sum part x [] = x
  sum part x (s ∷ rest) = sum part (add x (of_int (part s))) rest

  unfoldable total : Window fp → List MouseSample → Window fp
  total w [] = w
  total w (s ∷ rest) = total (counted fp w s) rest

  total-sum :
      (w : Window fp) (samples : List MouseSample)
      → total w samples ≡ (record {
        dx = sum (λ s. s.dx) w.dx samples;
        dy = sum (λ s. s.dy) w.dy samples;
        oldest = last_time w.oldest samples;
      })
  unfolding total counted sum last_time
  total-sum w [] = refl
  total-sum w (s ∷ rest) = total-sum (counted fp w s) rest

  scan-recent :
      (m : Mapper Double) (cutoff : ℤ) (left i : ℕ) (w : Window fp)
      → m.ring_head < 256
      → i + left ≤ 256
      → scan fp m cutoff left i w
        ≡ total w (within cutoff (recent m.ring ((m.ring_head + 256 - i) % 256) left))
  unfolding scan total within recent
  scan-recent m cutoff zero i w h l = refl
  scan-recent m cutoff (suc left) i w h l =
      let idx : ((m.ring_head + 256 - i) % 256 + 255) % 256 ≡ (m.ring_head + 256 - 1 - i) % 256 =
        omega arith in
      let next : (m.ring_head + 256 - suc i) % 256 ≡ (m.ring_head + 256 - 1 - i) % 256 =
        omega arith in
      let s = get_or m.ring ((m.ring_head + 256 - 1 - i) % 256) no_sample in
      let rest : scan fp m cutoff left (suc i) (counted fp w s)
          ≡ total (counted fp w s)
              (within cutoff (recent m.ring ((m.ring_head + 256 - 1 - i) % 256) left)) =
        rw next at (scan-recent m cutoff left (suc i) (counted fp w s) h (omega arith)) in
      elim (Bool-cases (ltb_ℤ s.t_ns cutoff)) [
        | inl old ↦ rw (idx, old) refl
        | inr new ↦ rw (idx, new) rest
      ]

  -- For any events from the initial state: the window's two sums are those of the horizontal and the
  -- vertical motion, each added from the latest frame on, of the latest at most 256
  -- frames of motion, from the latest back to the first that is older than the window; the time
  -- span reaches back to the oldest frame counted, and is the window's length if it is below 1 ms.
  pub window_sum-frames :
      (cfg : Config Double) (z : Double) (events : List InputEvent) (now_ns : ℕ)
      → let cutoff = pos now_ns -ℤ to_int (mul cfg.window_ms (lit 1000000 0)) in
        let counted = within cutoff (take 256 (frames no_frames events).all) in
        let span_ns = pos now_ns -ℤ last_time (pos now_ns) counted in
        let dt_ms = div (of_int span_ns) (lit 1000000 0) in
        window_sum fp cfg (run cfg (mapper_init z) events) now_ns ≡ (
          sum (λ s. s.dx) (lit 0 0) counted,
          sum (λ s. s.dy) (lit 0 0) counted,
          if lt dt_ms (lit 10 1) then cfg.window_ms else dt_ms,
        )
  unfolding window_sum
  window_sum-frames cfg z events now_ns =
      let m = run cfg (mapper_init z) events in
      let cutoff = pos now_ns -ℤ to_int (mul cfg.window_ms (lit 1000000 0)) in
      let start : Window fp = record { dx = lit 0 0; dy = lit 0 0; oldest = pos now_ns } in
      let valid = run-IsValid cfg z events in
      let head : (m.ring_head + 256 - 0) % 256 ≡ m.ring_head = omega (arith, valid.head) in
      let scanned : scan fp m cutoff m.ring_count 0 start
          ≡ total start (within cutoff (samples m)) =
        rw head at
          (scan-recent m cutoff m.ring_count 0 start valid.head (omega (arith, valid.count))) in
      rw (scanned, (run_records cfg z events).0, total-sum) refl
