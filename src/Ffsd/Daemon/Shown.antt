-- ===== src/Ffsd/Daemon/Shown.antt =====
-- From the events of the devices to the report handed to the writer thread.
use meta_dualsense.Prelude.{
  ℕ, ◌≡◌, refl, ◌∙◌, ap, Bool, true, false, ◌&&◌, ◌||◌, Option, List, ◌∷◌, [], get_or, leb, suc,
  arith, Bool-cases, inl, inr, take,
}
use meta_dualsense.Prelude.Bits.{has_bit}
use meta_dualsense.Prelude.Text.{Bytes}
use meta_dualsense.Report.{ds_report_len}
use meta_dualsense.Config.{Config}
use meta_dualsense.Config.Parser.{config_load}
use meta_dualsense.Mapper.{Mapper, is_pressed}
use meta_dualsense.Mapper.Float.{Float}
use meta_dualsense.Mapper.Keys.{last_said}
use meta_dualsense.Mapper.Burst.{burst_tick, burst_phase, is_active}
use meta_dualsense.Mapper.BuildReport.{mapper_build_report}
use meta_dualsense.Mapper.BuildReport.Places.{IsButton}
use meta_dualsense.Mapper.BuildReport.Buttons.{report_buttons}
use meta_dualsense.Ffsd.Slots.{InputSlot}
use meta_dualsense.Ffsd.Daemon.{Daemon, Ready, timer, submit, on_timer, step, run, started}
use meta_dualsense.Ffsd.Daemon.Inputs.{heard, reloads, Hears-started, mapper_hears_all}

module _ (fp : Float) (atof : Bytes → fp.Double) (z : fp.Double) where
  open fp use {Double, lit, le}

  is_pressed-burst_tick :
      (m : Mapper Double) (now_ns a : ℕ) → is_pressed (burst_tick m now_ns) a ≡ is_pressed m a
  unfolding burst_tick is_pressed
  is_pressed-burst_tick m now_ns a = refl

  is_active_cases :
      (cfg : Config Double) (m : Mapper Double) (a now_ns : ℕ)
      → is_active fp cfg m a now_ns
        ≡ (is_pressed m a && (le (cfg.burst_hz a) (lit 0 0) || burst_phase fp cfg m a now_ns))
  unfolding is_active
  is_active_cases cfg m a now_ns = ground arith

  -- The report of a tick is the one submitted, and the one kept.
  tick_report :
      (d : Daemon Double) (has_snap : Bool) (now_ns : ℕ)
      → let (d', effects) = step fp atof has_snap d (timer true now_ns) in
        (take 1 effects ≡ submit d'.report ∷ [])
        × (d'.report ≡ (mapper_build_report fp d.cfg d.mapper d.report ds_report_len now_ns).1)
  unfolding step on_timer
  tick_report d has_snap now_ns = elim (Bool-cases (has_snap && leb 10 (suc d.snap_counter))) [
    | inl full ↦ rw full (refl, refl)
    | inr room ↦ rw room (refl, refl)
  ]

  -- While the configuration file is not written: at a tick of the timer, whatever happened before it
  -- and in whatever order, the report handed to the writer thread has the bit of a button set exactly
  -- if the latest event on a key or button bound to its action, over all devices, was a press or an
  -- auto-repeat and the action has no burst rate or is in the high phase of its burst.
  pub reports_show_held :
      (file : Option Bytes) (slots : List InputSlot) (report : List ℕ) (has_snap : Bool)
      (rs : List Ready) (now_ns byte k a : ℕ)
      → reloads rs ≡ false
      → IsButton byte k a
      → let c = (config_load fp atof file).0 in
        let d = (run fp atof has_snap (started fp atof file slots z report) rs).0 in
        let (d', effects) = step fp atof has_snap d (timer true now_ns) in
        (take 1 effects ≡ submit d'.report ∷ [])
        × (has_bit (get_or d'.report byte 0) k ≡ (
            last_said c a false (heard rs)
            && (le (c.burst_hz a) (lit 0 0)
                || burst_phase fp c (burst_tick d.mapper now_ns) a now_ns)))
  reports_show_held file slots report has_snap rs now_ns byte k a still b =
      let c = (config_load fp atof file).0 in
      let d = (run fp atof has_snap (started fp atof file slots z report) rs).0 in
      let m = burst_tick d.mapper now_ns in
      let (sent, kept) = tick_report d has_snap now_ns in
      let held : is_pressed m a ≡ last_said c a false (heard rs) =
        is_pressed-burst_tick d.mapper now_ns a
        ∙ (mapper_hears_all fp atof z file slots report has_snap rs still).0 a in
      let same : d.cfg ≡ c = (Hears-started fp atof z file slots report has_snap rs still).config in
      (
        sent,
        ap (λ r. has_bit (get_or r byte 0) k) kept
            ∙ report_buttons fp d.cfg d.mapper d.report ds_report_len now_ns byte k a (omega arith)
                b
            ∙ is_active_cases d.cfg m a now_ns
            ∙ ap (λ p. p && (le (d.cfg.burst_hz a) (lit 0 0) || burst_phase fp d.cfg m a now_ns))
                held
            ∙ ap
                (λ (g : Config Double).
                  last_said c a false (heard rs)
                  && (le (g.burst_hz a) (lit 0 0) || burst_phase fp g m a now_ns))
                same,
      )
