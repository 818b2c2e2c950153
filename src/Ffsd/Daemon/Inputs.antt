-- ===== src/Ffsd/Daemon/Inputs.antt =====
-- What the daemon's mapper has seen: the events of all devices, in the order in which they are read.
use meta_dualsense.Prelude.{
  ℕ, suc, ◌≡◌, refl, sym, ◌∙◌, ap, Bool, true, false, ◌&&◌, ◌||◌, Option, none, some, List, [], ◌∷◌,
  ◌++◌, arith, Bool-cases, inl, inr, leb, take,
}
use meta_dualsense.Prelude.Text.{Bytes, codes, same_text, behind_prefix}
use meta_dualsense.Input.{InputEvent}
use meta_dualsense.Report.{ds_report_len}
use meta_dualsense.Config.{Config}
use meta_dualsense.Config.Parser.{config_load}
use meta_dualsense.Mapper.{Mapper, mapper_init, mapper_handle_event, is_pressed}
use meta_dualsense.Mapper.Core.{
  core, core-handle_event, core-build_report, is_pressed-core, samples-core, core-init,
}
use meta_dualsense.Mapper.Pressed.{is_pressed-mapper_init}
use meta_dualsense.Mapper.Float.{Float}
use meta_dualsense.Mapper.Frames.{frames, no_frames}
use meta_dualsense.Mapper.History
use meta_dualsense.Mapper.History.{samples, run_records}
use meta_dualsense.Mapper.Keys.{last_said, is_pressed-run}
use meta_dualsense.Ffsd.Slots.{InputSlot}
use meta_dualsense.Ffsd.Daemon.{
  Daemon, Arrival, Notice, Ready, timer, control, host_report, notify, connect, input, on_timer,
  on_device, on_notice, on_notices, on_event, drain, test_chord, drop_device, on_input, on_connect,
  step, run, started,
}

abbrev pub events_of : List Arrival → List InputEvent
events_of [] = []
events_of (a ∷ as_) = a.event ∷ events_of as_

-- The events of all devices in the order in which they are read.
unfoldable pub heard : List Ready → List InputEvent
heard [] = []
heard (input fd is_mouse as_ now_ns gone ∷ rs) = events_of as_ ++ heard rs
heard (timer read now_ns ∷ rs) = heard rs
heard (control es ∷ rs) = heard rs
heard (host_report ∷ rs) = heard rs
heard (notify ns ∷ rs) = heard rs
heard (connect fd ∷ rs) = heard rs

abbrev pub is_config : Option Bytes → Bytes → Bool
is_config none name = same_text name (codes "kbm-mapper.conf")
is_config (some rest) name = false

abbrev pub any_config : List Notice → Bool
any_config [] = false
any_config (n ∷ ns) = is_config (behind_prefix (codes "event") n.name) n.name || any_config ns

-- Whether the configuration file was written meanwhile.
unfoldable pub reloads : List Ready → Bool
reloads [] = false
reloads (notify ns ∷ rs) = any_config ns || reloads rs
reloads (timer read now_ns ∷ rs) = reloads rs
reloads (control es ∷ rs) = reloads rs
reloads (host_report ∷ rs) = reloads rs
reloads (connect fd ∷ rs) = reloads rs
reloads (input fd is_mouse as_ now_ns gone ∷ rs) = reloads rs

run-append :
    {Double : Type 0} (cfg : Config Double) (m : Mapper Double) (a b : List InputEvent)
    → History.run cfg m (a ++ b) ≡ History.run cfg (History.run cfg m a) b
unfolding History.run
run-append cfg m [] b = refl
run-append cfg m (e ∷ a) b = run-append cfg (mapper_handle_event cfg m e) a b

module _ (fp : Float) (atof : Bytes → fp.Double) (z : fp.Double) where
  open fp use {Double}

  -- The configuration, and the mapper's state but for what only the reports change.
  pub record Hears (d : Daemon Double) (c : Config Double) (m : Mapper Double) : Type 0 where
    pub config : d.cfg ≡ c
    pub same : core z d.mapper ≡ m

  Hears-timer :
      (d : Daemon Double) (c : Config Double) (m : Mapper Double) (has_snap : Bool) (now_ns : ℕ)
      → Hears d c m
      → Hears (on_timer fp atof has_snap d now_ns).0 c m
  unfolding on_timer
  Hears-timer d c m has_snap now_ns h =
      let same = core-build_report fp d.cfg z d.mapper d.report ds_report_len now_ns ∙ h.same in
      elim (Bool-cases (has_snap && leb 10 (suc d.snap_counter))) [
        | inl full ↦ rw full (record { config = h.config; same = same })
        | inr room ↦ rw room (record { config = h.config; same = same })
      ]

  Hears-notice :
      (d : Daemon Double) (c : Config Double) (m : Mapper Double) (n : Notice) (o : Option Bytes)
      → is_config o n.name ≡ false
      → Hears d c m
      → Hears (on_notice fp atof d n o).0 c m
  unfolding on_notice on_device
  Hears-notice d c m n none other h = rw other h
  Hears-notice d c m n (some rest) other h = record { config = h.config; same = h.same }

  Hears-notices :
      (d : Daemon Double) (c : Config Double) (m : Mapper Double) (ns : List Notice)
      → any_config ns ≡ false
      → Hears d c m
      → Hears (on_notices fp atof d ns).0 c m
  unfolding on_notices
  Hears-notices d c m [] none_written h = h
  Hears-notices d c m (n ∷ ns) none_written h =
      let o = behind_prefix (codes "event") n.name in
      Hears-notices (on_notice fp atof d n o).0 c m ns (ground (arith, none_written))
        (Hears-notice d c m n o (ground (arith, none_written)) h)

  Hears-drain :
      (d : Daemon Double) (c : Config Double) (m : Mapper Double) (is_mouse : Bool)
      (as_ : List Arrival)
      → Hears d c m
      → Hears (drain fp atof d is_mouse as_).0 c (History.run c m (events_of as_))
  unfolding drain on_event History.run
  Hears-drain d c m is_mouse [] h = h
  Hears-drain d c m is_mouse (a ∷ as_) h =
      Hears-drain (on_event fp atof d is_mouse a).0 c (mapper_handle_event c m a.event) is_mouse as_
        (record {
          config = h.config;
          same =
              core-handle_event z d.cfg d.mapper a.event
              ∙ ap (λ k. mapper_handle_event d.cfg k a.event) h.same
              ∙ ap (λ (k : Config Double). mapper_handle_event k m a.event) h.config;
        })

  Hears-drop :
      (d : Daemon Double) (c : Config Double) (m : Mapper Double) (fd : ℕ) (gone : Bool)
      → Hears d c m
      → Hears (drop_device fp atof d fd gone).0 c m
  unfolding drop_device
  Hears-drop d c m fd true h = record { config = h.config; same = h.same }
  Hears-drop d c m fd false h = h

  Hears-input :
      (d : Daemon Double) (c : Config Double) (m : Mapper Double) (fd : ℕ) (is_mouse : Bool)
      (as_ : List Arrival) (now_ns : ℕ) (gone : Bool)
      → Hears d c m
      → Hears (on_input fp atof d fd is_mouse as_ now_ns gone).0 c (History.run c m (events_of as_))
  unfolding on_input test_chord
  Hears-input d c m fd is_mouse as_ now_ns gone h =
      let g = Hears-drain d c m is_mouse as_ h in
      Hears-drop (test_chord fp atof (drain fp atof d is_mouse as_).0 now_ns).0 c _ fd gone
        (record { config = g.config; same = g.same })

  pub Hears-run :
      (d : Daemon Double) (c : Config Double) (m : Mapper Double) (has_snap : Bool)
      (rs : List Ready)
      → reloads rs ≡ false
      → Hears d c m
      → Hears (run fp atof has_snap d rs).0 c (History.run c m (heard rs))
  unfolding run step reloads heard
  Hears-run d c m has_snap [] still h = unfold History.run in h
  Hears-run d c m has_snap (timer true now_ns ∷ rs) still h =
      Hears-run (on_timer fp atof has_snap d now_ns).0 c m has_snap rs still
        (Hears-timer d c m has_snap now_ns h)
  Hears-run d c m has_snap (timer false now_ns ∷ rs) still h = Hears-run d c m has_snap rs still h
  Hears-run d c m has_snap (control es ∷ rs) still h = Hears-run d c m has_snap rs still h
  Hears-run d c m has_snap (host_report ∷ rs) still h = Hears-run d c m has_snap rs still h
  Hears-run d c m has_snap (notify ns ∷ rs) still h =
      Hears-run (on_notices fp atof d ns).0 c m has_snap rs (ground (arith, still))
        (Hears-notices d c m ns (ground (arith, still)) h)
  Hears-run d c m has_snap (connect fd ∷ rs) still h =
      Hears-run (on_connect fp atof d fd).0 c m has_snap rs still
        (unfold on_connect in record { config = h.config; same = h.same })
  Hears-run d c m has_snap (input fd is_mouse as_ now_ns gone ∷ rs) still h =
      rw (run-append c m (events_of as_) (heard rs)) (
        Hears-run (on_input fp atof d fd is_mouse as_ now_ns gone).0 c
          (History.run c m (events_of as_)) has_snap rs still
          (Hears-input d c m fd is_mouse as_ now_ns gone h))

  pub Hears-started :
      (file : Option Bytes) (slots : List InputSlot) (report : List ℕ) (has_snap : Bool)
      (rs : List Ready)
      → reloads rs ≡ false
      → let c = (config_load fp atof file).0 in
        Hears
          (run fp atof has_snap (started fp atof file slots z report) rs).0
          c
          (History.run c (mapper_init z) (heard rs))
  unfolding started
  Hears-started file slots report has_snap rs still =
      Hears-run (started fp atof file slots z report) (config_load fp atof file).0 (mapper_init z)
        has_snap rs still (record { config = refl; same = core-init z })

  -- While the configuration file is not written, whatever else the descriptors report and in whatever
  -- order: an action is pressed exactly if the latest event on a key or button bound to it was a
  -- press or an auto-repeat, and the motion samples are the last 256 frames of motion, over the
  -- events of all devices in the order in which they are read.
  pub mapper_hears_all :
      (file : Option Bytes) (slots : List InputSlot) (report : List ℕ) (has_snap : Bool)
      (rs : List Ready)
      → reloads rs ≡ false
      → let d = (run fp atof has_snap (started fp atof file slots z report) rs).0 in
        ((a : ℕ)
          → is_pressed d.mapper a ≡ last_said (config_load fp atof file).0 a false (heard rs))
        × (samples d.mapper ≡ take 256 (frames no_frames (heard rs)).all)
  mapper_hears_all file slots report has_snap rs still =
      let c = (config_load fp atof file).0 in
      let d = (run fp atof has_snap (started fp atof file slots z report) rs).0 in
      let h = Hears-started file slots report has_snap rs still in
      (
        λ a.
            sym (is_pressed-core z d.mapper a)
            ∙ ap (λ m. is_pressed m a) h.same
            ∙ is_pressed-run c (mapper_init z) (heard rs) a
            ∙ ap (λ b. last_said c a b (heard rs)) (is_pressed-mapper_init z a),
        sym (samples-core z d.mapper) ∙ ap samples h.same ∙ (run_records c z (heard rs)).0,
      )
