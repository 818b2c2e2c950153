-- ===== src/Ffsd/Daemon/Follow.antt =====
-- The chord's state of the running daemon is that of the history since the last reload.
use meta_dualsense.Prelude.{
  ℕ, suc, ◌≡◌, refl, ap, Bool, true, false, ◌&&◌, Option, none, some, List, [], ◌∷◌, if◌then◌else◌,
  leb, Bool-cases, inl, inr,
}
use meta_dualsense.Prelude.Text.{Bytes, codes, same_text, behind_prefix}
use meta_dualsense.Config.Validity
use meta_dualsense.Config.Validity.Load.{config_load-IsValid}
use meta_dualsense.Mapper.Float.{Float}
use meta_dualsense.Chord.{ChordOp, event, check, chord_step, chord_run}
use meta_dualsense.Ffsd.Slots.{InputSlot}
use meta_dualsense.Ffsd.Daemon.{
  Daemon, Arrival, Notice, Ready, timer, control, host_report, notify, connect, input, on_timer,
  on_device, reload, on_notice, on_notices, on_event, drain, test_chord, drop_device, on_input,
  on_connect, step, run, started,
}

-- The events read in one drain, behind the operations before; the latest stands first.
unfoldable pub read_ops : List Arrival → List ChordOp → List ChordOp
read_ops [] ops = ops
read_ops (a ∷ as_) ops = read_ops as_ (event a.event a.now_ns ∷ ops)

-- A reload of the configuration starts the chord's history anew.
unfoldable pub ops_after_notice : List ChordOp → Notice → Option Bytes → List ChordOp
ops_after_notice ops n (some rest) = ops
ops_after_notice ops n none = if same_text n.name (codes "kbm-mapper.conf") then [] else ops

unfoldable pub ops_after_notices : List ChordOp → List Notice → List ChordOp
ops_after_notices ops [] = ops
ops_after_notices ops (n ∷ ns) =
    ops_after_notices (ops_after_notice ops n (behind_prefix (codes "event") n.name)) ns

unfoldable pub ops_after : List ChordOp → Ready → List ChordOp
ops_after ops (timer read now_ns) = ops
ops_after ops (control events) = ops
ops_after ops host_report = ops
ops_after ops (notify ns) = ops_after_notices ops ns
ops_after ops (connect fd) = ops
ops_after ops (input fd is_mouse as_ now_ns gone) = check now_ns ∷ read_ops as_ ops

-- What happened to the chord since the last reload.
unfoldable pub history : List ChordOp → List Ready → List ChordOp
history ops [] = ops
history ops (r ∷ rs) = history (ops_after ops r) rs

module _ (fp : Float) (atof : Bytes → fp.Double) where
  open fp use {Double}

  -- The configuration is valid, and the chord's state is that of the history.
  pub record Follows (d : Daemon Double) (ops : List ChordOp) : Type 0 where
    pub valid : Validity.IsValid d.cfg
    pub chord : d.hotkey ≡ chord_run d.cfg.hotkey_codes d.cfg.hotkey_n ops

  Follows-notice :
      (d : Daemon Double) (ops : List ChordOp) (n : Notice) (o : Option Bytes)
      → Follows d ops
      → Follows (on_notice fp atof d n o).0 (ops_after_notice ops n o)
  unfolding on_notice on_device reload ops_after_notice chord_run
  Follows-notice d ops n (some rest) f = record { valid = f.valid; chord = f.chord }
  Follows-notice d ops n none f = elim (Bool-cases (same_text n.name (codes "kbm-mapper.conf"))) [
    | inl config ↦ rw config (record { valid = config_load-IsValid fp atof n.file; chord = refl })
    | inr other ↦ rw other f
  ]

  Follows-notices :
      (d : Daemon Double) (ops : List ChordOp) (ns : List Notice)
      → Follows d ops
      → Follows (on_notices fp atof d ns).0 (ops_after_notices ops ns)
  unfolding on_notices ops_after_notices
  Follows-notices d ops [] f = f
  Follows-notices d ops (n ∷ ns) f =
      let o = behind_prefix (codes "event") n.name in
      Follows-notices (on_notice fp atof d n o).0 (ops_after_notice ops n o) ns
        (Follows-notice d ops n o f)

  Follows-event :
      (d : Daemon Double) (ops : List ChordOp) (is_mouse : Bool) (a : Arrival)
      → Follows d ops
      → Follows (on_event fp atof d is_mouse a).0 (event a.event a.now_ns ∷ ops)
  unfolding on_event chord_run chord_step
  Follows-event d ops is_mouse a f = record {
    valid = f.valid;
    chord =
        ap (λ s. chord_step d.cfg.hotkey_codes d.cfg.hotkey_n s (event a.event a.now_ns)) f.chord;
  }

  pub Follows-drain :
      (d : Daemon Double) (ops : List ChordOp) (is_mouse : Bool) (as_ : List Arrival)
      → Follows d ops
      → Follows (drain fp atof d is_mouse as_).0 (read_ops as_ ops)
  unfolding drain read_ops
  Follows-drain d ops is_mouse [] f = f
  Follows-drain d ops is_mouse (a ∷ as_) f =
      Follows-drain (on_event fp atof d is_mouse a).0 (event a.event a.now_ns ∷ ops) is_mouse as_
        (Follows-event d ops is_mouse a f)

  Follows-test :
      (d : Daemon Double) (ops : List ChordOp) (now_ns : ℕ)
      → Follows d ops
      → Follows (test_chord fp atof d now_ns).0 (check now_ns ∷ ops)
  unfolding test_chord chord_run chord_step
  Follows-test d ops now_ns f = record {
    valid = f.valid;
    chord = ap (λ s. chord_step d.cfg.hotkey_codes d.cfg.hotkey_n s (check now_ns)) f.chord;
  }

  Follows-drop :
      (d : Daemon Double) (ops : List ChordOp) (fd : ℕ) (gone : Bool)
      → Follows d ops
      → Follows (drop_device fp atof d fd gone).0 ops
  unfolding drop_device
  Follows-drop d ops fd true f = record { valid = f.valid; chord = f.chord }
  Follows-drop d ops fd false f = f

  Follows-timer :
      (d : Daemon Double) (ops : List ChordOp) (has_snap : Bool) (now_ns : ℕ)
      → Follows d ops
      → Follows (on_timer fp atof has_snap d now_ns).0 ops
  unfolding on_timer
  Follows-timer d ops has_snap now_ns f =
      elim (Bool-cases (has_snap && leb 10 (suc d.snap_counter))) [
        | inl full ↦ rw full (record { valid = f.valid; chord = f.chord })
        | inr room ↦ rw room (record { valid = f.valid; chord = f.chord })
      ]

  Follows-step :
      (d : Daemon Double) (ops : List ChordOp) (has_snap : Bool) (r : Ready)
      → Follows d ops
      → Follows (step fp atof has_snap d r).0 (ops_after ops r)
  unfolding step ops_after
  Follows-step d ops has_snap (timer true now_ns) f = Follows-timer d ops has_snap now_ns f
  Follows-step d ops has_snap (timer false now_ns) f = f
  Follows-step d ops has_snap (control events) f = f
  Follows-step d ops has_snap host_report f = f
  Follows-step d ops has_snap (notify ns) f = Follows-notices d ops ns f
  Follows-step d ops has_snap (connect fd) f =
      unfold on_connect in record { valid = f.valid; chord = f.chord }
  Follows-step d ops has_snap (input fd is_mouse as_ now_ns gone) f =
      let drained = drain fp atof d is_mouse as_ in
      let tested = test_chord fp atof drained.0 now_ns in
      unfold on_input in
      Follows-drop tested.0 (check now_ns ∷ read_ops as_ ops) fd gone
        (Follows-test drained.0 (read_ops as_ ops) now_ns (Follows-drain d ops is_mouse as_ f))

  pub Follows-run :
      (d : Daemon Double) (ops : List ChordOp) (has_snap : Bool) (rs : List Ready)
      → Follows d ops
      → Follows (run fp atof has_snap d rs).0 (history ops rs)
  unfolding run history
  Follows-run d ops has_snap [] f = f
  Follows-run d ops has_snap (r ∷ rs) f =
      Follows-run (step fp atof has_snap d r).0 (ops_after ops r) has_snap rs
        (Follows-step d ops has_snap r f)

  pub Follows-started :
      (file : Option Bytes) (slots : List InputSlot) (zero : Double) (report : List ℕ)
      → Follows (started fp atof file slots zero report) []
  unfolding started chord_run
  Follows-started file slots zero report = record {
    valid = config_load-IsValid fp atof file;
    chord = refl;
  }
