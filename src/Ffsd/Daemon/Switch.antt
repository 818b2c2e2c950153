-- ===== src/Ffsd/Daemon/Switch.antt =====
-- When the daemon switches to the other mode, in terms of what its devices sent.
use meta_dualsense.Prelude.{
  ℕ, ◌≡◌, refl, ◌∙◌, ap, Bool, true, false, not, ◌&&◌, ◌||◌, Option, List, [], ◌∷◌, ◌++◌, arith,
  Bool-cases, inl, inr,
}
use meta_dualsense.Prelude.Text.{Bytes}
use meta_dualsense.Input.{InputEvent}
use meta_dualsense.Config.{Config}
use meta_dualsense.Mapper.Float.{Float}
use meta_dualsense.Chord.{hotkey_should_fire, ChordOp, chord_run}
use meta_dualsense.Chord.History.{complete_since, second_ago, has_fired, AreDistinct}
use meta_dualsense.Chord.Fires.{AreTimed, hotkey_should_fire_iff}
use meta_dualsense.Ffsd.Capture.{capture_publish}
use meta_dualsense.Ffsd.Slots.{InputSlot}
use meta_dualsense.Ffsd.Daemon.{
  Daemon, Effect, submit, snapshot, answer, descriptor, publish, release, switch_to_passthrough,
  Arrival, Ready, input, closes, lines, on_event, drain, test_chord, drop_device, on_input, step,
  run, started,
}
use meta_dualsense.Ffsd.Daemon.Follow.{
  read_ops, history, Follows, Follows-drain, Follows-run, Follows-started,
}

unfoldable pub switches : List Effect → Bool
switches [] = false
switches (switch_to_passthrough ∷ es) = true
switches (e ∷ es) = switches es

switches-append : (a b : List Effect) → switches (a ++ b) ≡ (switches a || switches b)
unfolding switches
switches-append [] b = refl
switches-append (submit r ∷ a) b = switches-append a b
switches-append (snapshot r ∷ a) b = switches-append a b
switches-append (answer r ∷ a) b = switches-append a b
switches-append (descriptor e ∷ a) b = switches-append a b
switches-append (publish to line ∷ a) b = switches-append a b
switches-append (release fd ∷ a) b = switches-append a b
switches-append (switch_to_passthrough ∷ a) b = refl

switches-closes : (fds : List ℕ) → switches (closes fds) ≡ false
unfolding switches
switches-closes [] = refl
switches-closes (fd ∷ fds) = switches-closes fds

switches-lines :
    (e : InputEvent) (is_mouse : Bool) (to closed : List ℕ)
    → switches (lines e is_mouse to closed) ≡ false
unfolding switches lines
switches-lines e is_mouse [] closed = switches-closes closed
switches-lines e is_mouse (c ∷ to) closed = switches-closes closed

module _ (fp : Float) (atof : Bytes → fp.Double) where
  open fp use {Double}

  switches-drain :
      (d : Daemon Double) (is_mouse : Bool) (as_ : List Arrival)
      → switches (drain fp atof d is_mouse as_).1 ≡ false
  unfolding drain on_event switches
  switches-drain d is_mouse [] = refl
  switches-drain d is_mouse (a ∷ as_) =
      let first = on_event fp atof d is_mouse a in
      ground (
        arith,
        switches-append first.1 (drain fp atof first.0 is_mouse as_).1,
        switches-lines a.event is_mouse (capture_publish a.alive d.clients a.event).1
            (capture_publish a.alive d.clients a.event).2,
        switches-drain first.0 is_mouse as_,
      )

  switches-test :
      (d : Daemon Double) (now_ns : ℕ)
      → switches (test_chord fp atof d now_ns).1 ≡ (hotkey_should_fire d.hotkey now_ns).1
  unfolding test_chord switches
  switches-test d now_ns = elim (Bool-cases (hotkey_should_fire d.hotkey now_ns).1) [
    | inl fires ↦ rw fires refl
    | inr still ↦ rw still refl
  ]

  switches-drop :
      (d : Daemon Double) (fd : ℕ) (gone : Bool)
      → switches (drop_device fp atof d fd gone).1 ≡ false
  unfolding drop_device switches
  switches-drop d fd true = refl
  switches-drop d fd false = refl

  drain_cfg :
      (d : Daemon Double) (is_mouse : Bool) (as_ : List Arrival)
      → (drain fp atof d is_mouse as_).0.cfg ≡ d.cfg
  unfolding drain on_event
  drain_cfg d is_mouse [] = refl
  drain_cfg d is_mouse (a ∷ as_) = drain_cfg (on_event fp atof d is_mouse a).0 is_mouse as_

  -- The state in front of the loop, after what the descriptors report.
  abbrev pub running :
      Option Bytes → List InputSlot → Double → List ℕ → Bool → List Ready → Daemon Double
  running file slots zero report has_snap rs =
      (run fp atof has_snap (started fp atof file slots zero report) rs).0

  input_switches :
      (d : Daemon Double) (ops : List ChordOp) (fd : ℕ) (is_mouse : Bool) (as_ : List Arrival)
      (now_ns : ℕ) (gone : Bool)
      → Follows fp atof d ops
      → switches (on_input fp atof d fd is_mouse as_ now_ns gone).1
        ≡ (hotkey_should_fire
            (chord_run d.cfg.hotkey_codes d.cfg.hotkey_n (read_ops as_ ops))
            now_ns).1
  unfolding on_input
  input_switches d ops fd is_mouse as_ now_ns gone f =
      let r1 = drain fp atof d is_mouse as_ in
      let r2 = test_chord fp atof r1.0 now_ns in
      let r3 = drop_device fp atof r2.0 fd gone in
      let g = Follows-drain fp atof d ops is_mouse as_ f in
      ground (
        arith,
        switches-append r1.1 (r2.1 ++ r3.1),
        switches-append r2.1 r3.1,
        switches-drain d is_mouse as_,
        switches-test r1.0 now_ns,
        switches-drop r2.0 fd gone,
      )
      ∙ ap (λ s. (hotkey_should_fire s now_ns).1) g.chord
      ∙ ap
          (λ (c : Config Double).
            (hotkey_should_fire (chord_run c.hotkey_codes c.hotkey_n (read_ops as_ ops)) now_ns).1)
          (drain_cfg d is_mouse as_)

  -- When a device of the running daemon has been read, the daemon starts the other mode exactly if
  -- the key events of all devices since the last reload left the chord complete for at least a
  -- second, and no earlier test since that reload found it so since a key event last left some key of
  -- it up; for a chord of different keys, and events read at times other than 0.
  pub switches_iff_held :
      (file : Option Bytes) (slots : List InputSlot) (zero : Double) (report : List ℕ)
      (has_snap : Bool) (rs : List Ready) (fd : ℕ) (is_mouse : Bool) (as_ : List Arrival)
      (now_ns : ℕ) (gone : Bool)
      → AreDistinct
          (running file slots zero report has_snap rs).cfg.hotkey_n
          (running file slots zero report has_snap rs).cfg.hotkey_codes
      → AreTimed (read_ops as_ (history [] rs))
      → let d = running file slots zero report has_snap rs in
        let ops = read_ops as_ (history [] rs) in
        switches (step fp atof has_snap d (input fd is_mouse as_ now_ns gone)).1 ≡ (
          not (has_fired d.cfg.hotkey_n d.cfg.hotkey_codes ops)
          && second_ago (complete_since d.cfg.hotkey_n d.cfg.hotkey_codes ops) now_ns)
  unfolding step
  switches_iff_held file slots zero report has_snap rs fd is_mouse as_ now_ns gone distinct timed =
      let d = running file slots zero report has_snap rs in
      let f =
        Follows-run fp atof (started fp atof file slots zero report) [] has_snap rs
          (Follows-started fp atof file slots zero report) in
      input_switches d (history [] rs) fd is_mouse as_ now_ns gone f
      ∙ hotkey_should_fire_iff d.cfg.hotkey_n d.cfg.hotkey_codes (read_ops as_ (history [] rs))
          now_ns f.valid.count distinct timed
