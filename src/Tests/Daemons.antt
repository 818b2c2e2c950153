-- ===== src/Tests/Daemons.antt =====
-- Both daemons' loops at concrete runs.
use meta_dualsense.Prelude.{
  ℕ, zero, suc, ◌<◌, ◌≡◌, refl, true, false, not, ◌&&◌, ◌||◌, none, some, List, [], ◌∷◌, ◌++◌,
  replicate, take, length, get_or, arith,
}
use meta_dualsense.Prelude.Int.{ℤ, pos}
use meta_dualsense.Input.{InputEvent, key_leftctrl, key_esc, key_w, key_space}
use meta_dualsense.Report.{ds_act_l1, ds_act_cross}
use meta_dualsense.Config.{config_init_defaults, store}
use meta_dualsense.Config.Parser.{config_load}
use meta_dualsense.Mapper.{is_pressed, action_of}
use meta_dualsense.Mapper.Keys.{last_said}
use meta_dualsense.Mapper.Burst.{burst_tick, burst_phase}
use meta_dualsense.Mapper.BuildReport.Places.{cross}
use meta_dualsense.Prelude.Bits.{has_bit}
use meta_dualsense.Mapper.History.{samples}
use meta_dualsense.Mapper.Frames.{frames, no_frames}
use meta_dualsense.Chord.History.{complete_since, among, second_ago, has_fired}
use meta_dualsense.Ffsd.Slots.{input_slots_init}
use meta_dualsense.Ffsd.Slots.Table.{holds_fd}
use meta_dualsense.Ffsd.Capture.Line.{capture_line, capture_line_fits}
use meta_dualsense.Ffsd.Startup.{
  Opened, open_endpoints, rounds, Handles, shutdown, unbind_udc, stop_writer,
}
use meta_dualsense.Ffsd.Startup.Released.{
  IsOutcome, open_endpoints-IsOutcome, gives_back, shutdown-gives_back, any_fd, is_handle,
}
use meta_dualsense.Ffsd.Daemon
use meta_dualsense.Ffsd.Daemon.{
  Daemon, Arrival, Ready, timer, submit, input, notify, host_report, step, run, started, on_input,
  drain, on_event, test_chord, drop_device,
}
use meta_dualsense.Ffsd.Daemon.Quiet.{submissions, snapshots}
use meta_dualsense.Ffsd.Daemon.Ticks.{stored, counter_after, ticks, reports_follow_ticks}
use meta_dualsense.Ffsd.Daemon.Follow.{read_ops, ops_after, history}
use meta_dualsense.Ffsd.Daemon.Switch.{switches, running, switches_iff_held}
use meta_dualsense.Ffsd.Daemon.Inputs.{heard, reloads, mapper_hears_all}
use meta_dualsense.Ffsd.Daemon.Shown.{reports_show_held}
use meta_dualsense.Ffsd.Daemon.Reload.{rewritten, reload_leaves_pressed}
use meta_dualsense.Passthrough.ChordFile.{hotkey_load}
use meta_dualsense.Passthrough.Loop.{service_device}
use meta_dualsense.Passthrough.Session
use meta_dualsense.Passthrough.Session.Switch
use meta_dualsense.Passthrough.Session.Released.{kbd_reports, mouse_reports, session_released}
use meta_dualsense.Tests.Events.{key_down}
use meta_dualsense.Tests.Configs.{no_atof}
use meta_dualsense.Tests.Doubles.{whole}

abbrev at : InputEvent → ℕ → Arrival
at e now_ns = record { event = e; now_ns = now_ns; alive = λ fd. true }

-- W and the chord of the defaults go down, with ticks between.
abbrev some_readies : List Ready
some_readies =
    timer true 1000000
    ∷ input 7 false (at (key_down key_w) 2000000 ∷ []) 2000000 false
    ∷ timer false 3000000
    ∷ host_report
    ∷ input 7 false (at (key_down key_leftctrl) 4000000 ∷ []) 4000000 false
    ∷ []

abbrev at_start : Daemon ℤ
at_start = started whole no_atof none input_slots_init (pos 0) []

reports_follow_ticks_example :
    let (d', effects) = run whole no_atof true at_start some_readies in
    (length (submissions effects) ≡ ticks some_readies)
    × (snapshots effects ≡ stored true at_start.snap_counter (submissions effects))
    × (d'.snap_counter ≡ counter_after true at_start.snap_counter (ticks some_readies))
unfolding started
reports_follow_ticks_example =
    reports_follow_ticks whole no_atof true at_start some_readies (omega arith)

abbrev ctrl_down : List Ready
ctrl_down = input 7 false (at (key_down key_leftctrl) 4000000 ∷ []) 4000000 false ∷ []

switches_iff_held_example :
    let d = running whole no_atof none input_slots_init (pos 0) [] true ctrl_down in
    let ops = read_ops (at (key_down key_esc) 5000000 ∷ []) (history [] ctrl_down) in
    switches
      (step whole no_atof true d
        (input 7 false (at (key_down key_esc) 5000000 ∷ []) 2000000000 false)).1
    ≡ (not (has_fired d.cfg.hotkey_n d.cfg.hotkey_codes ops)
        && second_ago (complete_since d.cfg.hotkey_n d.cfg.hotkey_codes ops) 2000000000)
unfolding among read_ops history ops_after Daemon.run Daemon.step on_input drain on_event test_chord
    drop_device Daemon.started config_load config_init_defaults
switches_iff_held_example =
    switches_iff_held whole no_atof none input_slots_init (pos 0) [] true ctrl_down 7 false
      (at (key_down key_esc) 5000000 ∷ []) 2000000000 false (refl, (refl, tt))
      (omega arith, (omega arith, tt))

mapper_hears_all_example :
    let d = (run whole no_atof true at_start some_readies).0 in
    ((a : ℕ)
      → is_pressed d.mapper a
        ≡ last_said (config_load whole no_atof none).0 a false (heard some_readies))
    × (samples d.mapper ≡ take 256 (frames no_frames (heard some_readies)).all)
unfolding reloads
mapper_hears_all_example =
    mapper_hears_all whole no_atof (pos 0) none input_slots_init [] true some_readies refl

-- The space bar is bound to the cross in the defaults.
abbrev space_held : List Ready
space_held =
    timer true 1000000 ∷ input 7 false (at (key_down key_space) 2000000 ∷ []) 2000000 false ∷ []

reports_show_held_example :
    let c = (config_load whole no_atof none).0 in
    let d = (run whole no_atof true at_start space_held).0 in
    let (d', effects) = step whole no_atof true d (timer true 3000000) in
    (take 1 effects ≡ submit d'.report ∷ [])
    × (has_bit (get_or d'.report 8 0) 5 ≡ (
        last_said c ds_act_cross false (heard space_held)
        && (whole.le (c.burst_hz ds_act_cross) (whole.lit 0 0)
            || burst_phase whole c (burst_tick d.mapper 3000000) ds_act_cross 3000000)))
unfolding reloads
reports_show_held_example =
    reports_show_held whole no_atof (pos 0) none input_slots_init [] true space_held 3000000 8 5
      ds_act_cross refl cross

-- L1 is bound to nothing in the defaults.
reload_leaves_pressed_example :
    is_pressed
      (run whole no_atof true at_start
        (notify (rewritten whole no_atof (λ path. none) none ∷ []) ∷ some_readies)).0.mapper
      ds_act_l1
    ≡ is_pressed at_start.mapper ds_act_l1
unfolding reloads config_load config_init_defaults action_of store
reload_leaves_pressed_example =
    reload_leaves_pressed whole no_atof at_start (λ path. none) none true some_readies ds_act_l1
      refl (λ code. ground arith)

abbrev second_succeeds : ℕ → Opened
second_succeeds zero = (some 5, none)
second_succeeds (suc i) = (some 6, some 7)

open_endpoints-IsOutcome_example :
    IsOutcome second_succeeds 0 rounds (open_endpoints rounds second_succeeds 0)
open_endpoints-IsOutcome_example = open_endpoints-IsOutcome rounds second_succeeds 0

abbrev handles : Handles
handles = record {
  inotify_fd = some 3;
  snap_fd = none;
  capture_listen_fd = some 4;
  ep_out = 5;
  ep_in = 6;
  ep0 = 7;
  tfd = 8;
  ep = 9;
}

shutdown-gives_back_example :
    let d = (run whole no_atof true at_start some_readies).0 in
    let ts = shutdown d.slots d.clients handles in
    (take 2 ts ≡ unbind_udc ∷ stop_writer ∷ [])
    × (gives_back ts 9 ≡ (holds_fd d.slots 9 || (any_fd d.clients 9 || is_handle handles 9)))
shutdown-gives_back_example = shutdown-gives_back whole no_atof at_start true some_readies handles 9

capture_line_fits_example :
    (0 < length (capture_line (key_down key_w) false))
    × (length (capture_line (key_down key_w) false) < 128)
capture_line_fits_example = capture_line_fits (key_down key_w) false

session_released_example :
    let rs : List Session.Ready = Session.input 7 ((key_down key_w, 1) ∷ []) 2 false ∷ [] in
    let acts = (Session.run (Session.started none input_slots_init) rs).1 in
    (kbd_reports (Session.session none input_slots_init rs)
      ≡ replicate 8 0 ∷ (kbd_reports acts ++ (replicate 8 0 ∷ [])))
    × (mouse_reports (Session.session none input_slots_init rs)
        ≡ replicate 4 0 ∷ (mouse_reports acts ++ (replicate 4 0 ∷ [])))
session_released_example =
    session_released none input_slots_init (Session.input 7 ((key_down key_w, 1) ∷ []) 2 false ∷ [])

switch_iff_held_example :
    let rs : List Session.Ready = Session.input 7 ((key_down key_leftctrl, 1) ∷ []) 2 false ∷ [] in
    let events : List (InputEvent × ℕ) = (key_down key_esc, 3) ∷ [] in
    let s = (Session.run (Session.started none input_slots_init) rs).0 in
    let chord = hotkey_load none in
    let ops = Switch.read_ops events (Switch.history [] rs) in
    Switch.switches (service_device s.state events 2000000000).1 ≡ (
      not (has_fired chord.n chord.codes ops)
      && second_ago (complete_since chord.n chord.codes ops) 2000000000)
unfolding among hotkey_load Switch.history
switch_iff_held_example =
    Switch.switch_iff_held none input_slots_init
      (Session.input 7 ((key_down key_leftctrl, 1) ∷ []) 2 false ∷ []) ((key_down key_esc, 3) ∷ [])
      2000000000 (refl, (refl, tt)) (omega arith, (omega arith, tt))
