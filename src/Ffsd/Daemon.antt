-- ===== src/Ffsd/Daemon.antt =====
-- The main loop of dualsense-ffsd (recipes-apps/kbm-mapper-ff/files/main.c): what each descriptor that
-- epoll reports does to the daemon's state, and what the daemon then writes. What the kernel returns
-- stands in the event; `c_open` of a path is what `classify_and_open_input` returns for it.
pub mod Inputs
pub mod Shown
pub mod Quiet
pub mod Ticks
pub mod Follow
pub mod Switch
pub mod Reload
use meta_dualsense.Prelude.{
  ℕ, suc, Bool, true, false, not, ◌&&◌, Option, none, some, List, [], ◌∷◌, ◌++◌, ◌==◌, leb, ltb,
  if◌then◌else◌, replicate,
}
use meta_dualsense.Prelude.Text.{Bytes, codes, same_text, behind_prefix}
use meta_dualsense.Input.{InputEvent}
use meta_dualsense.Report.{ds_report_len}
use meta_dualsense.Config.{Config}
use meta_dualsense.Config.Parser.{config_load}
use meta_dualsense.Mapper.{Mapper, mapper_init, mapper_handle_event}
use meta_dualsense.Mapper.Float.{Float}
use meta_dualsense.Mapper.BuildReport.{mapper_build_report}
use meta_dualsense.Chord.{HotkeyState, hotkey_reset, hotkey_update, hotkey_should_fire}
use meta_dualsense.Ffsd.Setup.{FfsEvent, Reply, handle_ffs_event}
use meta_dualsense.Ffsd.Slots.{
  InputSlot, FdEffect, close, max_inputs, input_slots_init, input_slots_add, input_slots_remove_fd,
  clip, plug,
}
use meta_dualsense.Ffsd.Capture.{no_clients, capture_accept, capture_publish}
use meta_dualsense.Ffsd.Capture.Line.{capture_line}

-- The variables of `main` and of the file that the loop changes.
pub record Daemon (Double : Type 0) : Type 0 where
  pub cfg : Config Double
  pub mapper : Mapper Double
  pub hotkey : HotkeyState
  pub slots : List InputSlot
  pub clients : List (Option ℕ)
  pub snap_counter : ℕ
  pub report : List ℕ

pub data Effect : Type 0 where
  submit : List ℕ → Effect  -- `ep_writer_submit`
  snapshot : List ℕ → Effect  -- the `pwrite` for kbm-web
  answer : Reply → Effect  -- on ep0
  descriptor : FdEffect → Effect
  publish : List ℕ → Bytes → Effect  -- a line to these capture clients
  release : ℕ → Effect  -- epoll_ctl(DEL), EVIOCGRAB of 0, close
  switch_to_passthrough : Effect

-- An input event, the time at which it is read, and which capture clients take a line now.
pub record Arrival : Type 0 where
  pub event : InputEvent
  pub now_ns : ℕ
  pub alive : ℕ → Bool

-- An inotify event: its name, `[]` if it has none; what opening a device gives now, and what the
-- configuration file holds now.
pub record Notice : Type 0 where
  pub name : Bytes
  pub c_open : Bytes → Option ℕ
  pub file : Option Bytes

-- A descriptor that is ready, and what reading it gives.
pub data Ready : Type 0 where
  timer : Bool → ℕ → Ready  -- whether eight bytes are read, and the time
  control : List FfsEvent → Ready  -- ep0; `[]` if the read fails
  host_report : Ready  -- ep_out, whose reports are dropped
  notify : List Notice → Ready  -- `[]` if the read fails
  connect : Option ℕ → Ready  -- what `accept4` returns
  -- An input device: its descriptor, `fd_is_mouse` of it, the events, the time of the chord's test,
  -- and whether the read that ended the loop failed with ENODEV or ENOENT.
  input : ℕ → Bool → List Arrival → ℕ → Bool → Ready

abbrev pub closes : List ℕ → List Effect
closes [] = []
closes (fd ∷ fds) = descriptor (close fd) ∷ closes fds

abbrev pub descriptors : List FdEffect → List Effect
descriptors [] = []
descriptors (e ∷ es) = descriptor e ∷ descriptors es

abbrev pub replied : Option Reply → List Effect
replied none = []
replied (some r) = answer r ∷ []

-- The loop over the events read from ep0.
unfoldable pub answers : List FfsEvent → List Effect
answers [] = []
answers (e ∷ es) = replied (handle_ffs_event e) ++ answers es

-- The line goes to the clients that there are, if the event is a key's.
unfoldable pub lines : InputEvent → Bool → List ℕ → List ℕ → List Effect
lines e is_mouse [] closed = closes closed
lines e is_mouse (c ∷ to) closed = publish (c ∷ to) (capture_line e is_mouse) ∷ closes closed

module _ (fp : Float) (atof : Bytes → fp.Double) where
  open fp use {Double}

  -- The timer's branch; `has_snap` tells whether the snapshot file could be opened.
  unfoldable pub on_timer : Bool → Daemon Double → ℕ → Daemon Double × List Effect
  on_timer has_snap d now_ns =
      let (m, r) = mapper_build_report fp d.cfg d.mapper d.report ds_report_len now_ns in
      if has_snap && leb 10 (suc d.snap_counter)
      then (record d { mapper = m; report = r; snap_counter = 0 }, submit r ∷ snapshot r ∷ [])
      else (
        record d {
          mapper = m;
          report = r;
          snap_counter = if has_snap then suc d.snap_counter else d.snap_counter;
        },
        submit r ∷ [],
      )

  unfoldable pub on_device : Daemon Double → Notice → Daemon Double × List Effect
  on_device d n =
      let (slots', effects) = plug n.c_open d.slots (clip (codes "/dev/input/" ++ n.name)) in
      (record d { slots = slots' }, descriptors effects)

  unfoldable pub reload : Daemon Double → Notice → Daemon Double
  reload d n = record d { cfg = (config_load fp atof n.file).0; hotkey = hotkey_reset }

  unfoldable pub on_notice : Daemon Double → Notice → Option Bytes → Daemon Double × List Effect
  on_notice d n (some rest) = on_device d n
  on_notice d n none =
      if same_text n.name (codes "kbm-mapper.conf") then (reload d n, []) else (d, [])

  -- The loop over the inotify events of one read.
  unfoldable pub on_notices : Daemon Double → List Notice → Daemon Double × List Effect
  on_notices d [] = (d, [])
  on_notices d (n ∷ ns) =
      let (d1, first) = on_notice d n (behind_prefix (codes "event") n.name) in
      let (d2, rest) = on_notices d1 ns in (d2, first ++ rest)

  -- The body of the loop that drains an input device.
  unfoldable pub on_event : Daemon Double → Bool → Arrival → Daemon Double × List Effect
  on_event d is_mouse a =
      let (clients', to, closed) = capture_publish a.alive d.clients a.event in
      (
        record d {
          hotkey = hotkey_update d.cfg.hotkey_codes d.cfg.hotkey_n d.hotkey a.event a.now_ns;
          clients = clients';
          mapper = mapper_handle_event d.cfg d.mapper a.event;
        },
        lines a.event is_mouse to closed,
      )

  unfoldable pub drain : Daemon Double → Bool → List Arrival → Daemon Double × List Effect
  drain d is_mouse [] = (d, [])
  drain d is_mouse (a ∷ as_) =
      let (d1, first) = on_event d is_mouse a in
      let (d2, rest) = drain d1 is_mouse as_ in (d2, first ++ rest)

  -- The chord's test behind the loop.
  unfoldable pub test_chord : Daemon Double → ℕ → Daemon Double × List Effect
  test_chord d now_ns =
      let (hotkey', fire) = hotkey_should_fire d.hotkey now_ns in
      (record d { hotkey = hotkey' }, if fire then switch_to_passthrough ∷ [] else [])

  unfoldable pub drop_device : Daemon Double → ℕ → Bool → Daemon Double × List Effect
  drop_device d fd gone =
      if gone
      then (record d { slots = input_slots_remove_fd d.slots fd }, release fd ∷ [])
      else (d, [])

  unfoldable pub on_input :
      Daemon Double → ℕ → Bool → List Arrival → ℕ → Bool → Daemon Double × List Effect
  on_input d fd is_mouse arrivals now_ns gone =
      let (d1, drained) = drain d is_mouse arrivals in
      let (d2, fired) = test_chord d1 now_ns in
      let (d3, dropped) = drop_device d2 fd gone in (d3, drained ++ (fired ++ dropped))

  unfoldable pub on_connect : Daemon Double → Option ℕ → Daemon Double × List Effect
  on_connect d fd =
      let (clients', closed) = capture_accept d.clients fd in
      (record d { clients = clients' }, closes closed)

  -- The body of the loop over what `epoll_wait` returns.
  unfoldable pub step : Bool → Daemon Double → Ready → Daemon Double × List Effect
  step has_snap d (timer read now_ns) = if read then on_timer has_snap d now_ns else (d, [])
  step has_snap d (control events) = (d, answers events)
  step has_snap d host_report = (d, [])
  step has_snap d (notify notices) = on_notices d notices
  step has_snap d (connect fd) = on_connect d fd
  step has_snap d (input fd is_mouse arrivals now_ns gone) =
      on_input d fd is_mouse arrivals now_ns gone

  -- The loop over several of these, the first one first.
  unfoldable pub run : Bool → Daemon Double → List Ready → Daemon Double × List Effect
  run has_snap d [] = (d, [])
  run has_snap d (r ∷ rs) =
      let (d1, first) = step has_snap d r in
      let (d2, rest) = run has_snap d1 rs in (d2, first ++ rest)

  -- The state in front of the loop: the file that is read, the table of the devices found, the
  -- double of which every byte is 0, and the uninitialised report.
  unfoldable pub started : Option Bytes → List InputSlot → Double → List ℕ → Daemon Double
  started file slots zero report = record {
    cfg = (config_load fp atof file).0;
    mapper = mapper_init zero;
    hotkey = hotkey_reset;
    slots = slots;
    clients = no_clients;
    snap_counter = 0;
    report = report;
  }
