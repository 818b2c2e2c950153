-- ===== src/Lib.antt =====
-- A verification library for the C programs of meta-dualsense: kbm-passthrough, which forwards a
-- keyboard and a mouse to a host as USB HID devices, dualsense-ffsd, which presents them as a
-- DualSense controller, and kbm-leds, which shows the state of both on the board's LEDs.
--
-- The parts and their files. `Prelude` holds the shared names: numbers, lists, options, integers
-- (`Prelude.Int`), bits of words (`Prelude.Bits`), finite checks (`Prelude.Check`), text as bytes
-- with the C library's functions on it (`Prelude.Text`). `Input` holds `struct input_event` and the
-- codes of the kernel's headers that the programs use.
--   `Passthrough` is recipes-apps/kbm-passthrough/files/main.c: `Keymap` the table `key_to_hid` and
-- the modifier and button bits; `Keyboard` the six key slots (`kbd_press`, `kbd_release`,
-- `kbd_write_report`); `Mouse` the button byte and `mouse_flush`; `Hotkey` its own copy of the
-- chord; `ChordFile` is `hotkey_load`, which reads that chord; `Loop` the branch of `main` that
-- drains a readable device, sends the keyboard report if it is dirty and tests the chord; `Session`
-- the run from the first report to the last around it.
--   `Chord`, `Ffsd` are recipes-apps/kbm-mapper-ff/files/main.c: `Chord` is `hotkey_update` and
-- `hotkey_should_fire`; `Ffsd.Setup` is `handle_setup` with `respond_in`; `Ffsd.Slots` the table of
-- input devices, the scan at the start and the hot-plug branch; `Ffsd.Devices` which devices are
-- taken; `Ffsd.Capture` the capture socket's clients and lines; `Ffsd.Writer` the thread that
-- writes reports to the IN endpoint and its mailbox; `Ffsd.Daemon` the main loop over all of these,
-- and `Ffsd.Startup` what stands before and behind it. `Ffsd.Features` is feature_reports.c,
-- `Ffsd.Descriptor` ffs_descriptors.h, both beside that main.c.
--   `Mapper` is mapper.c and mapper.h there: its state and `mapper_handle_event`; `Mapper.Burst` is
-- `burst_tick` and `is_active`; `Mapper.Stick` the velocity window, both sticks and the dpad;
-- `Mapper.BuildReport` is `mapper_build_report`. `Config` the record of config.h, with the
-- defaults, the names (`Config.Names`) and the parser (`Config.Parser`) of config.c, `Report` the
-- constants of report.h.
--   `Leds` is recipes-apps/kbm-leds/files/main.c: the curves, `select_pattern`, a pass of
-- `state_thread` with what it reads (`Leds.Polling`), and the tick of `main`; it shares nothing
-- with the other two but the state that it polls. The main loop of dualsense-ffsd, `Ffsd.Daemon`,
-- hands each event to `Mapper`, to `Chord` and to the capture clients, each report to
-- `Ffsd.Writer`, and reads `Config` again when its file is written; that of kbm-passthrough is
-- `Passthrough.Session`. Both programs read the chord from one file.
--
-- Correspondence. A C structure is a record with the same fields, an array a list (in `Config` a
-- function of the index), a function that changes a structure returns the new one. What a program
-- sends, closes or registers is a list of values in the order of the calls. A descriptor is a
-- number, -1 is `none`. Times of CLOCK_MONOTONIC are natural numbers of ns. Counts in `int32_t` are
-- integers with two's complement wrap-around after each sum, bytes and words natural numbers below
-- their bound. The threads of the writer are a step relation: each section under the mutex is a
-- step, as is the write between two of them.
--
-- What the kernel returns to a call, such as the events of a device, the names of inotify or the
-- contents of the configuration file at that moment, stands in the event that the loop handles.
--
-- Bounds. The chord has at most eight keys; for a configuration that is read this is proved, and
-- theorems about the chord alone say so. A velocity window looks at no more than the 256 samples of
-- the ring, and the walk over burst cycles makes the 4096 passes that the code allows; the
-- endpoints and the gadget nodes are tried 100 times. Printed numbers have ten digits at most,
-- which 32 bits fit. No definition of a program runs on fuel beyond that; the reader of the report
-- descriptor in `Ffsd.Features.Advertised`, a specification, is bounded by the number of bytes,
-- which every item uses at least one of.
--
-- Not modelled. The meaning of floating point: the operations of `double` and of libm are the
-- interface `Mapper.Float`, and `atof` is a function of the text; both are parameters. The set-up
-- of sockets, epoll, inotify and timers, scheduling priorities and the start of the other program
-- are I/O. The slot functions of kbm-passthrough are those of dualsense-ffsd line by line and are
-- not written twice. The contents of the files that kbm-leds polls, whether a service is active,
-- and `strtol` are parameters. kbm-web, the recipes and the scripts are not C.
pub mod Prelude
pub mod Input
pub mod Report
pub mod Config
pub mod Mapper
pub mod Chord
pub mod Leds
pub mod Passthrough
pub mod Ffsd
pub mod Tests
