-- ===== src/Ffsd/Writer.antt =====
-- The writer thread of dualsense-ffsd (recipes-apps/kbm-mapper-ff/files/main.c, `struct ep_writer`)
-- and the main thread that feeds it. Each section under the mutex is one step, as is the write
-- itself; the threads interleave in any way.
pub mod Order
pub mod Shutdown
use meta_dualsense.Prelude.{ℕ, Bool, true, false, ◌≡◌, List, [], ◌∷◌, replicate}

abbrev pub Report : Type 0
Report = List ℕ

-- Where the writer thread is: before the mutex (or waiting on the condition), between its section
-- and the end of `write` with the report that it copied to `local`, or out of its loop.
pub data Phase : Type 0 where
  waiting : Phase
  writing : Report → Phase
  exited : Phase

-- The fields of `struct ep_writer` under the mutex, the thread's place, and two histories, the
-- latest first: what was submitted, and what was handed to `write`.
pub record Writer : Type 0 where
  pub report : Report
  pub has_pending : Bool
  pub stop : Bool
  pub phase : Phase
  pub submitted : List Report
  pub written : List Report

-- `ep_writer_start`
abbrev pub started : Writer
started = record {
  report = replicate 64 0;
  has_pending = false;
  stop = false;
  phase = waiting;
  submitted = [];
  written = [];
}

-- `ep_writer_submit`
unfoldable pub submit : Report → Writer → Writer
submit r w = record w { report = r; has_pending = true; submitted = r ∷ w.submitted }

-- The flag set by `ep_writer_stop`, which then joins the thread.
unfoldable pub request_stop : Writer → Writer
request_stop w = record w { stop = true }

-- The thread's section when it finds a report and no stop: the copy to `local`.
unfoldable pub take_report : Writer → Writer
take_report w = record w { phase = writing w.report; has_pending = false }

-- The end of `write`; its result changes nothing.
unfoldable pub wrote : Report → Writer → Writer
wrote r w = record w { phase = waiting; written = r ∷ w.written }

unfoldable pub leave : Writer → Writer
leave w = record w { phase = exited }

pub data Step (w : Writer) : Writer → Type 0 where
  submits : (r : Report) → Step w (submit r w)
  stops : Step w (request_stop w)
  takes : w.phase ≡ waiting → w.has_pending ≡ true → w.stop ≡ false → Step w (take_report w)
  writes : (r : Report) → w.phase ≡ writing r → Step w (wrote r w)
  leaves : w.phase ≡ waiting → w.stop ≡ true → Step w (leave w)

pub data Reach (w : Writer) : Writer → Type 0 where
  here : Reach w w
  next : {v u : Writer} → Reach w v → Step v u → Reach w u
