-- ===== src/Ffsd/Writer/Shutdown.antt =====
-- How the writer thread comes to an end, and that it does not stay behind.
use meta_dualsense.Prelude.{
  ℕ, suc, ◌≤◌, ◌+◌, true, ◌≡◌, ◌∙◌, ap, sym, refl, arith, length, List, ◌∷◌, ◌⊎◌, inl, inr,
}
use meta_dualsense.Ffsd.Writer.{
  Report, Phase, waiting, writing, exited, Writer, submit, request_stop, take_report, wrote, leave,
  Step, submits, stops, takes, writes, leaves, Reach, here, next,
}

-- The reports that the thread holds.
abbrev pub in_flight : Phase → ℕ
in_flight waiting = 0
in_flight (writing r) = 1
in_flight exited = 0

-- Behind a stop the reports written and those in flight do not become more.
Step-stopped :
    {w v : Writer}
    → Step w v
    → w.stop ≡ true
    → (v.stop ≡ true)
      × (length v.written + in_flight v.phase ≤ length w.written + in_flight w.phase)
unfolding submit request_stop take_report wrote leave
Step-stopped (submits r) h = (h, omega arith)
Step-stopped stops h = (refl, omega arith)
Step-stopped (takes p q s) h = cc
Step-stopped (writes r p) h = (h, ground arith)
Step-stopped (leaves p s) h = (h, ground arith)

-- Once a stop is requested, the thread writes at most the report that it already holds: however
-- the threads go on, no more reports are written than that.
pub stopped_writes_in_flight :
    {w v : Writer}
    → Reach w v
    → w.stop ≡ true
    → (v.stop ≡ true)
      × (length v.written + in_flight v.phase ≤ length w.written + in_flight w.phase)
stopped_writes_in_flight here h = (h, omega arith)
stopped_writes_in_flight (next r s) h =
    let (still, few) = stopped_writes_in_flight r h in
    let (stop, fewer) = Step-stopped s still in (stop, omega arith)

-- The steps of the writer thread itself
abbrev pub IsThread : {w v : Writer} → Step w v → Type 0
IsThread (submits r) = ⊥
IsThread stops = ⊥
IsThread (takes p q s) = Unit
IsThread (writes r p) = Unit
IsThread (leaves p s) = Unit

-- So many steps of the thread alone
pub data Alone (w : Writer) : ℕ → Writer → Type 0 where
  idle : Alone w 0 w
  then_step : {k : ℕ} {v u : Writer} → Alone w k v → (s : Step v u) → IsThread s → Alone w (suc k) u

-- How many steps the thread needs to leave its loop once it is to stop.
abbrev pub steps_left : Phase → ℕ
steps_left (writing r) = 2
steps_left waiting = 1
steps_left exited = 0

-- What the thread has written, and behind it the report that it holds; the latest stands first.
abbrev pub with_held : Phase → List Report → List Report
with_held waiting rs = rs
with_held (writing r) rs = r ∷ rs
with_held exited rs = rs

thread_step :
    {w v : Writer} (s : Step w v)
    → IsThread s
    → w.stop ≡ true
    → (v.stop ≡ true)
      × (suc (steps_left v.phase) ≡ steps_left w.phase)
      × (with_held v.phase v.written ≡ with_held w.phase w.written)
unfolding take_report wrote leave
thread_step (submits r) t h = absurd t
thread_step stops t h = absurd t
thread_step (takes p q s) t h = cc
thread_step (writes r p) t h = (h, ap steps_left (sym p), rw p refl)
thread_step (leaves p s) t h = (h, ap steps_left (sym p), rw p refl)

-- The thread can go on, unless it has left its loop.
abbrev pub GoesOn : Writer → Type 0
GoesOn v = (v.phase ≡ exited) ⊎ ((u : Writer) × (s : Step v u) × IsThread s)

goes_on : (v : Writer) (f : Phase) → v.phase ≡ f → v.stop ≡ true → GoesOn v
goes_on v waiting p h = inr (leave v, leaves p h, tt)
goes_on v (writing r) p h = inr (wrote r v, writes r p, tt)
goes_on v exited p h = inl p

-- After a stop is requested, in every run of the writer thread alone: each step takes it nearer to
-- the end of its loop, which is at most two steps away; it can go on until it has left the loop; and
-- what it has written, with the report that it still holds, is what it had written and the report
-- that it held at the stop.
pub stopped_exits :
    {w v : Writer} {k : ℕ}
    → Alone w k v
    → w.stop ≡ true
    → (v.stop ≡ true)
      × (k + steps_left v.phase ≡ steps_left w.phase)
      × (with_held v.phase v.written ≡ with_held w.phase w.written)
      × GoesOn v
stopped_exits {w} idle h = (h, omega arith, refl, goes_on w w.phase refl h)
stopped_exits (then_step {v} {u} r s t) h =
    let (stop, count, same, on) = stopped_exits r h in
    let (still, nearer, kept) = thread_step s t stop in
    (still, omega arith, kept ∙ same, goes_on u u.phase refl still)
