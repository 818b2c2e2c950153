-- ===== src/Ffsd/Daemon/Ticks.antt =====
-- One report for each tick of the timer, and every tenth into the snapshot file.
use meta_dualsense.Prelude.{
  sym, ap, ◌==◌, ◌%◌, if◌then◌else◌, length, length-append, ℕ, suc, ◌+◌, ◌<◌, ◌≡◌, refl, ◌∙◌, Bool,
  true, false, List, [], ◌∷◌, ◌++◌, leb, arith, Bool-cases, inl, inr,
}
use meta_dualsense.Prelude.Text.{Bytes}
use meta_dualsense.Mapper.Float.{Float}
use meta_dualsense.Ffsd.Capture.{capture_accept}
use meta_dualsense.Ffsd.Daemon.{
  Daemon, Effect, Ready, timer, control, host_report, notify, connect, input, answers, on_timer,
  on_notices, on_input, on_connect, step, run,
}
use meta_dualsense.Ffsd.Daemon.Quiet.{
  submissions, snapshots, submissions-append, snapshots-append, IsQuiet-closes, IsQuiet-answers,
  KeepsCount, keeps-on_notices, keeps-on_input,
}

-- Every tenth of the reports, `count` having gone before the first since the last tenth.
unfoldable pub every_tenth : ℕ → List (List ℕ) → List (List ℕ)
every_tenth count [] = []
every_tenth count (r ∷ rs) =
    let kept = every_tenth 0 rs in
    let next = every_tenth (suc count) rs in if suc count == 10 then r ∷ kept else next

-- The reports that should go into the file: none where it is not open.
abbrev pub stored : Bool → ℕ → List (List ℕ) → List (List ℕ)
stored true count rs = every_tenth count rs
stored false count rs = []

-- The counter after so many more reports.
abbrev pub counter_after : Bool → ℕ → ℕ → ℕ
counter_after true count n = (count + n) % 10
counter_after false count n = count

stored-nil : (has_snap : Bool) (count : ℕ) → stored has_snap count [] ≡ []
unfolding every_tenth
stored-nil true count = refl
stored-nil false count = refl

counter_still : (has_snap : Bool) (count : ℕ) → count < 10 → count ≡ counter_after has_snap count 0
counter_still true count small = omega arith
counter_still false count small = refl

counter_after_below :
    (has_snap : Bool) (count n : ℕ) → count < 10 → counter_after has_snap count n < 10
counter_after_below true count n small = omega arith
counter_after_below false count n small = small

counter_twice :
    (has_snap : Bool) (count n m : ℕ)
    → counter_after has_snap (counter_after has_snap count n) m
      ≡ counter_after has_snap count (n + m)
counter_twice true count n m = omega arith
counter_twice false count n m = refl

-- How many times the timer was read.
unfoldable pub ticks : List Ready → ℕ
ticks [] = 0
ticks (timer true now_ns ∷ rs) = suc (ticks rs)
ticks (r ∷ rs) = ticks rs

module _ (fp : Float) (atof : Bytes → fp.Double) where
  open fp use {Double}

  -- Of a step: so many reports are submitted; those stored are among the tenths, by the counter
  -- before, and the tenths of later reports go by the counter behind it.
  Counts : Bool → Daemon Double → ℕ → Daemon Double × List Effect → Type 0
  Counts has_snap d n r =
      (length (submissions r.1) ≡ n)
      × ((later : List (List ℕ))
          → stored has_snap d.snap_counter (submissions r.1 ++ later)
            ≡ snapshots r.1 ++ stored has_snap r.0.snap_counter later)
      × (r.0.snap_counter ≡ counter_after has_snap d.snap_counter n)

  quiet-Counts :
      (has_snap : Bool) (d : Daemon Double) (r : Daemon Double × List Effect)
      → d.snap_counter < 10
      → KeepsCount fp atof d r
      → Counts has_snap d 0 r
  unfolding Counts
  quiet-Counts has_snap d r small ((none_sent, none_stored), same) = (
    rw none_sent refl,
    λ later. rw (none_sent, none_stored, same) refl,
    same ∙ counter_still has_snap d.snap_counter small,
  )

  on_timer-Counts :
      (has_snap : Bool) (d : Daemon Double) (now_ns : ℕ)
      → d.snap_counter < 10
      → Counts has_snap d 1 (on_timer fp atof has_snap d now_ns)
  unfolding Counts on_timer submissions snapshots every_tenth
  on_timer-Counts false d now_ns small = (refl, λ later. refl, refl)
  on_timer-Counts true d now_ns small = elim (Bool-cases (leb 10 (suc d.snap_counter))) [
    | inl full ↦
        let tenth : (suc d.snap_counter == 10) ≡ true = ground arith in
        rw full (refl, λ later. rw tenth refl, ground arith)
    | inr room ↦
        let other : (suc d.snap_counter == 10) ≡ false = ground arith in
        rw room (refl, λ later. rw other refl, ground arith)
  ]

  step-Counts :
      (has_snap : Bool) (d : Daemon Double) (r : Ready)
      → d.snap_counter < 10
      → Counts has_snap d (ticks (r ∷ [])) (step fp atof has_snap d r)
  unfolding step ticks
  step-Counts has_snap d (timer true now_ns) small = on_timer-Counts has_snap d now_ns small
  step-Counts has_snap d (timer false now_ns) small =
      quiet-Counts has_snap d (d, []) small (unfold submissions snapshots in ((refl, refl), refl))
  step-Counts has_snap d (control events) small =
      quiet-Counts has_snap d (d, answers events) small (IsQuiet-answers events, refl)
  step-Counts has_snap d host_report small =
      quiet-Counts has_snap d (d, []) small (unfold submissions snapshots in ((refl, refl), refl))
  step-Counts has_snap d (notify ns) small =
      quiet-Counts has_snap d (on_notices fp atof d ns) small (keeps-on_notices fp atof d ns)
  step-Counts has_snap d (connect fd) small =
      quiet-Counts has_snap d (on_connect fp atof d fd) small
        (unfold on_connect in (IsQuiet-closes (capture_accept d.clients fd).1, refl))
  step-Counts has_snap d (input fd is_mouse as_ now_ns gone) small =
      quiet-Counts has_snap d (on_input fp atof d fd is_mouse as_ now_ns gone) small
        (keeps-on_input fp atof d fd is_mouse as_ now_ns gone)

  ticks-cons : (r : Ready) (rs : List Ready) → ticks (r ∷ rs) ≡ ticks (r ∷ []) + ticks rs
  unfolding ticks
  ticks-cons (timer true now_ns) rs = omega arith
  ticks-cons (timer false now_ns) rs = omega arith
  ticks-cons (control events) rs = omega arith
  ticks-cons host_report rs = omega arith
  ticks-cons (notify ns) rs = omega arith
  ticks-cons (connect fd) rs = omega arith
  ticks-cons (input fd is_mouse as_ now_ns gone) rs = omega arith

  -- Whatever the descriptors report, in whatever order: one report is handed to the writer thread
  -- for each time that the timer is read, whether the snapshot file is open or not; the reports that
  -- go into that file are exactly every tenth of these if it is open, by the counter, which holds the
  -- rest of the count, and none if it is not.
  pub reports_follow_ticks :
      (has_snap : Bool) (d : Daemon Double) (rs : List Ready)
      → d.snap_counter < 10
      → let (d', effects) = run fp atof has_snap d rs in
        (length (submissions effects) ≡ ticks rs)
        × (snapshots effects ≡ stored has_snap d.snap_counter (submissions effects))
        × (d'.snap_counter ≡ counter_after has_snap d.snap_counter (ticks rs))
  unfolding run Counts
  reports_follow_ticks has_snap d [] small =
      unfold submissions snapshots ticks in
      (refl, sym (stored-nil has_snap d.snap_counter), counter_still has_snap d.snap_counter small)
  reports_follow_ticks has_snap d (r ∷ rs) small =
      let first = step fp atof has_snap d r in
      let (sent, tenths, count) = step-Counts has_snap d r small in
      let below = counter_after_below has_snap d.snap_counter (ticks (r ∷ [])) small in
      let (more_sent, more_stored, more_count) =
        reports_follow_ticks has_snap first.0 rs (rw count below) in
      let rest = (run fp atof has_snap first.0 rs).1 in
      let both = submissions-append first.1 rest in
      (
        rw (both, length-append (submissions first.1) (submissions rest), ticks-cons r rs)
            (omega (arith, sent, more_sent)),
        snapshots-append first.1 rest
            ∙ ap (λ (es : List (List ℕ)). snapshots first.1 ++ es) more_stored
            ∙ sym (tenths (submissions rest))
            ∙ ap (stored has_snap d.snap_counter) (sym both),
        more_count
            ∙ ap (λ c. counter_after has_snap c (ticks rs)) count
            ∙ counter_twice has_snap d.snap_counter (ticks (r ∷ [])) (ticks rs)
            ∙ ap (counter_after has_snap d.snap_counter) (sym (ticks-cons r rs)),
      )
