-- ===== src/Mapper/BuildReport/Bytes.antt =====
-- The report has the length of the buffer, and bytes only; its sequence number and time stamp.
use meta_dualsense.Prelude.{
  ℕ, ◌+◌, ◌*◌, ◌/◌, ◌%◌, ◌^◌, ◌<◌, ◌≤◌, ◌≡◌, refl, ap, ◌∙◌, false, List, ltb, get_or, replicate,
  length, length-replicate, arith,
}
use meta_dualsense.Report.{
  ds_report_len, ds_act_lstick_up, ds_act_lstick_down, ds_act_lstick_left, ds_act_lstick_right,
}
use meta_dualsense.Config.{Config}
use meta_dualsense.Mapper.{Mapper}
use meta_dualsense.Mapper.Float.{Float}
use meta_dualsense.Mapper.Burst.{burst_tick}
use meta_dualsense.Mapper.Stick.{left_stick_axis, stick_clamp_pair, window_sum, mouse_to_stick}
use meta_dualsense.Mapper.BuildReport.{written, time_stamp, report_writes, mapper_build_report}
use meta_dualsense.Mapper.BuildReport.Writes.{
  last_value, length-written, AreBytes, last_value-lt, get_or-report,
}
use meta_dualsense.Mapper.BuildReport.Limits.{
  axis-lt, clamp_pair-lt, mouse_to_stick-lt, seq-mouse_to_stick, writes-AreBytes,
}

module _ (fp : Float) where
  open fp use {Double}

  writes_head :
      (cfg : Config Double) (m : Mapper Double) (left right : ℕ × ℕ) (now_ns : ℕ)
      → let ws = report_writes fp cfg m left right now_ns in
        (last_value ws 7 0 ≡ m.seq)
        × (last_value ws 11 0 ≡ time_stamp now_ns % 256)
        × (last_value ws 12 0 ≡ time_stamp now_ns / 2 ^ 8 % 256)
        × (last_value ws 13 0 ≡ time_stamp now_ns / 2 ^ 16 % 256)
        × (last_value ws 14 0 ≡ time_stamp now_ns / 2 ^ 24 % 256)
  unfolding report_writes last_value
  writes_head cfg m left right now_ns = (refl, refl, refl, refl, refl)

  -- What the writes make of a buffer
  written_bytes :
      (cfg : Config Double) (m : Mapper Double) (left right : ℕ × ℕ) (len now_ns : ℕ)
      → ds_report_len ≤ len
      → AreBytes (report_writes fp cfg m left right now_ns)
      → let report = written (report_writes fp cfg m left right now_ns) (replicate len 0) in
        (length report ≡ len)
        × ((j : ℕ) → j < len → get_or report j 0 < 256)
        × (get_or report 7 0 ≡ m.seq)
        × (get_or report 11 0
              + 2 ^ 8 * get_or report 12 0
              + 2 ^ 16 * get_or report 13 0
              + 2 ^ 24 * get_or report 14 0
            ≡ now_ns / 1000 / 333 % 2 ^ 32)
  written_bytes cfg m left right len now_ns h b =
      let ws = report_writes fp cfg m left right now_ns in
      let at : (j : ℕ) → j < len → get_or (written ws (replicate len 0)) j 0 ≡ last_value ws j 0 =
        get_or-report ws len in
      let (q, t0, t1, t2, t3) = writes_head cfg m left right now_ns in
      (
        length-written ws (replicate len 0) ∙ length-replicate len 0,
        λ j k. rw (at j k) (last_value-lt ws j 0 (omega arith) b),
        at 7 (omega arith) ∙ q,
        omega (
          arith,
          at 11 (omega arith),
          at 12 (omega arith),
          at 13 (omega arith),
          at 14 (omega arith),
          t0,
          t1,
          t2,
          t3,
        ),
      )

  report_all :
      (cfg : Config Double) (m : Mapper Double) (buf : List ℕ) (len now_ns : ℕ)
      → ds_report_len ≤ len
      → m.seq < 256
      → let (m', report) = mapper_build_report fp cfg m buf len now_ns in
        (length report ≡ len)
        × ((j : ℕ) → j < len → get_or report j 0 < 256)
        × (get_or report 7 0 ≡ m.seq)
        × (get_or report 11 0
              + 2 ^ 8 * get_or report 12 0
              + 2 ^ 16 * get_or report 13 0
              + 2 ^ 24 * get_or report 14 0
            ≡ now_ns / 1000 / 333 % 2 ^ 32)
        × (m'.seq ≡ (m.seq + 1) % 256)
  unfolding mapper_build_report burst_tick
  report_all cfg m buf len now_ns h s =
      let m1 = burst_tick m now_ns in
      let (dx, dy, dt_ms) = window_sum fp cfg m1 now_ns in
      let moved = mouse_to_stick fp cfg m1 (fp.div dx dt_ms) (fp.div dy dt_ms) in
      let bounds = mouse_to_stick-lt fp cfg m1 (fp.div dx dt_ms) (fp.div dy dt_ms) in
      let lx = left_stick_axis m1 ds_act_lstick_left ds_act_lstick_right in
      let ly = left_stick_axis m1 ds_act_lstick_up ds_act_lstick_down in
      let left = clamp_pair-lt fp lx ly (axis-lt m1 _ _) (axis-lt m1 _ _) in
      let seq = seq-mouse_to_stick fp cfg m1 (fp.div dx dt_ms) (fp.div dy dt_ms) in
      let long : ltb len ds_report_len ≡ false = ground arith in
      let (n, all, q, t) =
        written_bytes cfg moved.0 (stick_clamp_pair fp lx ly) (moved.1, moved.2) len now_ns h
          (writes-AreBytes fp cfg moved.0 (stick_clamp_pair fp lx ly) (moved.1, moved.2) now_ns
            left.0 left.1 bounds.0 bounds.1 (rw seq s)) in
      rw long (n, all, q ∙ seq, t, ap (λ (k : ℕ). (k + 1) % 256) seq)

  -- For a buffer of at least 64 bytes and a sequence number in a byte: the report is as long as the
  -- buffer, element `j` of it is a byte, byte 7 is the sequence number, and bytes 11 to 14 are the
  -- little-endian 32-bit count of 333 us units of the time; the next sequence number is one more, and
  -- 0 behind 255.
  pub report_bytes :
      (cfg : Config Double) (m : Mapper Double) (buf : List ℕ) (len now_ns j : ℕ)
      → ds_report_len ≤ len
      → m.seq < 256
      → j < len
      → let (m', report) = mapper_build_report fp cfg m buf len now_ns in
        (length report ≡ len)
        × (get_or report j 0 < 256)
        × (get_or report 7 0 ≡ m.seq)
        × (get_or report 11 0
              + 2 ^ 8 * get_or report 12 0
              + 2 ^ 16 * get_or report 13 0
              + 2 ^ 24 * get_or report 14 0
            ≡ now_ns / 1000 / 333 % 2 ^ 32)
        × (m'.seq ≡ (m.seq + 1) % 256)
  report_bytes cfg m buf len now_ns j h s k =
      let (n, all, q, t, next) = report_all cfg m buf len now_ns h s in (n, all j k, q, t, next)
