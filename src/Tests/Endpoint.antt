-- ===== src/Tests/Endpoint.antt =====
-- The parts of dualsense-ffsd at concrete inputs.
use meta_dualsense.Prelude.{
  ℕ, ◌≡◌, ◌≤◌, ◌+◌, refl, min, true, ◌||◌, Option, some, List, [], ◌∷◌, if◌then◌else◌, length, take,
  get_elem?, arith,
}
use meta_dualsense.Ffsd.Descriptor.{dualsense_report_descriptor}
use meta_dualsense.Ffsd.Features.{find_feature_report}
use meta_dualsense.Ffsd.Features.Advertised.{advertised, size_of, advertised_lem}
use meta_dualsense.Ffsd.Setup.{CtrlRequest, respond, handle_setup}
use meta_dualsense.Ffsd.Setup.Bounds.{IsProper, handle_setup-IsProper, get_feature_served}
use meta_dualsense.Ffsd.Slots.{InputSlot, input_slots_init, plug}
use meta_dualsense.Ffsd.Slots.Table.{tracks, holds_fd, is_full}
use meta_dualsense.Ffsd.Slots.Plugging.{
  IsValid, watched, settled, plug-IsValid, plug_outcome, init-IsValid,
}
use meta_dualsense.Ffsd.Capture.Eviction.{accept_all, used, last_of, all_but_last, accept_all_full}
use meta_dualsense.Ffsd.Writer.{
  Writer, started, submit, request_stop, take_report, wrote, submits, takes, writes, Reach, here,
  next,
}
use meta_dualsense.Ffsd.Writer.Order.{Sublist, written_in_order}
use meta_dualsense.Ffsd.Writer.Shutdown.{
  in_flight, stopped_writes_in_flight, Alone, idle, then_step, steps_left, with_held, GoesOn,
  stopped_exits,
}

-- GET_REPORT(Feature, 5) with room for 64 bytes
abbrev calibration : CtrlRequest
calibration = record { request_type = 0xA1; request = 1; value = 0x305; index = 0; length = 64 }

handle_setup-IsProper_example : IsProper calibration (handle_setup calibration)
handle_setup-IsProper_example = handle_setup-IsProper calibration

get_feature_served_example :
    (bytes : List ℕ) × (length bytes ≡ 41)
    × (get_elem? bytes 0 ≡ some 5)
    × (handle_setup calibration ≡ respond (take (min 41 64) bytes))
unfolding advertised dualsense_report_descriptor
get_feature_served_example =
    get_feature_served calibration 41 (refl, refl, refl, refl) (omega arith) refl

advertised_lem_example : advertised 5 ≡ size_of (find_feature_report 5)
advertised_lem_example = advertised_lem 5 (omega arith)

-- The device at a path that is one byte opens as descriptor 7.
abbrev opens : List ℕ → Option ℕ
opens path = some 7

abbrev one_device : List InputSlot
one_device = (plug opens input_slots_init (49 ∷ [])).0

plug-IsValid_example : IsValid (plug opens input_slots_init (49 ∷ [])).0
plug-IsValid_example =
    plug-IsValid opens input_slots_init (49 ∷ []) refl (unfold holds_fd in refl) init-IsValid

plug_outcome_example :
    let (slots', effects) = plug opens input_slots_init (49 ∷ []) in
    (effects ≡ (
      if tracks input_slots_init (49 ∷ [])
      then []
      else settled (49 ∷ []) (is_full input_slots_init) (some 7)))
    × ((g : ℕ) → holds_fd slots' g ≡ (holds_fd input_slots_init g || watched effects g))
plug_outcome_example = plug_outcome opens input_slots_init (49 ∷ [])

accept_all_full_example :
    accept_all (used (1 ∷ 2 ∷ 3 ∷ 4 ∷ [])) (5 ∷ 6 ∷ [])
    ≡ (used (last_of 1 (5 ∷ 6 ∷ []) ∷ 2 ∷ 3 ∷ 4 ∷ []), all_but_last 1 (5 ∷ 6 ∷ []))
accept_all_full_example = accept_all_full 1 (2 ∷ 3 ∷ 4 ∷ []) (5 ∷ 6 ∷ [])

-- A report is submitted and taken.
abbrev busy : Writer
busy = take_report (submit (9 ∷ []) started)

Reach-busy : Reach started busy
unfolding submit
Reach-busy = next (next here (submits (9 ∷ []))) (takes refl refl refl)

written_in_order_example : Sublist busy.written busy.submitted
written_in_order_example = written_in_order Reach-busy

abbrev stopping : Writer
stopping = request_stop busy

stopped_writes_in_flight_example :
    ((submit (8 ∷ []) stopping).stop ≡ true)
    × (length (submit (8 ∷ []) stopping).written + in_flight (submit (8 ∷ []) stopping).phase
        ≤ length stopping.written + in_flight stopping.phase)
unfolding request_stop
stopped_writes_in_flight_example = stopped_writes_in_flight (next here (submits (8 ∷ []))) refl

-- The report that the thread holds is written.
abbrev last_written : Writer
last_written = wrote (9 ∷ []) stopping

writes_it : Alone stopping 1 last_written
unfolding take_report request_stop submit
writes_it = then_step idle (writes (9 ∷ []) refl) tt

stopped_exits_example :
    (last_written.stop ≡ true)
    × (1 + steps_left last_written.phase ≡ steps_left stopping.phase)
    × (with_held last_written.phase last_written.written
        ≡ with_held stopping.phase stopping.written)
    × GoesOn last_written
unfolding request_stop
stopped_exits_example = stopped_exits writes_it refl
