-- ===== src/Mapper/Frames.antt =====
-- The frames of mouse motion that a sequence of events holds, as the mapper should record them.
use meta_dualsense.Prelude.{ℕ, ◌&&◌, List, [], ◌∷◌, ◌==◌, if◌then◌else◌}
use meta_dualsense.Prelude.Int.{ℤ, pos, eqb_ℤ}
use meta_dualsense.Input.{InputEvent, ev_rel, ev_syn, rel_x, rel_y}
use meta_dualsense.Mapper.{MouseSample, add32, event_ns}

-- The specification: the motion of the frame that is under way, and all frames that moved the
-- mouse, the latest first.
pub record Frames : Type 0 where
  pub dx : ℤ
  pub dy : ℤ
  pub all : List MouseSample

unfoldable pub moved : Frames → ℕ → ℤ → Frames
moved f code value =
    if code == rel_x
    then record f { dx = add32 f.dx value }
    else if code == rel_y
    then record f { dy = add32 f.dy value }
    else f

-- A report event ends the frame, which counts if the mouse moved in it.
unfoldable pub ended : Frames → InputEvent → Frames
ended f e = if eqb_ℤ f.dx (pos 0) && eqb_ℤ f.dy (pos 0) then f else record {
  dx = pos 0;
  dy = pos 0;
  all = record { t_ns = event_ns e; dx = f.dx; dy = f.dy } ∷ f.all;
}

unfoldable pub frame_step : Frames → InputEvent → Frames
unfolding moved ended
frame_step f e =
    if e.type == ev_rel then moved f e.code e.value else if e.type == ev_syn then ended f e else f

unfoldable pub frames : Frames → List InputEvent → Frames
frames f [] = f
frames f (e ∷ events) = frames (frame_step f e) events

abbrev pub no_frames : Frames
no_frames = record { dx = pos 0; dy = pos 0; all = [] }
