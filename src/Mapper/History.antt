-- ===== src/Mapper/History.antt =====
-- The mapper's samples are the last 256 frames of motion.
use meta_dualsense.Prelude.{
  ℕ, suc, ◌+◌, ◌≤◌, ◌<◌, ◌≡◌, refl, ap, ap₂, sym, ◌∙◌, inl, inr, Bool, Bool-cases, true, false, not,
  ◌&&◌, ◌||◌, List, [], ◌∷◌, ◌==◌, ltb, leb, if◌then◌else◌, length, length-set, length-replicate,
  take, arith,
}
use meta_dualsense.Prelude.Int.{ℤ, pos, eqb_ℤ}
use meta_dualsense.Input.{InputEvent, ev_key, ev_rel, ev_syn, rel_x, rel_y}
use meta_dualsense.Config.{Config}
use meta_dualsense.Mapper.{
  MouseSample, Mapper, no_sample, push_sample, mapper_handle_event, mapper_init, set_action,
  action_of, add32, event_ns,
}
use meta_dualsense.Mapper.Frames.{Frames, moved, ended, frame_step, frames, no_frames}
use meta_dualsense.Mapper.Samples.{
  recent, recent-push, take-recent, length-recent, take_all, take-take,
}

module _ {Double : Type 0} where
  pub record IsValid (m : Mapper Double) : Type 0 where
    pub size : length m.ring ≡ 256
    pub head : m.ring_head < 256
    pub count : m.ring_count ≤ 256

  abbrev pub samples : Mapper Double → List MouseSample
  samples m = recent m.ring m.ring_head m.ring_count

  abbrev pub sample_of : Mapper Double → ℤ → MouseSample
  sample_of m t = record { t_ns = t; dx = m.pending_dx; dy = m.pending_dy }

  samples-push_sample :
      (m : Mapper Double) (t : ℤ)
      → IsValid m
      → samples (push_sample m t) ≡ take 256 (sample_of m t ∷ samples m)
  unfolding push_sample
  samples-push_sample m t v = elim (Bool-cases (ltb m.ring_count 256)) [
    | inl room ↦
        let more : m.ring_count + 1 ≡ suc m.ring_count = omega arith in
        rw (room, more)
          (recent-push m.ring m.ring_head m.ring_count (sample_of m t) v.size v.head (ground arith)
            ∙ ap (λ (r : List MouseSample). sample_of m t ∷ r)
                (sym (
                  take_all (samples m) 255
                    (ground (arith, length-recent m.ring m.ring_head m.ring_count)))))
    | inr none_left ↦
        let full : m.ring_count ≡ 256 = ground (arith, v) in
        rw (none_left, full)
          (recent-push m.ring m.ring_head 255 (sample_of m t) v.size v.head (omega arith)
            ∙ ap (λ (r : List MouseSample). sample_of m t ∷ r)
                (sym (take-recent m.ring m.ring_head 255 256 (omega arith))))
  ]

  push_sample-IsValid : (m : Mapper Double) (t : ℤ) → IsValid m → IsValid (push_sample m t)
  unfolding push_sample
  push_sample-IsValid m t v = ground (arith, v, length-set m.ring m.ring_head (sample_of m t))

module _ {Double : Type 0} (cfg : Config Double) where
  unfoldable pub run : Mapper Double → List InputEvent → Mapper Double
  run m [] = m
  run m (e ∷ events) = run (mapper_handle_event cfg m e) events

  record Tracks (m : Mapper Double) (f : Frames) : Type 0 where
    valid : IsValid m
    dx : m.pending_dx ≡ f.dx
    dy : m.pending_dy ≡ f.dy
    recorded : samples m ≡ take 256 f.all

  pushed-Tracks :
      (m : Mapper Double) (f : Frames) (t : ℤ)
      → Tracks m f
      → Tracks (push_sample m t) (record {
        dx = pos 0;
        dy = pos 0;
        all = record { t_ns = t; dx = f.dx; dy = f.dy } ∷ f.all;
      })
  pushed-Tracks m f t r = record {
    valid = push_sample-IsValid m t r.valid;
    dx = unfold push_sample in refl;
    dy = unfold push_sample in refl;
    recorded =
        samples-push_sample m t r.valid
        ∙ ap₂ (λ (x : MouseSample) (xs : List MouseSample). x ∷ take 255 xs) (cc (r.dx, r.dy))
            r.recorded
        ∙ ap (λ (xs : List MouseSample). record { t_ns = t; dx = f.dx; dy = f.dy } ∷ xs)
            (take-take 255 256 f.all (omega arith));
  }

  same_ring :
      (m : Mapper Double) (a : ℕ) (down : Bool)
      → ((set_action m a down).ring ≡ m.ring)
        × ((set_action m a down).ring_head ≡ m.ring_head)
        × ((set_action m a down).ring_count ≡ m.ring_count)
        × ((set_action m a down).pending_dx ≡ m.pending_dx)
        × ((set_action m a down).pending_dy ≡ m.pending_dy)
  unfolding set_action
  same_ring m a down = ground (arith)

  set_action-Tracks :
      (m : Mapper Double) (f : Frames) (a : ℕ) (down : Bool)
      → Tracks m f
      → Tracks (set_action m a down) f
  set_action-Tracks m f a down r =
      let (ring, head, count, dx, dy) = same_ring m a down in
      record {
        valid = record {
          size = rw ring r.valid.size;
          head = rw head r.valid.head;
          count = rw count r.valid.count;
        };
        dx = dx ∙ r.dx;
        dy = dy ∙ r.dy;
        recorded = rw (ring, head, count) r.recorded;
      }

  key-Tracks :
      (m : Mapper Double) (f : Frames) (e : InputEvent)
      → Tracks m f
      → Tracks
          (if leb 0x300 e.code
            then m
            else set_action m (action_of cfg e.code) (not (eqb_ℤ e.value (pos 0))))
          f
  key-Tracks m f e r = elim (Bool-cases (leb 0x300 e.code)) [
    | inl large ↦ rw large r
    | inr small ↦
        rw small (set_action-Tracks m f (action_of cfg e.code) (not (eqb_ℤ e.value (pos 0))) r)
  ]

  rel-Tracks :
      (m : Mapper Double) (f : Frames) (e : InputEvent)
      → Tracks m f
      → Tracks
          (if e.code == rel_x
            then record m { pending_dx = add32 m.pending_dx e.value }
            else if e.code == rel_y
            then record m { pending_dy = add32 m.pending_dy e.value }
            else m)
          (moved f e.code e.value)
  unfolding moved
  rel-Tracks m f e r = elim (Bool-cases (e.code == rel_x)) [
    | inl x ↦ rw x (
        (record {
          valid = record { size = r.valid.size; head = r.valid.head; count = r.valid.count };
          dx = ap (λ d. add32 d e.value) r.dx;
          dy = r.dy;
          recorded = r.recorded;
        }))
    | inr not_x ↦ elim (Bool-cases (e.code == rel_y)) [
      | inl y ↦
          rw (not_x, y)
            (record {
              valid = record { size = r.valid.size; head = r.valid.head; count = r.valid.count };
              dx = r.dx;
              dy = ap (λ d. add32 d e.value) r.dy;
              recorded = r.recorded;
            })
      | inr not_y ↦ rw (not_x, not_y) r
    ]
  ]

  syn-Tracks :
      (m : Mapper Double) (f : Frames) (e : InputEvent)
      → Tracks m f
      → Tracks
          (if not (eqb_ℤ m.pending_dx (pos 0)) || not (eqb_ℤ m.pending_dy (pos 0))
            then push_sample m (event_ns e)
            else m)
          (ended f e)
  unfolding ended
  syn-Tracks m f e r = elim (Bool-cases (eqb_ℤ f.dx (pos 0) && eqb_ℤ f.dy (pos 0))) [
    | inl still ↦
        let quiet : (not (eqb_ℤ m.pending_dx (pos 0)) || not (eqb_ℤ m.pending_dy (pos 0))) ≡ false =
          rw (r.dx, r.dy) (ground (arith)) in
        rw (still, quiet) r
    | inr motion ↦
        let moves : (not (eqb_ℤ m.pending_dx (pos 0)) || not (eqb_ℤ m.pending_dy (pos 0))) ≡ true =
          rw (r.dx, r.dy) (ground (arith)) in
        rw (motion, moves) (pushed-Tracks m f (event_ns e) r)
  ]

  step-Tracks :
      (m : Mapper Double) (f : Frames) (e : InputEvent)
      → Tracks m f
      → Tracks (mapper_handle_event cfg m e) (frame_step f e)
  unfolding mapper_handle_event frame_step
  step-Tracks m f e r = elim (Bool-cases (e.type == ev_key)) [
    | inl key ↦ let one : e.type ≡ 1 = ground (arith) in rw one (key-Tracks m f e r)
    | inr not_key ↦ elim (Bool-cases (e.type == ev_rel)) [
      | inl rel ↦ let two : e.type ≡ 2 = ground (arith) in rw two (rel-Tracks m f e r)
      | inr not_rel ↦ elim (Bool-cases (e.type == ev_syn)) [
        | inl syn ↦ let none : e.type ≡ 0 = ground (arith) in rw none (syn-Tracks m f e r)
        | inr not_syn ↦ rw (not_key, not_rel, not_syn) r
      ]
    ]
  ]

  run-Tracks :
      (m : Mapper Double) (f : Frames) (events : List InputEvent)
      → Tracks m f
      → Tracks (run m events) (frames f events)
  unfolding run frames
  run-Tracks m f [] r = r
  run-Tracks m f (e ∷ events) r =
      run-Tracks (mapper_handle_event cfg m e) (frame_step f e) events (step-Tracks m f e r)

  mapper_init-Tracks : (z : Double) → Tracks (mapper_init z) no_frames
  unfolding mapper_init recent
  mapper_init-Tracks z = record {
    valid = record {
      size = length-replicate 256 no_sample;
      head = omega arith;
      count = omega arith;
    };
    dx = refl;
    dy = refl;
    recorded = refl;
  }

  pub run-IsValid : (z : Double) (events : List InputEvent) → IsValid (run (mapper_init z) events)
  run-IsValid z events = (run-Tracks (mapper_init z) no_frames events (mapper_init-Tracks z)).valid

  -- After any sequence of events from the initial state, the ring holds exactly the latest 256
  -- frames that moved the mouse, in order, each with the sum of its motion in 32 bits and the time
  -- of its report event; and the pending counts are the motion of the frame under way.
  pub run_records :
      (z : Double) (events : List InputEvent)
      → (samples (run (mapper_init z) events) ≡ take 256 (frames no_frames events).all)
        × ((run (mapper_init z) events).pending_dx ≡ (frames no_frames events).dx)
        × ((run (mapper_init z) events).pending_dy ≡ (frames no_frames events).dy)
  run_records z events =
      let r = run-Tracks (mapper_init z) no_frames events (mapper_init-Tracks z) in
      (r.recorded, r.dx, r.dy)
