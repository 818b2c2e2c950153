-- ===== src/Mapper/Core.antt =====
-- The part of the mapper's state that only its events change, and no report.
use meta_dualsense.Prelude.{
  ℕ, ◌≡◌, refl, ◌∙◌, ap, Bool, true, false, not, ◌||◌, List, [], ◌∷◌, if◌then◌else◌, leb, ltb, ◌==◌,
  ◌%◌, replicate,
}
use meta_dualsense.Prelude.Int.{ℤ, pos, eqb_ℤ}
use meta_dualsense.Prelude.Bits.{set_bit, clear_bit}
use meta_dualsense.Input.{InputEvent, ev_key, ev_rel, ev_syn, rel_x, rel_y}
use meta_dualsense.Report.{ds_act_max}
use meta_dualsense.Config.{Config}
use meta_dualsense.Mapper.{
  Mapper, mapper_init, mapper_handle_event, set_action, push_sample, is_pressed, action_of,
  no_action, add32, event_ns,
}
use meta_dualsense.Mapper.Float.{Float}
use meta_dualsense.Mapper.History
use meta_dualsense.Mapper.History.{samples, run_records}
use meta_dualsense.Mapper.Burst.{burst_tick}
use meta_dualsense.Mapper.Stick.{mouse_to_stick, deflect}
use meta_dualsense.Mapper.BuildReport.{mapper_build_report}

module _ {Double : Type 0} (z : Double) where
  -- The mapper's state but for what only the reports change.
  unfoldable pub core : Mapper Double → Mapper Double
  core m = record m { debt_x = z; debt_y = z; pressed_since_ns = replicate ds_act_max 0; seq = 0 }

  pub core-if :
      (b : Bool) (m n k l : Mapper Double)
      → core m ≡ k
      → core n ≡ l
      → core (if b then m else n) ≡ (if b then k else l)
  core-if true m n k l h i = h
  core-if false m n k l h i = i

  pub core-lo :
      (m : Mapper Double) (v : ℕ)
      → core (record m { pressed_lo = v }) ≡ record (core m) { pressed_lo = v }
  unfolding core
  core-lo m v = refl

  pub core-hi :
      (m : Mapper Double) (v : ℕ)
      → core (record m { pressed_hi = v }) ≡ record (core m) { pressed_hi = v }
  unfolding core
  core-hi m v = refl

  pub core-dx :
      (m : Mapper Double) (v : ℤ)
      → core (record m { pending_dx = v }) ≡ record (core m) { pending_dx = v }
  unfolding core
  core-dx m v = refl

  pub core-dy :
      (m : Mapper Double) (v : ℤ)
      → core (record m { pending_dy = v }) ≡ record (core m) { pending_dy = v }
  unfolding core
  core-dy m v = refl

  pub core-push_sample :
      (m : Mapper Double) (t : ℤ) → core (push_sample m t) ≡ push_sample (core m) t
  unfolding core push_sample
  core-push_sample m t = refl

  pub core-debt :
      (m : Mapper Double) (x y : Double) → core (record m { debt_x = x; debt_y = y }) ≡ core m
  unfolding core
  core-debt m x y = refl

  pub core-tick : (m : Mapper Double) (now_ns : ℕ) → core (burst_tick m now_ns) ≡ core m
  unfolding core burst_tick
  core-tick m now_ns = refl

  pub core-seq : (m : Mapper Double) (n : ℕ) → core (record m { seq = n }) ≡ core m
  unfolding core
  core-seq m n = refl

  pub core-set_action :
      (m : Mapper Double) (a : ℕ) (down : Bool)
      → core (set_action m a down) ≡ set_action (core m) a down
  unfolding set_action core
  core-set_action m a down = core-if (no_action a) m _ (core m) _ refl (
      core-if (ltb a 64) _ _ _ _
        (core-lo m
          (if down then set_bit m.pressed_lo (a % 64) else clear_bit 64 m.pressed_lo (a % 64)))
        (core-hi m
          (if down then set_bit m.pressed_hi (a % 64) else clear_bit 64 m.pressed_hi (a % 64))))

  pub core-handle_event :
      (cfg : Config Double) (m : Mapper Double) (e : InputEvent)
      → core (mapper_handle_event cfg m e) ≡ mapper_handle_event cfg (core m) e
  unfolding mapper_handle_event core
  core-handle_event cfg m e =
      let moving = not (eqb_ℤ m.pending_dx (pos 0)) || not (eqb_ℤ m.pending_dy (pos 0)) in
      core-if (e.type == ev_key) _ _ _ _
        (core-if (leb 0x300 e.code) m _ (core m) _ refl
          (core-set_action m (action_of cfg e.code) (not (eqb_ℤ e.value (pos 0)))))
        (core-if (e.type == ev_rel) _ _ _ _
          (core-if (e.code == rel_x) _ _ _ _ (core-dx m (add32 m.pending_dx e.value)) (
            core-if (e.code == rel_y) _ m _ (core m) (core-dy m (add32 m.pending_dy e.value)) refl))
          (core-if (e.type == ev_syn) _ m _ (core m)
            (core-if moving _ m _ (core m) (core-push_sample m (event_ns e)) refl) refl))

  pub core-run :
      (cfg : Config Double) (m : Mapper Double) (es : List InputEvent)
      → core (History.run cfg m es) ≡ History.run cfg (core m) es
  unfolding History.run
  core-run cfg m [] = refl
  core-run cfg m (e ∷ es) =
      core-run cfg (mapper_handle_event cfg m e) es
      ∙ ap (λ k. History.run cfg k es) (core-handle_event cfg m e)

  pub is_pressed-core : (m : Mapper Double) (a : ℕ) → is_pressed (core m) a ≡ is_pressed m a
  unfolding is_pressed core
  is_pressed-core m a = refl

  pub samples-core : (m : Mapper Double) → samples (core m) ≡ samples m
  unfolding core
  samples-core m = refl

  pub core-init : core (mapper_init z) ≡ mapper_init z
  unfolding core mapper_init
  core-init = refl

module _ (fp : Float) (cfg : Config fp.Double) (z : fp.Double) where
  open fp use {Double}

  pub core-pair :
      (b : Bool) (p q : Mapper Double × ℕ × ℕ) (m : Mapper Double)
      → core z p.0 ≡ m
      → core z q.0 ≡ m
      → core z (if b then p else q).0 ≡ m
  core-pair true p q m h k = h
  core-pair false p q m h k = k

  pub core-mouse_to_stick :
      (m : Mapper Double) (vx vy : Double) → core z (mouse_to_stick fp cfg m vx vy).0 ≡ core z m
  unfolding mouse_to_stick deflect
  core-mouse_to_stick m vx vy = core-pair _ _ _ _ (core-debt z m _ _) (core-debt z m _ _)

  pub core-result :
      (b : Bool) (p q : Mapper Double × List ℕ) (m : Mapper Double)
      → core z p.0 ≡ m
      → core z q.0 ≡ m
      → core z (if b then p else q).0 ≡ m
  core-result true p q m h k = h
  core-result false p q m h k = k

  -- A report changes nothing of the rest.
  pub core-build_report :
      (m : Mapper Double) (buf : List ℕ) (len now_ns : ℕ)
      → core z (mapper_build_report fp cfg m buf len now_ns).0 ≡ core z m
  unfolding mapper_build_report
  core-build_report m buf len now_ns =
      core-result _ _ _ _ refl
        (core-seq z _ _ ∙ (core-mouse_to_stick (burst_tick m now_ns) _ _ ∙ core-tick z m now_ns))
