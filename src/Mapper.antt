-- ===== src/Mapper.antt =====
-- The mapper's state and its event handler (recipes-apps/kbm-mapper-ff/files/mapper.h, mapper.c).
pub mod Float
pub mod Pressed
pub mod Samples
pub mod Frames
pub mod History
pub mod Keys
pub mod Burst
pub mod Stick
pub mod BuildReport
pub mod Core
use meta_dualsense.Prelude.{
  ℕ, zero, suc, ◌+◌, ◌-◌, ◌%◌, ◌≤◌, ◌<◌, Bool, true, false, not, ◌&&◌, ◌||◌, List, [], ◌∷◌, ◌==◌,
  ltb, leb, if◌then◌else◌, set, replicate,
}
use meta_dualsense.Prelude.Int.{ℤ, pos, ◌+ℤ◌, ◌*ℤ◌, eqb_ℤ, wrap32}
use meta_dualsense.Prelude.Bits.{has_bit, set_bit, clear_bit}
use meta_dualsense.Input.{InputEvent, ev_key, ev_rel, ev_syn, rel_x, rel_y, btn_mouse}
use meta_dualsense.Report.{ds_act_none, ds_act_max}
use meta_dualsense.Config.{Config}

pub record MouseSample : Type 0 where
  pub t_ns : ℤ
  pub dx : ℤ
  pub dy : ℤ

abbrev pub kbm_sample_ring_cap : ℕ
kbm_sample_ring_cap = 256

-- `struct mapper` without the pointer to the configuration, which the functions take as an
-- argument. Bitmaps are 64-bit words, times readings of CLOCK_MONOTONIC in ns, `seq` a byte.
pub record Mapper (Double : Type 0) : Type 0 where
  pub pressed_lo : ℕ
  pub pressed_hi : ℕ
  pub pending_dx : ℤ
  pub pending_dy : ℤ
  pub ring : List MouseSample
  pub ring_head : ℕ
  pub ring_count : ℕ
  pub debt_x : Double
  pub debt_y : Double
  pub pressed_since_ns : List ℕ
  pub seq : ℕ

abbrev pub no_sample : MouseSample
no_sample = record { t_ns = pos 0; dx = pos 0; dy = pos 0 }

-- `a == DS_ACT_NONE || a >= DS_ACT_MAX`
abbrev pub no_action : ℕ → Bool
no_action a = a == ds_act_none || leb ds_act_max a

-- The time of an event in ns
abbrev pub event_ns : InputEvent → ℤ
event_ns e = e.sec *ℤ pos 1000000000 +ℤ e.usec *ℤ pos 1000

-- `pending += value` in an `int32_t`, with two's complement wrap-around
abbrev pub add32 : ℤ → ℤ → ℤ
add32 a b = wrap32 (a +ℤ b)

module _ {Double : Type 0} where
  -- The zeroed state; the argument is the double of which every byte is 0.
  unfoldable pub mapper_init : Double → Mapper Double
  mapper_init z = record {
    pressed_lo = 0;
    pressed_hi = 0;
    pending_dx = pos 0;
    pending_dy = pos 0;
    ring = replicate kbm_sample_ring_cap no_sample;
    ring_head = 0;
    ring_count = 0;
    debt_x = z;
    debt_y = z;
    pressed_since_ns = replicate ds_act_max 0;
    seq = 0;
  }

  unfoldable pub set_action : Mapper Double → ℕ → Bool → Mapper Double
  set_action m a down =
      if no_action a
      then m
      else if ltb a 64
      then record m {
        pressed_lo =
            if down then set_bit m.pressed_lo (a % 64) else clear_bit 64 m.pressed_lo (a % 64);
      }
      else record m {
        pressed_hi =
            if down then set_bit m.pressed_hi (a % 64) else clear_bit 64 m.pressed_hi (a % 64);
      }

  unfoldable pub is_pressed : Mapper Double → ℕ → Bool
  is_pressed m a =
      if no_action a
      then false
      else has_bit (if ltb a 64 then m.pressed_lo else m.pressed_hi) (a % 64)

  -- The action of a key or button code, at most 0x2ff
  unfoldable pub action_of : Config Double → ℕ → ℕ
  action_of cfg code =
      if leb btn_mouse code && ltb code (btn_mouse + 16)
      then cfg.btn_action (code % 256)
      else cfg.key_action code

  unfoldable pub push_sample : Mapper Double → ℤ → Mapper Double
  push_sample m t =
      let idx = m.ring_head in
      record m {
        ring = set m.ring idx (record { t_ns = t; dx = m.pending_dx; dy = m.pending_dy });
        ring_head = (idx + 1) % kbm_sample_ring_cap;
        ring_count =
            if ltb m.ring_count kbm_sample_ring_cap then m.ring_count + 1 else m.ring_count;
        pending_dx = pos 0;
        pending_dy = pos 0;
      }

  unfoldable pub mapper_handle_event : Config Double → Mapper Double → InputEvent → Mapper Double
  mapper_handle_event cfg m e =
      if e.type == ev_key
      then (if leb 0x300 e.code
          then m
          else set_action m (action_of cfg e.code) (not (eqb_ℤ e.value (pos 0))))
      else if e.type == ev_rel
      then (if e.code == rel_x
          then record m { pending_dx = add32 m.pending_dx e.value }
          else if e.code == rel_y
          then record m { pending_dy = add32 m.pending_dy e.value }
          else m)
      else if e.type == ev_syn
      then (if not (eqb_ℤ m.pending_dx (pos 0)) || not (eqb_ℤ m.pending_dy (pos 0))
          then push_sample m (event_ns e)
          else m)
      else m
