-- ===== src/Passthrough/Loop/Modifiers.antt =====
-- The modifier byte and the button byte bit by bit.
use meta_dualsense.Prelude.{
  List, Option, none, some, Bool-cases, refl, ℕ, ◌<◌, ◌≡◌, ◌≢◌, inl, inr, Bool, true, false, ◌==◌,
  if◌then◌else◌, arith,
}
use meta_dualsense.Prelude.Bits.{
  single, has_bit, set_bit, clear_bit, has_bit-set_bit, has_bit-clear_bit, mask_below,
  mask_below_cases, single_eq, one-le-single,
}
use meta_dualsense.Passthrough.Keymap.{key_to_hid, kbd_modifier_bit, btn_to_bit}
use meta_dualsense.Passthrough.Keyboard.{KbdState, kbd_press, kbd_release, stored, replace_first}
use meta_dualsense.Passthrough.Mouse.{MouseState, mouse_flush}
use meta_dualsense.Passthrough.Loop.{put_bit, apply_key, key_to_kbd, key_to_mouse}

kbd_modifier_bit_mask : (code : ℕ) → mask_below 8 (kbd_modifier_bit code) ≡ true
unfolding mask_below kbd_modifier_bit
kbd_modifier_bit_mask code = ground arith

btn_to_bit_mask : (code : ℕ) → mask_below 8 (btn_to_bit code) ≡ true
unfolding mask_below btn_to_bit
btn_to_bit_mask code = ground arith

put_bit-single :
    (down : Bool) (w k j : ℕ)
    → k < 8
    → j < 8
    → has_bit (put_bit down w (single k)) j ≡ (if k == j then down else has_bit w j)
unfolding put_bit
put_bit-single true w k j hk hj = unfold set_bit in has_bit-set_bit w k j
put_bit-single false w k j hk hj = unfold clear_bit in has_bit-clear_bit 8 w k j hk hj

has_bit-put_bit :
    (down : Bool) (w b j : ℕ)
    → mask_below 8 b ≡ true
    → b ≢ 0
    → j < 8
    → has_bit (put_bit down w b) j ≡ (if b == single j then down else has_bit w j)
has_bit-put_bit down w b j m n h = elim (mask_below_cases 8 b m) [
  | inl z ↦ absurd (n z)
  | inr (k, lt, e) ↦ rw (e, single_eq) (put_bit-single down w k j lt h)
]

modifiers-stored : (s : KbdState) (o : Option (List ℕ)) → (stored s o).0.modifiers ≡ s.modifiers
modifiers-stored s none = refl
modifiers-stored s (some keys) = refl

pub modifiers-apply_key :
    (down : Bool) (s : KbdState) (usage : ℕ) → (apply_key down s usage).modifiers ≡ s.modifiers
unfolding kbd_press kbd_release
modifiers-apply_key true s usage = ground (arith, modifiers-stored s (replace_first 0 usage s.keys))
modifiers-apply_key false s usage = modifiers-stored s (replace_first usage 0 s.keys)

-- After the press or release of a key, bit `j` of the modifier byte tells whether the key is down
-- if `j` is the bit of that key, and is otherwise as it was.
modifiers_follow :
    (s : KbdState) (code j : ℕ) (down : Bool)
    → j < 8
    → has_bit (key_to_kbd s code down).0.modifiers j
      ≡ (if kbd_modifier_bit code == single j then down else has_bit s.modifiers j)
unfolding key_to_kbd
modifiers_follow s code j down h =
    let b = kbd_modifier_bit code in
    elim (Bool-cases (b == 0)) [
      | inl z ↦ ground (arith, one-le-single j, modifiers-apply_key down s (key_to_hid code))
      | inr other ↦
          rw other
            (has_bit-put_bit down s.modifiers b j (kbd_modifier_bit_mask code) (ground arith) h)
    ]

-- After the press or release of a button, bit `j` of the button byte tells whether the button is
-- down if `j` is the bit of that button, and is otherwise as it was.
buttons_follow :
    (s : MouseState) (code j : ℕ) (down : Bool)
    → j < 8
    → has_bit (key_to_mouse s code down).0.buttons j
      ≡ (if btn_to_bit code == single j then down else has_bit s.buttons j)
unfolding key_to_mouse mouse_flush
buttons_follow s code j down h =
    let b = btn_to_bit code in
    elim (Bool-cases (b == 0)) [
      | inl z ↦ ground (arith, one-le-single j)
      | inr other ↦
          rw other (has_bit-put_bit down s.buttons b j (btn_to_bit_mask code) (ground arith) h)
    ]
