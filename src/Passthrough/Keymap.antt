-- ===== src/Passthrough/Keymap.antt =====
-- Key and button translation of kbm-passthrough (recipes-apps/kbm-passthrough/files/main.c):
-- Linux key codes to HID usages, modifier keys to bits of the modifier byte, buttons to bits.
pub mod Distinct
use meta_dualsense.Prelude.{ℕ, List, [], ◌∷◌, ◌==◌, if◌then◌else◌}
use meta_dualsense.Input.{
  btn_left, btn_right, btn_middle, key_0, key_1, key_102nd, key_2, key_3, key_4, key_5, key_6,
  key_7, key_8, key_9, key_a, key_apostrophe, key_b, key_backslash, key_backspace, key_c,
  key_capslock, key_comma, key_compose, key_d, key_delete, key_dot, key_down, key_e, key_end,
  key_enter, key_equal, key_esc, key_f, key_f1, key_f10, key_f11, key_f12, key_f2, key_f3, key_f4,
  key_f5, key_f6, key_f7, key_f8, key_f9, key_g, key_grave, key_h, key_home, key_i, key_insert,
  key_j, key_k, key_kp0, key_kp1, key_kp2, key_kp3, key_kp4, key_kp5, key_kp6, key_kp7, key_kp8,
  key_kp9, key_kpasterisk, key_kpdot, key_kpenter, key_kpminus, key_kpplus, key_kpslash, key_l,
  key_left, key_leftalt, key_leftbrace, key_leftctrl, key_leftmeta, key_leftshift, key_m, key_minus,
  key_n, key_numlock, key_o, key_p, key_pagedown, key_pageup, key_pause, key_q, key_r, key_right,
  key_rightalt, key_rightbrace, key_rightctrl, key_rightmeta, key_rightshift, key_s, key_scrolllock,
  key_semicolon, key_slash, key_space, key_sysrq, key_t, key_tab, key_u, key_up, key_v, key_w,
  key_x, key_y, key_z,
}

-- The designated initialisers of `key_to_hid`, in their order.
unfoldable pub key_to_hid_rows : List (ℕ × ℕ)
key_to_hid_rows =
    (key_esc, 0x29)
    ∷ (key_1, 0x1E)
    ∷ (key_2, 0x1F)
    ∷ (key_3, 0x20)
    ∷ (key_4, 0x21)
    ∷ (key_5, 0x22)
    ∷ (key_6, 0x23)
    ∷ (key_7, 0x24)
    ∷ (key_8, 0x25)
    ∷ (key_9, 0x26)
    ∷ (key_0, 0x27)
    ∷ (key_minus, 0x2D)
    ∷ (key_equal, 0x2E)
    ∷ (key_backspace, 0x2A)
    ∷ (key_tab, 0x2B)
    ∷ (key_q, 0x14)
    ∷ (key_w, 0x1A)
    ∷ (key_e, 0x08)
    ∷ (key_r, 0x15)
    ∷ (key_t, 0x17)
    ∷ (key_y, 0x1C)
    ∷ (key_u, 0x18)
    ∷ (key_i, 0x0C)
    ∷ (key_o, 0x12)
    ∷ (key_p, 0x13)
    ∷ (key_leftbrace, 0x2F)
    ∷ (key_rightbrace, 0x30)
    ∷ (key_enter, 0x28)
    ∷ (key_a, 0x04)
    ∷ (key_s, 0x16)
    ∷ (key_d, 0x07)
    ∷ (key_f, 0x09)
    ∷ (key_g, 0x0A)
    ∷ (key_h, 0x0B)
    ∷ (key_j, 0x0D)
    ∷ (key_k, 0x0E)
    ∷ (key_l, 0x0F)
    ∷ (key_semicolon, 0x33)
    ∷ (key_apostrophe, 0x34)
    ∷ (key_grave, 0x35)
    ∷ (key_backslash, 0x31)
    ∷ (key_z, 0x1D)
    ∷ (key_x, 0x1B)
    ∷ (key_c, 0x06)
    ∷ (key_v, 0x19)
    ∷ (key_b, 0x05)
    ∷ (key_n, 0x11)
    ∷ (key_m, 0x10)
    ∷ (key_comma, 0x36)
    ∷ (key_dot, 0x37)
    ∷ (key_slash, 0x38)
    ∷ (key_kpasterisk, 0x55)
    ∷ (key_space, 0x2C)
    ∷ (key_capslock, 0x39)
    ∷ (key_f1, 0x3A)
    ∷ (key_f2, 0x3B)
    ∷ (key_f3, 0x3C)
    ∷ (key_f4, 0x3D)
    ∷ (key_f5, 0x3E)
    ∷ (key_f6, 0x3F)
    ∷ (key_f7, 0x40)
    ∷ (key_f8, 0x41)
    ∷ (key_f9, 0x42)
    ∷ (key_f10, 0x43)
    ∷ (key_f11, 0x44)
    ∷ (key_f12, 0x45)
    ∷ (key_numlock, 0x53)
    ∷ (key_scrolllock, 0x47)
    ∷ (key_kp7, 0x5F)
    ∷ (key_kp8, 0x60)
    ∷ (key_kp9, 0x61)
    ∷ (key_kpminus, 0x56)
    ∷ (key_kp4, 0x5C)
    ∷ (key_kp5, 0x5D)
    ∷ (key_kp6, 0x5E)
    ∷ (key_kpplus, 0x57)
    ∷ (key_kp1, 0x59)
    ∷ (key_kp2, 0x5A)
    ∷ (key_kp3, 0x5B)
    ∷ (key_kp0, 0x62)
    ∷ (key_kpdot, 0x63)
    ∷ (key_kpenter, 0x58)
    ∷ (key_kpslash, 0x54)
    ∷ (key_sysrq, 0x46)
    ∷ (key_home, 0x4A)
    ∷ (key_up, 0x52)
    ∷ (key_pageup, 0x4B)
    ∷ (key_left, 0x50)
    ∷ (key_right, 0x4F)
    ∷ (key_end, 0x4D)
    ∷ (key_down, 0x51)
    ∷ (key_pagedown, 0x4E)
    ∷ (key_insert, 0x49)
    ∷ (key_delete, 0x4C)
    ∷ (key_pause, 0x48)
    ∷ (key_102nd, 0x64)
    ∷ (key_compose, 0x65)
    ∷ []

-- An element of an array given by designated initialisers: those not named are 0.
unfoldable pub initialised : List (ℕ × ℕ) → ℕ → ℕ
initialised [] i = 0
initialised ((j, v) ∷ rows) i = if j == i then v else initialised rows i

-- `key_to_hid[code]`, for a code below 256
unfoldable pub key_to_hid : ℕ → ℕ
key_to_hid code = initialised key_to_hid_rows code

unfoldable pub kbd_modifier_bit : ℕ → ℕ
kbd_modifier_bit key =
    if key == key_leftctrl
    then 0x01
    else if key == key_leftshift
    then 0x02
    else if key == key_leftalt
    then 0x04
    else if key == key_leftmeta
    then 0x08
    else if key == key_rightctrl
    then 0x10
    else if key == key_rightshift
    then 0x20
    else if key == key_rightalt
    then 0x40
    else if key == key_rightmeta
    then 0x80
    else 0

unfoldable pub btn_to_bit : ℕ → ℕ
btn_to_bit code =
    if code == btn_left
    then 0x01
    else if code == btn_right
    then 0x02
    else if code == btn_middle
    then 0x04
    else 0
