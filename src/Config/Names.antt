-- ===== src/Config/Names.antt =====
-- The names that a configuration file uses for keys, buttons and actions, and their look-up
-- (recipes-apps/kbm-mapper-ff/files/config.c).
use meta_dualsense.Prelude.{ℕ, List, [], ◌∷◌, Option, none, some, if◌then◌else◌}
use meta_dualsense.Prelude.Text.{Bytes, codes, same_ci}
use meta_dualsense.Input.{
  btn_extra, btn_left, btn_middle, btn_right, btn_side, key_0, key_1, key_2, key_3, key_4, key_5,
  key_6, key_7, key_8, key_9, key_a, key_b, key_backspace, key_c, key_d, key_down, key_e, key_enter,
  key_esc, key_f, key_f1, key_f10, key_f11, key_f12, key_f2, key_f3, key_f4, key_f5, key_f6, key_f7,
  key_f8, key_f9, key_g, key_grave, key_h, key_i, key_j, key_k, key_l, key_left, key_leftalt,
  key_leftctrl, key_leftshift, key_m, key_n, key_o, key_p, key_q, key_r, key_right, key_rightalt,
  key_rightctrl, key_rightshift, key_s, key_space, key_t, key_tab, key_u, key_up, key_v, key_w,
  key_x, key_y, key_z,
}
use meta_dualsense.Report.{
  ds_act_circle, ds_act_create, ds_act_cross, ds_act_dpad_down, ds_act_dpad_left, ds_act_dpad_right,
  ds_act_dpad_up, ds_act_l1, ds_act_l2, ds_act_l3, ds_act_lstick_down, ds_act_lstick_left,
  ds_act_lstick_right, ds_act_lstick_up, ds_act_mute, ds_act_none, ds_act_options, ds_act_ps,
  ds_act_r1, ds_act_r2, ds_act_r3, ds_act_rstick_down, ds_act_rstick_left, ds_act_rstick_right,
  ds_act_rstick_up, ds_act_square, ds_act_touchpad, ds_act_triangle,
}

-- Rows of a table, without the one that ends it.
abbrev pub Named : Type 0
Named = Bytes × ℕ

abbrev pub key_names : List Named
key_names =
    (codes "A", key_a)
    ∷ (codes "B", key_b)
    ∷ (codes "C", key_c)
    ∷ (codes "D", key_d)
    ∷ (codes "E", key_e)
    ∷ (codes "F", key_f)
    ∷ (codes "G", key_g)
    ∷ (codes "H", key_h)
    ∷ (codes "I", key_i)
    ∷ (codes "J", key_j)
    ∷ (codes "K", key_k)
    ∷ (codes "L", key_l)
    ∷ (codes "M", key_m)
    ∷ (codes "N", key_n)
    ∷ (codes "O", key_o)
    ∷ (codes "P", key_p)
    ∷ (codes "Q", key_q)
    ∷ (codes "R", key_r)
    ∷ (codes "S", key_s)
    ∷ (codes "T", key_t)
    ∷ (codes "U", key_u)
    ∷ (codes "V", key_v)
    ∷ (codes "W", key_w)
    ∷ (codes "X", key_x)
    ∷ (codes "Y", key_y)
    ∷ (codes "Z", key_z)
    ∷ (codes "0", key_0)
    ∷ (codes "1", key_1)
    ∷ (codes "2", key_2)
    ∷ (codes "3", key_3)
    ∷ (codes "4", key_4)
    ∷ (codes "5", key_5)
    ∷ (codes "6", key_6)
    ∷ (codes "7", key_7)
    ∷ (codes "8", key_8)
    ∷ (codes "9", key_9)
    ∷ (codes "SPACE", key_space)
    ∷ (codes "ENTER", key_enter)
    ∷ (codes "ESC", key_esc)
    ∷ (codes "TAB", key_tab)
    ∷ (codes "LEFTSHIFT", key_leftshift)
    ∷ (codes "RIGHTSHIFT", key_rightshift)
    ∷ (codes "LEFTCTRL", key_leftctrl)
    ∷ (codes "RIGHTCTRL", key_rightctrl)
    ∷ (codes "LEFTALT", key_leftalt)
    ∷ (codes "RIGHTALT", key_rightalt)
    ∷ (codes "BACKSPACE", key_backspace)
    ∷ (codes "GRAVE", key_grave)
    ∷ (codes "UP", key_up)
    ∷ (codes "DOWN", key_down)
    ∷ (codes "LEFT", key_left)
    ∷ (codes "RIGHT", key_right)
    ∷ (codes "F1", key_f1)
    ∷ (codes "F2", key_f2)
    ∷ (codes "F3", key_f3)
    ∷ (codes "F4", key_f4)
    ∷ (codes "F5", key_f5)
    ∷ (codes "F6", key_f6)
    ∷ (codes "F7", key_f7)
    ∷ (codes "F8", key_f8)
    ∷ (codes "F9", key_f9)
    ∷ (codes "F10", key_f10)
    ∷ (codes "F11", key_f11)
    ∷ (codes "F12", key_f12)
    ∷ []

abbrev pub btn_names : List Named
btn_names =
    (codes "LEFT", btn_left)
    ∷ (codes "RIGHT", btn_right)
    ∷ (codes "MIDDLE", btn_middle)
    ∷ (codes "SIDE", btn_side)
    ∷ (codes "EXTRA", btn_extra)
    ∷ []

abbrev pub action_names : List Named
action_names =
    (codes "lstick_up", ds_act_lstick_up)
    ∷ (codes "lstick_down", ds_act_lstick_down)
    ∷ (codes "lstick_left", ds_act_lstick_left)
    ∷ (codes "lstick_right", ds_act_lstick_right)
    ∷ (codes "rstick_up", ds_act_rstick_up)
    ∷ (codes "rstick_down", ds_act_rstick_down)
    ∷ (codes "rstick_left", ds_act_rstick_left)
    ∷ (codes "rstick_right", ds_act_rstick_right)
    ∷ (codes "dpad_up", ds_act_dpad_up)
    ∷ (codes "dpad_down", ds_act_dpad_down)
    ∷ (codes "dpad_left", ds_act_dpad_left)
    ∷ (codes "dpad_right", ds_act_dpad_right)
    ∷ (codes "cross", ds_act_cross)
    ∷ (codes "circle", ds_act_circle)
    ∷ (codes "square", ds_act_square)
    ∷ (codes "triangle", ds_act_triangle)
    ∷ (codes "l1", ds_act_l1)
    ∷ (codes "r1", ds_act_r1)
    ∷ (codes "l2", ds_act_l2)
    ∷ (codes "r2", ds_act_r2)
    ∷ (codes "l3", ds_act_l3)
    ∷ (codes "r3", ds_act_r3)
    ∷ (codes "create", ds_act_create)
    ∷ (codes "options", ds_act_options)
    ∷ (codes "ps", ds_act_ps)
    ∷ (codes "touchpad", ds_act_touchpad)
    ∷ (codes "mute", ds_act_mute)
    ∷ []

-- The code of the first row with this name, in any case; `none` is -1.
unfoldable pub lookup_ci : List Named → Bytes → Option ℕ
lookup_ci [] s = none
lookup_ci (row ∷ rows) s =
    let rest = lookup_ci rows s in if same_ci row.0 s then some row.1 else rest

abbrev pub or_none : Option ℕ → ℕ
or_none none = ds_act_none
or_none (some v) = v

unfoldable pub config_action_from_name : Bytes → ℕ
config_action_from_name n = or_none (lookup_ci action_names n)

abbrev pub config_key_from_name : Bytes → Option ℕ
config_key_from_name n = lookup_ci key_names n

abbrev pub config_btn_from_name : Bytes → Option ℕ
config_btn_from_name n = lookup_ci btn_names n
