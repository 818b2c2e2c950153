-- ===== src/Passthrough/ChordFile.antt =====
-- How kbm-passthrough reads the chord from the configuration of the other daemon
-- (recipes-apps/kbm-passthrough/files/main.c: `hotkey_key_name_to_code`, `hotkey_load`).
pub mod Tables
pub mod Loaded
pub mod Agreement
use meta_dualsense.Prelude.{
  ℕ, suc, ◌||◌, Option, none, some, List, [], ◌∷◌, ◌==◌, ltb, if◌then◌else◌, set, replicate, Bool,
  false,
}
use meta_dualsense.Prelude.Text.{
  Bytes, codes, behind_prefix, before, c_string, skip, skip_end, fgets_all, is_nil,
}
use meta_dualsense.Input.{
  key_0, key_1, key_2, key_3, key_4, key_5, key_6, key_7, key_8, key_9, key_a, key_b, key_backspace,
  key_c, key_d, key_down, key_e, key_enter, key_esc, key_f, key_f1, key_f10, key_f11, key_f12,
  key_f2, key_f3, key_f4, key_f5, key_f6, key_f7, key_f8, key_f9, key_g, key_grave, key_h, key_i,
  key_j, key_k, key_l, key_left, key_leftalt, key_leftctrl, key_leftmeta, key_leftshift, key_m,
  key_n, key_o, key_p, key_q, key_r, key_right, key_rightalt, key_rightctrl, key_rightmeta,
  key_rightshift, key_s, key_space, key_t, key_tab, key_u, key_up, key_v, key_w, key_x, key_y,
  key_z,
}
use meta_dualsense.Config.Names.{Named, lookup_ci}
use meta_dualsense.Config.Parser.{tokens}
use meta_dualsense.Passthrough.Hotkey.{HotkeyState}

abbrev pub hotkey_max : ℕ
hotkey_max = 8

abbrev pub table : List Named
table =
    (codes "LEFTCTRL", key_leftctrl)
    ∷ (codes "RIGHTCTRL", key_rightctrl)
    ∷ (codes "LEFTSHIFT", key_leftshift)
    ∷ (codes "RIGHTSHIFT", key_rightshift)
    ∷ (codes "LEFTALT", key_leftalt)
    ∷ (codes "RIGHTALT", key_rightalt)
    ∷ (codes "LEFTMETA", key_leftmeta)
    ∷ (codes "RIGHTMETA", key_rightmeta)
    ∷ (codes "ESC", key_esc)
    ∷ (codes "TAB", key_tab)
    ∷ (codes "SPACE", key_space)
    ∷ (codes "ENTER", key_enter)
    ∷ (codes "BACKSPACE", key_backspace)
    ∷ (codes "GRAVE", key_grave)
    ∷ (codes "UP", key_up)
    ∷ (codes "DOWN", key_down)
    ∷ (codes "LEFT", key_left)
    ∷ (codes "RIGHT", key_right)
    ∷ (codes "F1", key_f1)
    ∷ (codes "F2", key_f2)
    ∷ (codes "F3", key_f3)
    ∷ (codes "F4", key_f4)
    ∷ (codes "F5", key_f5)
    ∷ (codes "F6", key_f6)
    ∷ (codes "F7", key_f7)
    ∷ (codes "F8", key_f8)
    ∷ (codes "F9", key_f9)
    ∷ (codes "F10", key_f10)
    ∷ (codes "F11", key_f11)
    ∷ (codes "F12", key_f12)
    ∷ (codes "A", key_a)
    ∷ (codes "B", key_b)
    ∷ (codes "C", key_c)
    ∷ (codes "D", key_d)
    ∷ (codes "E", key_e)
    ∷ (codes "F", key_f)
    ∷ (codes "G", key_g)
    ∷ (codes "H", key_h)
    ∷ (codes "I", key_i)
    ∷ (codes "J", key_j)
    ∷ (codes "K", key_k)
    ∷ (codes "L", key_l)
    ∷ (codes "M", key_m)
    ∷ (codes "N", key_n)
    ∷ (codes "O", key_o)
    ∷ (codes "P", key_p)
    ∷ (codes "Q", key_q)
    ∷ (codes "R", key_r)
    ∷ (codes "S", key_s)
    ∷ (codes "T", key_t)
    ∷ (codes "U", key_u)
    ∷ (codes "V", key_v)
    ∷ (codes "W", key_w)
    ∷ (codes "X", key_x)
    ∷ (codes "Y", key_y)
    ∷ (codes "Z", key_z)
    ∷ (codes "0", key_0)
    ∷ (codes "1", key_1)
    ∷ (codes "2", key_2)
    ∷ (codes "3", key_3)
    ∷ (codes "4", key_4)
    ∷ (codes "5", key_5)
    ∷ (codes "6", key_6)
    ∷ (codes "7", key_7)
    ∷ (codes "8", key_8)
    ∷ (codes "9", key_9)
    ∷ []

-- `none` is -1.
abbrev pub hotkey_key_name_to_code : Bytes → Option ℕ
hotkey_key_name_to_code s = lookup_ci table s

-- `hotkey.codes[hotkey.n++] = code`
abbrev pub push_code : HotkeyState → ℕ → HotkeyState
push_code s code = record s { codes = set s.codes s.n code; n = suc s.n }

-- The chord of the two assignments at the start and at the end.
abbrev pub push_default : HotkeyState → HotkeyState
push_default s = push_code (push_code (record s { n = 0 }) key_leftctrl) key_esc

-- A space or a tab
abbrev pub is_blank : ℕ → Bool
is_blank c = c == 32 || c == 9

unfoldable pub take_found : HotkeyState → Option ℕ → HotkeyState
take_found s none = s
take_found s (some code) = push_code s code

-- One round of the loop over the names.
unfoldable pub take_name : HotkeyState → Bytes → HotkeyState
take_name s name = if is_nil name then s else take_found s (hotkey_key_name_to_code name)

-- The loop; its split at the separators is the one of `config_load`.
unfoldable pub read_names : HotkeyState → List Bytes → HotkeyState
read_names s [] = s
read_names s (name ∷ names) =
    let rest = read_names (take_name s (skip_end is_blank (skip is_blank name))) names in
    if ltb s.n hotkey_max then rest else s

-- The rest of a line that sets the chord, without its newline and without a comment.
abbrev pub hotkey_value : Option Bytes → Option Bytes
hotkey_value none = none
hotkey_value (some p) = some (before 35 (before 10 p))

unfoldable pub hotkey_line : Bytes → Option Bytes
hotkey_line line =
    hotkey_value (behind_prefix (codes "hotkey.mode_toggle=") (skip is_blank (c_string line)))

unfoldable pub read_value : HotkeyState → Option Bytes → HotkeyState → HotkeyState
read_value s none rest = rest
read_value s (some value) rest = read_names (record s { n = 0 }) (tokens value)

-- The loop over the lines, which ends at the first that sets the chord.
unfoldable pub read_lines : HotkeyState → List Bytes → HotkeyState
read_lines s [] = s
read_lines s (line ∷ lines) = read_value s (hotkey_line line) (read_lines s lines)

unfoldable pub default_if_empty : HotkeyState → HotkeyState
default_if_empty s = if s.n == 0 then push_default s else s

-- The zeroed state of the program's start.
abbrev pub zeroed : HotkeyState
zeroed = record {
  codes = replicate 8 0;
  n = 0;
  pressed = replicate 8 false;
  all_since_ns = 0;
  fired = false;
}

-- `none` is a file that cannot be opened.
unfoldable pub hotkey_load : Option Bytes → HotkeyState
hotkey_load none = push_default zeroed
hotkey_load (some file) = default_if_empty (read_lines (push_default zeroed) (fgets_all 512 file))
