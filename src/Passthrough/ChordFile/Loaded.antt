-- ===== src/Passthrough/ChordFile/Loaded.antt =====
-- What every chord that is read satisfies.
use meta_dualsense.Prelude.{
  ℕ, ◌≤◌, ◌<◌, ◌≡◌, refl, Option, none, some, List, [], ◌∷◌, ◌==◌, ltb, arith, Bool-cases, inl, inr,
  ap,
}
use meta_dualsense.Prelude.Text.{Bytes, is_nil, skip, skip_end, fgets_all}
use meta_dualsense.Config.Parser.{tokens}
use meta_dualsense.Passthrough.Hotkey.{HotkeyState}
use meta_dualsense.Passthrough.Hotkey.Mirror.{loaded}
use meta_dualsense.Passthrough.ChordFile.{
  hotkey_max, is_blank, hotkey_key_name_to_code, push_code, push_default, take_found, take_name,
  read_names, hotkey_line, read_value, read_lines, default_if_empty, zeroed, hotkey_load,
}

-- Nothing is pressed, and there are at most eight codes.
IsLoaded : HotkeyState → Type 0
IsLoaded s = (s ≡ loaded s.codes s.n) × (s.n ≤ 8)

take_found-IsLoaded :
    (s : HotkeyState) (o : Option ℕ) → IsLoaded s → s.n < 8 → IsLoaded (take_found s o)
unfolding IsLoaded take_found
take_found-IsLoaded s none h small = h
take_found-IsLoaded s (some code) (same, le) small =
    (ap (λ k. push_code (record k { codes = s.codes; n = s.n }) code) same, omega arith)

take_name-IsLoaded :
    (s : HotkeyState) (name : Bytes) → IsLoaded s → s.n < 8 → IsLoaded (take_name s name)
unfolding take_name
take_name-IsLoaded s name h small = elim (Bool-cases (is_nil name)) [
  | inl empty ↦ rw empty h
  | inr named ↦ rw named (take_found-IsLoaded s (hotkey_key_name_to_code name) h small)
]

read_names-IsLoaded :
    (s : HotkeyState) (names : List Bytes) → IsLoaded s → IsLoaded (read_names s names)
unfolding read_names
read_names-IsLoaded s [] h = h
read_names-IsLoaded s (name ∷ names) h = elim (Bool-cases (ltb s.n hotkey_max)) [
  | inl room ↦ rw room (
      read_names-IsLoaded (take_name s (skip_end is_blank (skip is_blank name))) names
        (take_name-IsLoaded s (skip_end is_blank (skip is_blank name)) h (ground (arith, room))))
  | inr full ↦ rw full h
]

read_value-IsLoaded :
    (s rest : HotkeyState) (o : Option Bytes)
    → IsLoaded s
    → IsLoaded rest
    → IsLoaded (read_value s o rest)
unfolding read_value
read_value-IsLoaded s rest none h k = k
read_value-IsLoaded s rest (some value) h k =
    read_names-IsLoaded (record s { n = 0 }) (tokens value)
      (unfold IsLoaded in (ap (λ (r : HotkeyState). record r { n = 0 }) h.0, omega arith))

read_lines-IsLoaded :
    (s : HotkeyState) (lines : List Bytes) → IsLoaded s → IsLoaded (read_lines s lines)
unfolding read_lines
read_lines-IsLoaded s [] h = h
read_lines-IsLoaded s (line ∷ lines) h =
    read_value-IsLoaded s (read_lines s lines) (hotkey_line line) h (read_lines-IsLoaded s lines h)

default_if_empty-IsLoaded : (s : HotkeyState) → IsLoaded s → IsLoaded (default_if_empty s)
unfolding default_if_empty IsLoaded
default_if_empty-IsLoaded s (same, le) = elim (Bool-cases (s.n == 0)) [
  | inl empty ↦ rw empty (ap push_default same, omega arith)
  | inr full ↦ rw full (same, le)
]

default-IsLoaded : IsLoaded (push_default zeroed)
unfolding IsLoaded
default-IsLoaded = (refl, omega arith)

-- Whatever the file holds: the chord has at most eight codes, and no key of it is down.
pub hotkey_load-loaded :
    (file : Option Bytes) → let s = hotkey_load file in (s ≡ loaded s.codes s.n) × (s.n ≤ 8)
unfolding hotkey_load IsLoaded
hotkey_load-loaded none = default-IsLoaded
hotkey_load-loaded (some file) =
    default_if_empty-IsLoaded (read_lines (push_default zeroed) (fgets_all 512 file))
      (read_lines-IsLoaded (push_default zeroed) (fgets_all 512 file) default-IsLoaded)
