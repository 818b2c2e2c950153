-- ===== src/Input/Control.antt =====
-- Key codes of modifiers, function keys, arrows and white space.
use Prim.Native.Nat.{ℕ}

abbrev pub key_esc : ℕ
key_esc = 1

abbrev pub key_backspace : ℕ
key_backspace = 14

abbrev pub key_tab : ℕ
key_tab = 15

abbrev pub key_leftbrace : ℕ
key_leftbrace = 26

abbrev pub key_rightbrace : ℕ
key_rightbrace = 27

abbrev pub key_enter : ℕ
key_enter = 28

abbrev pub key_leftctrl : ℕ
key_leftctrl = 29

abbrev pub key_grave : ℕ
key_grave = 41

abbrev pub key_leftshift : ℕ
key_leftshift = 42

abbrev pub key_rightshift : ℕ
key_rightshift = 54

abbrev pub key_leftalt : ℕ
key_leftalt = 56

abbrev pub key_space : ℕ
key_space = 57

abbrev pub key_capslock : ℕ
key_capslock = 58

abbrev pub key_f1 : ℕ
key_f1 = 59

abbrev pub key_f2 : ℕ
key_f2 = 60

abbrev pub key_f3 : ℕ
key_f3 = 61

abbrev pub key_f4 : ℕ
key_f4 = 62

abbrev pub key_f5 : ℕ
key_f5 = 63

abbrev pub key_f6 : ℕ
key_f6 = 64

abbrev pub key_f7 : ℕ
key_f7 = 65

abbrev pub key_f8 : ℕ
key_f8 = 66

abbrev pub key_f9 : ℕ
key_f9 = 67

abbrev pub key_f10 : ℕ
key_f10 = 68

abbrev pub key_f11 : ℕ
key_f11 = 87

abbrev pub key_f12 : ℕ
key_f12 = 88

abbrev pub key_rightctrl : ℕ
key_rightctrl = 97

abbrev pub key_rightalt : ℕ
key_rightalt = 100

abbrev pub key_up : ℕ
key_up = 103

abbrev pub key_down : ℕ
key_down = 108

abbrev pub key_leftmeta : ℕ
key_leftmeta = 125

abbrev pub key_rightmeta : ℕ
key_rightmeta = 126
