-- ===== src/Input/Keypad.antt =====
-- Key codes of the keypad, of punctuation and of the editing keys.
use Prim.Native.Nat.{ℕ}

abbrev pub key_minus : ℕ
key_minus = 12

abbrev pub key_equal : ℕ
key_equal = 13

abbrev pub key_semicolon : ℕ
key_semicolon = 39

abbrev pub key_apostrophe : ℕ
key_apostrophe = 40

abbrev pub key_backslash : ℕ
key_backslash = 43

abbrev pub key_comma : ℕ
key_comma = 51

abbrev pub key_dot : ℕ
key_dot = 52

abbrev pub key_slash : ℕ
key_slash = 53

abbrev pub key_kpasterisk : ℕ
key_kpasterisk = 55

abbrev pub key_numlock : ℕ
key_numlock = 69

abbrev pub key_scrolllock : ℕ
key_scrolllock = 70

abbrev pub key_kp7 : ℕ
key_kp7 = 71

abbrev pub key_kp8 : ℕ
key_kp8 = 72

abbrev pub key_kp9 : ℕ
key_kp9 = 73

abbrev pub key_kpminus : ℕ
key_kpminus = 74

abbrev pub key_kp4 : ℕ
key_kp4 = 75

abbrev pub key_kp5 : ℕ
key_kp5 = 76

abbrev pub key_kp6 : ℕ
key_kp6 = 77

abbrev pub key_kpplus : ℕ
key_kpplus = 78

abbrev pub key_kp1 : ℕ
key_kp1 = 79

abbrev pub key_kp2 : ℕ
key_kp2 = 80

abbrev pub key_kp3 : ℕ
key_kp3 = 81

abbrev pub key_kp0 : ℕ
key_kp0 = 82

abbrev pub key_kpdot : ℕ
key_kpdot = 83

abbrev pub key_102nd : ℕ
key_102nd = 86

abbrev pub key_kpenter : ℕ
key_kpenter = 96

abbrev pub key_kpslash : ℕ
key_kpslash = 98

abbrev pub key_sysrq : ℕ
key_sysrq = 99

abbrev pub key_home : ℕ
key_home = 102

abbrev pub key_pageup : ℕ
key_pageup = 104

abbrev pub key_left : ℕ
key_left = 105

abbrev pub key_right : ℕ
key_right = 106

abbrev pub key_end : ℕ
key_end = 107

abbrev pub key_pagedown : ℕ
key_pagedown = 109

abbrev pub key_insert : ℕ
key_insert = 110

abbrev pub key_delete : ℕ
key_delete = 111

abbrev pub key_pause : ℕ
key_pause = 119

abbrev pub key_compose : ℕ
key_compose = 127
