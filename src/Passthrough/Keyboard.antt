-- ===== src/Passthrough/Keyboard.antt =====
-- `struct kbd_state` of kbm-passthrough: the modifier byte and six slots of a boot keyboard report.
pub mod Rollover
pub mod KeySet
use meta_dualsense.Prelude.{
  ℕ, suc, zero, Bool, true, false, ◌||◌, Option, none, some, List, [], ◌∷◌, ◌++◌, ◌==◌,
  if◌then◌else◌, length, replicate,
}

-- `modifiers` is a byte; `keys` has KBD_KEYS_MAX elements, 0 for an empty slot.
pub record KbdState : Type 0 where
  pub modifiers : ℕ
  pub keys : List ℕ

abbrev pub kbd_keys_max : ℕ
kbd_keys_max = 6

abbrev pub kbd_zero : KbdState
kbd_zero = record { modifiers = 0; keys = replicate kbd_keys_max 0 }

-- `keys[i] == usage` for some `i`
unfoldable pub holds_key : List ℕ → ℕ → Bool
holds_key [] usage = false
holds_key (k ∷ ks) usage = k == usage || holds_key ks usage

abbrev pub cons_some : ℕ → Option (List ℕ) → Option (List ℕ)
cons_some k none = none
cons_some k (some ks) = some (k ∷ ks)

-- Writes `new` over the first slot that holds `old`; `none` if no slot does.
unfoldable pub replace_first : ℕ → ℕ → List ℕ → Option (List ℕ)
replace_first old new [] = none
replace_first old new (k ∷ ks) =
    if k == old then some (new ∷ ks) else cons_some k (replace_first old new ks)

-- The state after a search for a slot, and whether a slot was written.
abbrev pub stored : KbdState → Option (List ℕ) → KbdState × Bool
stored s none = (s, false)
stored s (some ks) = (record s { keys = ks }, true)

unfoldable pub kbd_press : KbdState → ℕ → KbdState × Bool
kbd_press s usage =
    if holds_key s.keys usage then (s, false) else stored s (replace_first 0 usage s.keys)

unfoldable pub kbd_release : KbdState → ℕ → KbdState × Bool
kbd_release s usage = stored s (replace_first usage 0 s.keys)

-- The eight bytes that `kbd_write_report` writes.
unfoldable pub kbd_report : KbdState → List ℕ
kbd_report s = s.modifiers ∷ 0 ∷ s.keys
