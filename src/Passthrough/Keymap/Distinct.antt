-- ===== src/Passthrough/Keymap/Distinct.antt =====
-- No two keys share a HID usage, and modifiers have none.
use meta_dualsense.Prelude.{ℕ, ◌≡◌, refl, ◌≢◌, Bool, true, not, ◌&&◌, List, [], ◌∷◌, arith, ◌==◌}
use meta_dualsense.Passthrough.Keymap.{key_to_hid, key_to_hid_rows, initialised, kbd_modifier_bit}

-- The usage stands in none of the rows.
absent : ℕ → List (ℕ × ℕ) → Bool
absent u [] = true
absent u ((j, v) ∷ rows) = not (v == u) && absent u rows

distinct : List (ℕ × ℕ) → Bool
unfolding absent
distinct [] = true
distinct ((j, v) ∷ rows) = absent v rows && distinct rows

absent_lem :
    (u : ℕ) (rows : List (ℕ × ℕ)) (i : ℕ) → absent u rows ≡ true → u ≢ 0 → initialised rows i ≢ u
unfolding absent initialised
absent_lem u [] i h p = ground arith
absent_lem u ((j, v) ∷ rows) i h p = ground (arith, absent_lem u rows i)

distinct_lem :
    (rows : List (ℕ × ℕ)) (i j : ℕ)
    → distinct rows ≡ true
    → initialised rows i ≢ 0
    → initialised rows i ≡ initialised rows j
    → i ≡ j
unfolding distinct initialised
distinct_lem [] i j d p e = ground arith
distinct_lem ((k, v) ∷ rows) i j d p e =
    ground (arith, absent_lem v rows i, absent_lem v rows j, distinct_lem rows i j)

rows_distinct : distinct key_to_hid_rows ≡ true
unfolding distinct key_to_hid_rows
rows_distinct = refl

-- Two keys with a HID usage have different usages: if the table gives one usage, not 0, for two
-- key codes, then the codes are equal.
pub key_to_hid_injective : (i j : ℕ) → key_to_hid i ≢ 0 → key_to_hid i ≡ key_to_hid j → i ≡ j
unfolding key_to_hid
key_to_hid_injective i j = distinct_lem key_to_hid_rows i j rows_distinct

no_modifier : (k : ℕ) → Bool
no_modifier k = kbd_modifier_bit k == 0

modifier_absent : List (ℕ × ℕ) → Bool
unfolding no_modifier
modifier_absent [] = true
modifier_absent ((j, v) ∷ rows) = no_modifier j && modifier_absent rows

modifier_absent_lem :
    (rows : List (ℕ × ℕ)) (key : ℕ)
    → modifier_absent rows ≡ true
    → kbd_modifier_bit key ≢ 0
    → initialised rows key ≡ 0
unfolding modifier_absent initialised
modifier_absent_lem [] key a h = refl
modifier_absent_lem ((j, v) ∷ rows) key a h = ground (arith, modifier_absent_lem rows key)

rows_modifier_absent : modifier_absent key_to_hid_rows ≡ true
unfolding modifier_absent key_to_hid_rows kbd_modifier_bit
rows_modifier_absent = refl

-- The keys that set a bit of the modifier byte have no entry in the usage table.
pub key_to_hid_modifier : (key : ℕ) → kbd_modifier_bit key ≢ 0 → key_to_hid key ≡ 0
unfolding key_to_hid
key_to_hid_modifier key h = modifier_absent_lem key_to_hid_rows key rows_modifier_absent h
