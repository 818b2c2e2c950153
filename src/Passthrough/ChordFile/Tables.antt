-- ===== src/Passthrough/ChordFile/Tables.antt =====
-- The two tables of key names agree.
use meta_dualsense.Prelude.{
  ℕ, ◌≡◌, ◌≢◌, refl, sym, ◌∙◌, ◌==◌, ◌||◌, Bool, true, false, Option, none, some, all, arith,
}
use meta_dualsense.Prelude.Text.{Bytes, same_ci, same_text, to_lower}
use meta_dualsense.Input.{key_leftmeta, key_rightmeta}
use meta_dualsense.Config.Names.{Named, key_names, lookup_ci, config_key_from_name}
use meta_dualsense.Config.Lookup.{lookup_ci-all, lookup_ci-same}
use meta_dualsense.Passthrough.ChordFile.{table, hotkey_key_name_to_code}

abbrev is_found : Option ℕ → ℕ → Bool
is_found none code = false
is_found (some found) code = found == code

is_found_lem : (o : Option ℕ) (code : ℕ) → is_found o code ≡ true → o ≡ some code
is_found_lem none code h = cc
is_found_lem (some found) code h = ground (arith, h)

abbrev is_meta : ℕ → Bool
is_meta code = code == key_leftmeta || code == key_rightmeta

contains : all (λ (row : Named). is_found (lookup_ci table row.0) row.1) key_names ≡ true
unfolding lookup_ci same_ci same_text to_lower
contains = refl

contained :
    all (λ (row : Named). is_meta row.1 || is_found (lookup_ci key_names row.0) row.1) table ≡ true
unfolding lookup_ci same_ci same_text to_lower
contained = refl

-- Every name that dualsense-ffsd knows means the same key to kbm-passthrough.
pub knows-key_names :
    (name : Bytes) (code : ℕ)
    → config_key_from_name name ≡ some code
    → hotkey_key_name_to_code name ≡ some code
knows-key_names name code found =
    let (row, same, tested) =
      lookup_ci-all (λ (row : Named). is_found (lookup_ci table row.0) row.1) key_names name
        contains found in
    sym (lookup_ci-same table row name same) ∙ is_found_lem (lookup_ci table row) code tested

-- A name that kbm-passthrough knows means the same key to dualsense-ffsd, except those of the two
-- meta keys.
pub knows-table :
    (name : Bytes) (code : ℕ)
    → hotkey_key_name_to_code name ≡ some code
    → code ≢ key_leftmeta
    → code ≢ key_rightmeta
    → config_key_from_name name ≡ some code
knows-table name code found not_left not_right =
    let (row, same, tested) =
      lookup_ci-all (λ (row : Named). is_meta row.1 || is_found (lookup_ci key_names row.0) row.1)
        table name contained found in
    sym (lookup_ci-same key_names row name same)
    ∙ is_found_lem (lookup_ci key_names row) code (ground (arith, tested, not_left, not_right))
