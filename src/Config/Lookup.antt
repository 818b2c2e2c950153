-- ===== src/Config/Lookup.antt =====
-- What a row that a look-up finds has.
use meta_dualsense.Prelude.{
  ℕ, ◌≡◌, ◌≤◌, refl, ap, ◌∙◌, sym, Bool, true, false, not, List, [], ◌∷◌, some, arith, Bool-cases,
  inl, inr, all, ◌&&◌, ◌||◌, leb, ◌==◌, length, map, length-map,
}
use meta_dualsense.Prelude.Text.{Bytes, same_ci, same_text_lem, is_nil, to_lower, is_space}
use meta_dualsense.Prelude.Text.Plain.{is_printing}
use meta_dualsense.Config.Names.{Named, lookup_ci}
use meta_dualsense.Config.Parser.{is_sep}

-- A code found is that of a row with the name, which satisfies what all rows do.
pub lookup_ci-all :
    (p : Named → Bool) (rows : List Named) (s : Bytes) {code : ℕ}
    → all p rows ≡ true
    → lookup_ci rows s ≡ some code
    → (name : Bytes) × (same_ci name s ≡ true) × (p (name, code) ≡ true)
unfolding lookup_ci
lookup_ci-all p [] s every found = cc
lookup_ci-all p (row ∷ rows) s every found = elim (Bool-cases (same_ci row.0 s)) [
  | inl same ↦ (row.0, same, ground (arith, every, found, same))
  | inr other ↦ lookup_ci-all p rows s (ground (arith, every)) (ground (arith, found, other))
]

-- Two texts that differ in case only are found alike.
pub lookup_ci-same :
    (rows : List Named) (a b : Bytes) → same_ci a b ≡ true → lookup_ci rows a ≡ lookup_ci rows b
unfolding lookup_ci same_ci
lookup_ci-same [] a b same = refl
lookup_ci-same (row ∷ rows) a b same =
    let lower : map to_lower a ≡ map to_lower b =
      same_text_lem (map to_lower a) (map to_lower b) same in
    let rest = lookup_ci-same rows a b same in rw (lower, rest) refl

-- What the names of the tables consist of, in lower case.
abbrev pub is_name_byte : ℕ → Bool
is_name_byte c = (leb 97 c && leb c 122) || (leb 48 c && leb c 57) || c == 95

abbrev pub is_word : Bytes → Bool
is_word s = all is_name_byte s && not (is_nil s) && leb (length s) 12

-- A text that can stand in a setting, and between the separators of a chord.
abbrev pub is_chord_byte : ℕ → Bool
is_chord_byte c = is_printing c && not (c == 61) && not (c == 35) && not (is_sep c)

lower_lem : (c : ℕ) → is_name_byte (to_lower c) ≡ true → is_chord_byte c ≡ true
unfolding to_lower is_space
lower_lem c h = ground (arith, h)

all-lower : (s : Bytes) → all is_name_byte (map to_lower s) ≡ true → all is_chord_byte s ≡ true
all-lower [] h = refl
all-lower (c ∷ s) h =
    ground (arith, lower_lem c (ground (arith, h)), all-lower s (ground (arith, h)))

is_word-lower :
    (s : Bytes)
    → is_word (map to_lower s) ≡ true
    → (all is_chord_byte s ≡ true) × (is_nil s ≡ false) × (length s ≤ 12)
is_word-lower [] h = cc
is_word-lower (c ∷ s) h =
    (all-lower (c ∷ s) (ground (arith, h)), refl, ground (arith, h, length-map s to_lower))

-- A name that is found is such a text, if the names of the table are, in lower case.
pub lookup_ci-word :
    (rows : List Named) (s : Bytes) {code : ℕ}
    → all (λ row. is_word (map to_lower row.0)) rows ≡ true
    → lookup_ci rows s ≡ some code
    → (all is_chord_byte s ≡ true) × (is_nil s ≡ false) × (length s ≤ 12)
unfolding same_ci
lookup_ci-word rows s words found =
    let (name, same, word) =
      lookup_ci-all (λ row. is_word (map to_lower row.0)) rows s words found in
    let lower : map to_lower name ≡ map to_lower s =
      same_text_lem (map to_lower name) (map to_lower s) same in
    is_word-lower s (ap is_word (sym lower) ∙ word)
