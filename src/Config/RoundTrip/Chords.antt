-- ===== src/Config/RoundTrip/Chords.antt =====
-- A chord written to the configuration file and read back.
use meta_dualsense.Prelude.{
  ℕ, suc, ◌+◌, ◌*◌, ◌≤◌, ◌<◌, ◌≡◌, refl, sym, true, false, List, [], ◌∷◌, ◌++◌, some, arith, ltb,
  length, length-append, all, ap, ◌∙◌, map, take, set, write_from, take-write_from,
}
use meta_dualsense.Prelude.Text.{
  Bytes, codes, is_space, is_nil, same_text, to_lower, behind_prefix, push_line,
}
use meta_dualsense.Prelude.Text.Plain.{is_printing, is_printed, all-append}
use meta_dualsense.Mapper.Float.{Float}
use meta_dualsense.Config.{Config, config_init_defaults}
use meta_dualsense.Config.Names.{key_names, config_key_from_name}
use meta_dualsense.Config.Lookup.{lookup_ci-word, is_word, is_chord_byte}
use meta_dualsense.Config.Parser.{
  trim, tokens, is_sep, Reading, take_code, take_name, read_hotkey, hotkey_size, set_hotkey, apply,
  apply_key, apply_mouse, config_load, at_line,
}
use meta_dualsense.Config.RoundTrip.{setting, is_key, trim-printed, config_load-setting}

-- The names with a `+` between them.
abbrev pub chord_text : List Bytes → Bytes
chord_text [] = []
chord_text (name ∷ []) = name
chord_text (name ∷ next ∷ names) = name ++ 43 ∷ chord_text (next ∷ names)

abbrev pub chord_file : List Bytes → Bytes
chord_file names = setting (codes "hotkey.mode_toggle") (chord_text names) ++ 10 ∷ []

key_names_words : all (λ row. is_word (map to_lower row.0)) key_names ≡ true
unfolding to_lower
key_names_words = refl

-- A name of a key can stand between the separators of a chord.
pub key_name_word :
    (name : Bytes) (code : ℕ)
    → config_key_from_name name ≡ some code
    → (all is_chord_byte name ≡ true) × (is_nil name ≡ false) × (length name ≤ 12)
key_name_word name code found = lookup_ci-word key_names name key_names_words found

pub word_printed : (s : Bytes) → all is_chord_byte s ≡ true → is_printed s ≡ true
word_printed [] h = refl
word_printed (c ∷ s) h = ground (arith, h, word_printed s (ground (arith, h)))

tokens-append :
    (name s : Bytes) → all is_chord_byte name ≡ true → tokens (name ++ 43 ∷ s) ≡ name ∷ tokens s
unfolding tokens
tokens-append [] s h = refl
tokens-append (c ∷ name) s h =
    let rest = tokens-append name s (ground (arith, h)) in
    let no_sep : is_sep c ≡ false = ground (arith, h) in rw (no_sep, rest) refl

tokens-name :
    (c : ℕ) (name : Bytes)
    → all is_chord_byte (c ∷ name) ≡ true
    → tokens (c ∷ name) ≡ (c ∷ name) ∷ []
unfolding tokens
tokens-name c [] h = let no_sep : is_sep c ≡ false = ground (arith, h) in rw no_sep refl
tokens-name c (d ∷ name) h =
    let rest = tokens-name d name (ground (arith, h)) in
    let no_sep : is_sep c ≡ false = ground (arith, h) in rw no_sep (ap (push_line c) rest)

tokens-last :
    (name : Bytes) → all is_chord_byte name ≡ true → is_nil name ≡ false → tokens name ≡ name ∷ []
tokens-last [] h full = cc
tokens-last (c ∷ name) h full = tokens-name c name h

-- The loop finds the names again.
pub tokens-chord_text :
    (names : List Bytes) (chord : List ℕ)
    → map config_key_from_name names ≡ map some chord
    → tokens (chord_text names) ≡ names
unfolding tokens
tokens-chord_text [] chord known = refl
tokens-chord_text (name ∷ names) [] known = cc
tokens-chord_text (name ∷ []) (code ∷ chord) known =
    let (word, full, short) = key_name_word name code cc in tokens-last name word full
tokens-chord_text (name ∷ next ∷ names) (code ∷ chord) known =
    let (word, full, short) = key_name_word name code cc in
    tokens-append name (chord_text (next ∷ names)) word
    ∙ ap (λ rest. name ∷ rest) (tokens-chord_text (next ∷ names) chord cc)

trim-word : (s : Bytes) → all is_chord_byte s ≡ true → trim s ≡ s
trim-word s h = trim-printed s (word_printed s h)

-- The loop stores the codes of the names, from the present number of codes on.
read_hotkey-names :
    (r : Reading) (names : List Bytes) (chord : List ℕ)
    → map config_key_from_name names ≡ map some chord
    → r.hotkey_n + length chord ≤ hotkey_size
    → read_hotkey r names ≡ record r {
      hotkey_codes = write_from r.hotkey_codes r.hotkey_n chord;
      hotkey_n = r.hotkey_n + length chord;
    }
unfolding read_hotkey take_name take_code
read_hotkey-names r [] [] known fits =
    let sum : r.hotkey_n + 0 ≡ r.hotkey_n = omega arith in rw sum refl
read_hotkey-names r [] (code ∷ chord) known fits = cc
read_hotkey-names r (name ∷ names) [] known fits = cc
read_hotkey-names r (name ∷ names) (code ∷ chord) known fits =
    let found : config_key_from_name name ≡ some code = cc in
    let (word, full, short) = key_name_word name code found in
    let room : ltb r.hotkey_n hotkey_size ≡ true = ground arith in
    let next = record r {
      hotkey_codes = set r.hotkey_codes r.hotkey_n code;
      hotkey_n = suc r.hotkey_n;
    } in
    let rest = read_hotkey-names next names chord (cc) (omega arith) in
    let sum : suc r.hotkey_n + length chord ≡ r.hotkey_n + suc (length chord) = omega arith in
    rw (room, trim-word name word, full, found)
      (rest
        ∙ ap
            (λ n. record r {
              hotkey_codes = write_from (set r.hotkey_codes r.hotkey_n code) (suc r.hotkey_n) chord;
              hotkey_n = n;
            })
            sum)

pub chord_text_printed :
    (names : List Bytes) (chord : List ℕ)
    → map config_key_from_name names ≡ map some chord
    → is_printed (chord_text names) ≡ true
unfolding is_space
chord_text_printed [] chord known = refl
chord_text_printed (name ∷ names) [] known = cc
chord_text_printed (name ∷ []) (code ∷ chord) known =
    let (word, full, short) = key_name_word name code cc in word_printed name word
chord_text_printed (name ∷ next ∷ names) (code ∷ chord) known =
    let (word, full, short) = key_name_word name code cc in
    let rest = chord_text_printed (next ∷ names) chord cc in
    all-append is_printing name (43 ∷ chord_text (next ∷ names)) (word_printed name word)
      (ground (arith, rest))

chord_text_le :
    (names : List Bytes) (chord : List ℕ)
    → map config_key_from_name names ≡ map some chord
    → length (chord_text names) ≤ 13 * length chord
chord_text_le [] chord known = omega arith
chord_text_le (name ∷ names) [] known = cc
chord_text_le (name ∷ []) (code ∷ chord) known =
    let (word, full, short) = key_name_word name code cc in omega arith
chord_text_le (name ∷ next ∷ names) (code ∷ chord) known =
    let (word, full, short) = key_name_word name code cc in
    let rest = chord_text_le (next ∷ names) chord cc in
    omega (arith, length-append name (43 ∷ chord_text (next ∷ names)))

pub chord_file_fits :
    (names : List Bytes) (chord : List ℕ)
    → map config_key_from_name names ≡ map some chord
    → length chord ≤ hotkey_size
    → length (setting (codes "hotkey.mode_toggle") (chord_text names)) < 511
chord_file_fits names chord known fits = omega (arith, chord_text_le names chord known)

pub key_bytes : is_key (codes "hotkey.mode_toggle") ≡ true
unfolding is_space
key_bytes = refl

module _ (fp : Float) (atof : Bytes → fp.Double) where
  open fp use {Double}

  apply-hotkey :
      (c : Config Double) (v : Bytes)
      → apply fp atof c (codes "hotkey.mode_toggle") v ≡ set_hotkey c v
  unfolding apply apply_key apply_mouse same_text behind_prefix
  apply-hotkey c v = refl

  set_hotkey-names :
      (c : Config Double) (names : List Bytes) (chord : List ℕ)
      → map config_key_from_name names ≡ map some chord
      → length chord ≤ hotkey_size
      → set_hotkey c (chord_text names) ≡ (
        record c { hotkey_codes = write_from c.hotkey_codes 0 chord; hotkey_n = length chord },
        [],
      )
  unfolding set_hotkey
  set_hotkey-names c names chord known fits =
      let zero_codes : Reading = record {
        hotkey_codes = c.hotkey_codes;
        hotkey_n = 0;
        complaints = [];
      } in
      let read = read_hotkey-names zero_codes names chord known (omega arith) in
      let sum : 0 + length chord ≡ length chord = omega arith in
      rw (tokens-chord_text names chord known, read, sum) refl

  -- The file sets the chord and nothing else.
  pub config_load-chord_file :
      (names : List Bytes) (chord : List ℕ)
      → map config_key_from_name names ≡ map some chord
      → length chord ≤ hotkey_size
      → let c = config_init_defaults fp in
        config_load fp atof (some (chord_file names)) ≡ (
          record c { hotkey_codes = write_from c.hotkey_codes 0 chord; hotkey_n = length chord },
          [],
        )
  config_load-chord_file names chord known fits =
      let c = config_init_defaults fp in
      let v = chord_text names in
      config_load-setting fp atof 104 (codes "otkey.mode_toggle") v key_bytes
        (chord_text_printed names chord known) (chord_file_fits names chord known fits)
      ∙ ap (λ o. (o.0, at_line 1 o.1))
          (apply-hotkey c v ∙ set_hotkey-names c names chord known fits)

  -- Names of at most eight keys, in either case, written to the file with a `+` between them: the
  -- chord read back consists of exactly their codes in that order, and there is no message.
  pub chord_round_trip :
      (names : List Bytes) (chord : List ℕ)
      → map config_key_from_name names ≡ map some chord
      → length chord ≤ hotkey_size
      → let (c, messages) = config_load fp atof (some (chord_file names)) in
        (c.hotkey_n ≡ length chord) × (take c.hotkey_n c.hotkey_codes ≡ chord) × (messages ≡ [])
  unfolding config_init_defaults
  chord_round_trip names chord known fits =
      let written = take-write_from (config_init_defaults fp).hotkey_codes 0 chord (omega arith) in
      let sum : 0 + length chord ≡ length chord = omega arith in
      rw (config_load-chord_file names chord known fits) (refl, rw (sym sum) written, refl)
