-- ===== src/Leds/Polling.antt =====
-- What `state_thread` of recipes-apps/kbm-leds/files/main.c reads: `read_first_line`,
-- `udc_configured` and the override file. The files, the names in a directory, the two services'
-- states and `strtol` are parameters.
use meta_dualsense.Prelude.{
  zero, suc, ◌<◌, arith, length, sym, Bool-cases, inl, inr, ℕ, ◌-◌, ◌≡◌, ◌++◌, Bool, true, false,
  not, ◌&&◌, ◌||◌, Option, none, some, List, [], ◌∷◌, ◌==◌, if◌then◌else◌, take, all, refl, ◌∙◌, ap,
}
use meta_dualsense.Prelude.Int.{ℤ}
use meta_dualsense.Prelude.Text.{Bytes, codes, same_text, before, c_string, behind_prefix}
use meta_dualsense.Leds.{Poll, next_pattern, forced, select_pattern, p_cold_tide, p_heart_searching}
use meta_dualsense.Leds.Overlay.{cold_tide_iff}

-- What a read into a buffer of `bufsz` bytes leaves of the file, up to the end of the line.
unfoldable pub read_first_line : Option Bytes → ℕ → Option Bytes
read_first_line none bufsz = none
read_first_line (some contents) bufsz = some (before 10 (c_string (take (bufsz - 1) contents)))

abbrev is_hidden : Bytes → Bool
is_hidden [] = false
is_hidden (c ∷ name) = c == 46

abbrev says : Option Bytes → Bytes → Bool
says none word = false
says (some line) word = same_text line word

abbrev pub force_path : Bytes
force_path = codes "/run/kbm-leds/force"

-- The path has 159 bytes at most.
unfoldable pub state_path : Bytes → Bytes
state_path name = take 159 (codes "/sys/class/udc/" ++ name ++ codes "/state")

-- Whether nothing follows in the line.
abbrev pub ends : Option Bytes → Bool
ends none = false
ends (some []) = true
ends (some (c ∷ rest)) = c == 0 || c == 10

-- Whether there is a file, which begins with the word and then a newline, a 0 or its end.
abbrev pub line_is : Bytes → Option Bytes → Bool
line_is word none = false
line_is word (some contents) = ends (behind_prefix word contents)

abbrev pub dotted : Bytes → Bool
dotted name = has_rest (behind_prefix (codes ".") name)
  where
    has_rest : Option Bytes → Bool
    has_rest none = false
    has_rest (some rest) = true

abbrev is_plain : ℕ → Bool
is_plain c = not (c == 0) && not (c == 10)

says-before :
    (word contents : Bytes) (n : ℕ)
    → all is_plain word ≡ true
    → length word < n
    → same_text (before 10 (before 0 (take n contents))) word ≡ ends (behind_prefix word contents)
unfolding same_text before behind_prefix
says-before word contents zero plain h = absurd (omega arith)
says-before [] [] (suc n) plain h = refl
says-before [] (c ∷ contents) (suc n) plain h = elim (Bool-cases (c == 0)) [
  | inl nul ↦ rw nul refl
  | inr other ↦ elim (Bool-cases (c == 10)) [
    | inl newline ↦ rw (other, newline) refl
    | inr more ↦ rw (other, more) refl
  ]
]
says-before (w ∷ word) [] (suc n) plain h = refl
says-before (w ∷ word) (c ∷ contents) (suc n) plain h =
    let rest = says-before word contents n (ground (arith, plain)) (omega (arith, h)) in
    elim (Bool-cases (w == c)) [
      | inl same ↦
          let nul : (c == 0) ≡ false = ground (arith, plain) in
          let newline : (c == 10) ≡ false = ground (arith, plain) in
          let back : (c == w) ≡ true = ground arith in rw (same, nul) (rw newline (rw back rest))
      | inr other ↦
          let back : (c == w) ≡ false = ground arith in
          rw other (elim (Bool-cases (c == 0)) [
            | inl nul ↦ rw nul refl
            | inr some_byte ↦ rw some_byte (elim (Bool-cases (c == 10)) [
              | inl newline ↦ rw newline refl
              | inr more ↦ rw more (rw back refl)
            ])
          ])
    ]

says-first_line :
    (word : Bytes) (contents : Option Bytes) (bufsz : ℕ)
    → all is_plain word ≡ true
    → length word < bufsz - 1
    → says (read_first_line contents bufsz) word ≡ line_is word contents
unfolding read_first_line
says-first_line word none bufsz plain h = refl
says-first_line word (some contents) bufsz plain h = says-before word contents (bufsz - 1) plain h

is_hidden-dotted : (name : Bytes) → is_hidden name ≡ dotted name
unfolding behind_prefix
is_hidden-dotted [] = refl
is_hidden-dotted (c ∷ name) = elim (Bool-cases (c == 46)) [
  | inl dot ↦ let back : (46 == c) ≡ true = ground arith in rw (dot, back) refl
  | inr other ↦ let back : (46 == c) ≡ false = ground arith in rw (other, back) refl
]

module _ (file : Bytes → Option Bytes) where
  -- Whether the controller's state is "configured"
  unfoldable pub configured : Bytes → Bool
  configured name = says (read_first_line (file (state_path name)) 64) (codes "configured")

  -- The loop over the entries of the directory
  unfoldable pub any_configured : List Bytes → Bool
  any_configured [] = false
  any_configured (name ∷ names) =
      let rest = any_configured names in
      if is_hidden name then rest else if configured name then true else rest

  -- The directory is missing, or has these entries.
  unfoldable pub udc_configured : Option (List Bytes) → Bool
  udc_configured none = false
  udc_configured (some names) = any_configured names

  module _ (strtol : Bytes → Option ℤ) where
    unfoldable pub read_force : Option Bytes → Option ℤ
    read_force none = none
    read_force (some line) = strtol line

    -- What a pass of the loop finds
    unfoldable pub poll : Option (List Bytes) → Bool → Bool → ℕ → Poll
    poll names emu pt at_ms = record {
      force = read_force (read_first_line (file force_path) 16);
      emu = emu;
      pt = pt;
      host = udc_configured names;
      at_ms = at_ms;
    }

  -- No controller that the directory shows is configured: the name of each entry begins with a dot,
  -- or its state file is missing or has another first line.
  abbrev pub unconfigured : Option (List Bytes) → Bool
  unconfigured none = true
  unconfigured (some names) =
      all (λ name. dotted name || not (line_is (codes "configured") (file (state_path name)))) names

  configured-line_is :
      (name : Bytes) → configured name ≡ line_is (codes "configured") (file (state_path name))
  unfolding configured
  configured-line_is name =
      says-first_line (codes "configured") (file (state_path name)) 64 refl (omega arith)

  any-all : (names : List Bytes) → not (any_configured names) ≡ unconfigured (some names)
  unfolding any_configured
  any-all [] = refl
  any-all (name ∷ names) =
      rw (sym (configured-line_is name), sym (is_hidden-dotted name))
        (either (is_hidden name) (configured name) _ _ (any-all names))
    where
      either :
          (h c r s : Bool)
          → not r ≡ s
          → not (if h then r else if c then true else r) ≡ ((h || not c) && s)
      either true c r s e = e
      either false true r s e = refl
      either false false r s e = e

  not-udc_configured :
      (names : Option (List Bytes)) → not (udc_configured names) ≡ unconfigured names
  unfolding udc_configured
  not-udc_configured none = refl
  not-udc_configured (some names) = any-all names

searching_iff :
    (emu pt host : Bool)
    → (select_pattern emu pt host == p_heart_searching)
      ≡ ((emu || pt) && not (emu && pt) && not host)
unfolding select_pattern
searching_iff true true host = refl
searching_iff true false true = refl
searching_iff true false false = refl
searching_iff false true true = refl
searching_iff false true false = refl
searching_iff false false host = refl

-- While there is no override file, a poll asks for the error pattern exactly if both services are
-- active, whatever the host does; and for the searching pattern exactly if one of the two is active
-- and no controller that the directory shows has a state file that begins with "configured" and then
-- ends, by a newline, a 0 or the end of the file; entries whose name begins with a dot do not count.
pub pattern_reasons :
    (file : Bytes → Option Bytes) (strtol : Bytes → Option ℤ) (names : Option (List Bytes))
    (emu pt : Bool) (at_ms : ℕ)
    → file force_path ≡ none
    → let p = next_pattern (poll file strtol names emu pt at_ms) in
      ((p == p_cold_tide) ≡ (emu && pt))
      × ((p == p_heart_searching) ≡ ((emu || pt) && not (emu && pt) && unconfigured file names))
unfolding poll read_first_line read_force next_pattern forced
pattern_reasons file strtol names emu pt at_ms absent = rw absent (
  cold_tide_iff emu pt (udc_configured file names),
  searching_iff emu pt (udc_configured file names)
      ∙ ap (λ b. (emu || pt) && not (emu && pt) && b) (not-udc_configured file names),
)
