-- ===== src/Config/RoundTrip.antt =====
-- Settings written to a file and read back.
pub mod Chords
pub mod Bindings
use mathlib.Core.List.{append-nil}
use meta_dualsense.Prelude.{
  ℕ, suc, ◌+◌, ◌≤◌, ◌<◌, ◌≡◌, refl, Bool, true, false, not, ◌&&◌, List, [], ◌∷◌, ◌++◌, Option, none,
  some, arith, Bool-cases, inl, inr, ◌==◌, if◌then◌else◌, length, length-append, all, ap, ◌∙◌,
}
use meta_dualsense.Prelude.Text.{
  Bytes, codes, is_space, c_string, cut, pieces, fgets_all, skip, skip_end,
}
use meta_dualsense.Prelude.Text.Plain.{
  is_printing, is_printed, all-append, before_end, skip-printed, skip_end-newline, skip_end-printed,
  cut-append, pieces-line,
}
use meta_dualsense.Mapper.Float.{Float}
use meta_dualsense.Config.{Config, config_init_defaults}
use meta_dualsense.Config.Parser.{
  trim, apply, apply_cut, apply_trimmed, load_line, load_lines, config_load, at_line, Complaint,
}

-- The line of a setting, without its newline.
abbrev pub setting : Bytes → Bytes → Bytes
setting k v = k ++ 61 ∷ v

-- Neither `=` nor the sign of a comment.
abbrev pub is_key_byte : ℕ → Bool
is_key_byte c = is_printing c && not (c == 61) && not (c == 35)

abbrev pub is_key : Bytes → Bool
is_key = all is_key_byte

key_printed : (k : Bytes) → is_key k ≡ true → is_printed k ≡ true
key_printed [] h = refl
key_printed (c ∷ k) h = ground (arith, h, key_printed k (ground (arith, h)))

key_uncut : (k : Bytes) → is_key k ≡ true → all (λ c. not (c == 61)) k ≡ true
key_uncut [] h = refl
key_uncut (c ∷ k) h = ground (arith, h, key_uncut k (ground (arith, h)))

pub setting_printed :
    (k v : Bytes) → is_key k ≡ true → is_printed v ≡ true → is_printed (setting k v) ≡ true
unfolding is_space
setting_printed k v hk hv =
    all-append is_printing k (61 ∷ v) (key_printed k hk) (ground (arith, hv))

trim-printed : (s : Bytes) → is_printed s ≡ true → trim s ≡ s
unfolding trim skip skip_end
trim-printed [] h = refl
trim-printed (c ∷ s) h =
    ap (skip_end is_space) (skip-printed c s (ground (arith, h))) ∙ skip_end-printed (c ∷ s) h

trim-line :
    (first : ℕ) (s : Bytes)
    → is_printed (first ∷ s) ≡ true
    → trim (c_string (first ∷ s ++ 10 ∷ [])) ≡ first ∷ s
unfolding trim
trim-line first s h =
    ap trim (before_end (first ∷ s) h)
    ∙ ap (skip_end is_space) (skip-printed first (s ++ 10 ∷ []) (ground (arith, h)))
    ∙ skip_end-newline (first ∷ s) h

module _ (fp : Float) (atof : Bytes → fp.Double) where
  open fp use {Double}

  -- The line of a setting does what the chain of comparisons does for its two parts.
  pub load_line-setting :
      (c : Config Double) (first : ℕ) (k v : Bytes)
      → is_key (first ∷ k) ≡ true
      → is_printed v ≡ true
      → load_line fp atof c (setting (first ∷ k) v ++ 10 ∷ []) ≡ apply fp atof c (first ∷ k) v
  unfolding load_line trim apply_trimmed apply_cut
  load_line-setting c first k v hk hv =
      let same = trim-line first (setting k v) (setting_printed (first ∷ k) v hk hv) in
      let not_comment : (first == 35) ≡ false = ground (arith, hk) in
      rw same (
        rw not_comment (
          rw (cut-append 61 (first ∷ k) v (key_uncut (first ∷ k) hk))
            (rw (trim-printed (first ∷ k) (key_printed (first ∷ k) hk), trim-printed v hv) refl)))

  pub config_load-setting :
      (first : ℕ) (k v : Bytes)
      → is_key (first ∷ k) ≡ true
      → is_printed v ≡ true
      → length (setting (first ∷ k) v) < 511
      → config_load fp atof (some (setting (first ∷ k) v ++ 10 ∷ [])) ≡ (
        (apply fp atof (config_init_defaults fp) (first ∷ k) v).0,
        at_line 1 (apply fp atof (config_init_defaults fp) (first ∷ k) v).1,
      )
  unfolding config_load load_lines
  config_load-setting first k v hk hv fits =
      let s = setting (first ∷ k) v in
      let one = pieces-line 511 511 s (setting_printed (first ∷ k) v hk hv) fits in
      let c = config_init_defaults fp in
      ap (λ lines. load_lines fp atof 1 c lines) one
      ∙ ap (λ o. (o.0, at_line 1 o.1 ++ [])) (load_line-setting c first k v hk hv)
      ∙ ap (λ l. ((apply fp atof c (first ∷ k) v).0, l))
          (append-nil (at_line 1 (apply fp atof c (first ∷ k) v).1))
