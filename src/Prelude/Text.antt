-- ===== src/Prelude/Text.antt =====
-- Text as the list of its bytes, with the functions of the C library that the programs call on it.
pub mod Plain
pub mod Decimal
use Prim.Native.Char.{code}
use Prim.Native.String.{String}
use Prim.Native.Nat.{ℕ, ◌+◌, ◌-◌}
use mathlib.Core.Bool.{Bool, true, false, ◌&&◌, ◌||◌}
use mathlib.Core.List.{List, [], ◌∷◌, map}
use mathlib.Core.Option.{Option, none, some}
use mathlib.Core.Path.{◌≡◌, refl}
use native.Mathlib.Omega.{arith}
use meta_dualsense.Prelude.Tests.{leb, ◌==◌, if◌then◌else◌}

abbrev pub Bytes : Type 0
Bytes = List ℕ

-- The bytes of an ASCII literal.
abbrev pub codes : String → Bytes
codes String.[] = []
codes (String.◌∷◌ c s) = code c ∷ codes s

-- `strcmp(a, b) == 0`
unfoldable pub same_text : Bytes → Bytes → Bool
same_text [] [] = true
same_text [] (b ∷ bs) = false
same_text (a ∷ as_) [] = false
same_text (a ∷ as_) (b ∷ bs) = a == b && same_text as_ bs

pub same_text_lem : (a b : Bytes) → same_text a b ≡ true → a ≡ b
unfolding same_text
same_text_lem [] [] h = refl
same_text_lem [] (b ∷ bs) h = cc
same_text_lem (a ∷ as_) [] h = cc
same_text_lem (a ∷ as_) (b ∷ bs) h = ground (arith, same_text_lem as_ bs)

pub same_text_refl : (a : Bytes) → same_text a a ≡ true
unfolding same_text
same_text_refl [] = refl
same_text_refl (a ∷ as_) = ground (arith, same_text_refl as_)

-- `tolower` in the C locale
unfoldable pub to_lower : ℕ → ℕ
to_lower c = if leb 65 c && leb c 90 then c + 32 else c

-- `strcasecmp(a, b) == 0`
unfoldable pub same_ci : Bytes → Bytes → Bool
same_ci a b = same_text (map to_lower a) (map to_lower b)

-- The rest behind the prefix, if the text begins with it: `strncmp(s, prefix, n) == 0`.
unfoldable pub behind_prefix : Bytes → Bytes → Option Bytes
behind_prefix [] s = some s
behind_prefix (p ∷ ps) [] = none
behind_prefix (p ∷ ps) (c ∷ s) = let rest = behind_prefix ps s in if p == c then rest else none

-- `isspace` in the C locale
unfoldable pub is_space : ℕ → Bool
is_space c = c == 32 || (leb 9 c && leb c 13)

abbrev pub is_nil : Bytes → Bool
is_nil [] = true
is_nil (c ∷ s) = false

-- The text without the bytes at its start that satisfy the test.
unfoldable pub skip : (ℕ → Bool) → Bytes → Bytes
skip p [] = []
skip p (c ∷ s) = let rest = skip p s in if p c then rest else c ∷ s

-- The text without the bytes at its end that satisfy the test.
unfoldable pub skip_end : (ℕ → Bool) → Bytes → Bytes
skip_end p [] = []
skip_end p (c ∷ s) = let rest = skip_end p s in if p c && is_nil rest then [] else c ∷ rest

abbrev pub push_before : ℕ → Option (Bytes × Bytes) → Option (Bytes × Bytes)
push_before c none = none
push_before c (some (a, b)) = some (c ∷ a, b)

-- The texts before and behind the first such byte, as `strchr` finds it.
unfoldable pub cut : ℕ → Bytes → Option (Bytes × Bytes)
cut sep [] = none
cut sep (c ∷ s) = let rest = cut sep s in if c == sep then some ([], s) else push_before c rest

abbrev pub or_cut_here : ℕ → ℕ → Bytes → Option (Bytes × Bytes) → Option (Bytes × Bytes)
or_cut_here sep c s none = if c == sep then some ([], s) else none
or_cut_here sep c s (some (a, b)) = some (c ∷ a, b)

-- The same at the last such byte, as `strrchr` finds it.
unfoldable pub cut_last : ℕ → Bytes → Option (Bytes × Bytes)
cut_last sep [] = none
cut_last sep (c ∷ s) = or_cut_here sep c s (cut_last sep s)

-- The text before the first such byte, all of it if there is none.
unfoldable pub before : ℕ → Bytes → Bytes
before sep [] = []
before sep (c ∷ s) = let rest = before sep s in if c == sep then [] else c ∷ rest

-- What the bytes read into a buffer mean to the string functions: those before the first 0.
abbrev pub c_string : Bytes → Bytes
c_string = before 0

abbrev pub push_line : ℕ → List Bytes → List Bytes
push_line c [] = (c ∷ []) ∷ []
push_line c (l ∷ ls) = (c ∷ l) ∷ ls

-- What calls of `fgets` with a buffer of `size + 1` bytes return until the end of the file: lines
-- with their newline, or pieces of `size` bytes; `room` is what the present piece may still take.
unfoldable pub pieces : ℕ → ℕ → Bytes → List Bytes
pieces size room [] = []
pieces size room (c ∷ s) =
    let full = c == 10 || room == 1 in
    let rest = pieces size (if full then size else room - 1) s in
    if full then (c ∷ []) ∷ rest else push_line c rest

abbrev pub fgets_all : ℕ → Bytes → List Bytes
fgets_all size = pieces (size - 1) (size - 1)
