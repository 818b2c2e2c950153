-- ===== src/Prelude/Text/Plain.antt =====
-- The text functions on texts without the bytes that they look for.
use Prim.Native.Nat.{ℕ, ◌-◌, ◌<◌}
use mathlib.Core.Path.{◌≡◌, refl}
use mathlib.Core.Bool.{Bool, true, false, not, ◌&&◌}
use mathlib.Core.List.{[], ◌∷◌, ◌++◌}
use mathlib.Core.Option.{some}
use native.Mathlib.Omega.{arith}
use meta_dualsense.Prelude.Tests.{◌==◌}
use meta_dualsense.Prelude.Lists.{all, length}
use meta_dualsense.Prelude.Text.{Bytes, is_space, skip, skip_end, cut, before, c_string, pieces}

-- Neither white space nor the end of a string.
abbrev pub is_printing : ℕ → Bool
is_printing c = not (is_space c) && not (c == 0)

abbrev pub is_printed : Bytes → Bool
is_printed = all is_printing

pub all-append :
    (p : ℕ → Bool) (a b : Bytes) → all p a ≡ true → all p b ≡ true → all p (a ++ b) ≡ true
all-append p [] b ha hb = hb
all-append p (c ∷ a) b ha hb = ground (arith, ha, all-append p a b (ground (arith, ha)) hb)

pub before_end : (s : Bytes) → is_printed s ≡ true → c_string (s ++ 10 ∷ []) ≡ s ++ 10 ∷ []
unfolding before
before_end [] h = refl
before_end (c ∷ s) h = ground (arith, h, before_end s (ground (arith, h)))

pub skip-printed : (c : ℕ) (s : Bytes) → is_printing c ≡ true → skip is_space (c ∷ s) ≡ c ∷ s
unfolding skip
skip-printed c s h = ground (arith, h)

pub skip_end-newline : (s : Bytes) → is_printed s ≡ true → skip_end is_space (s ++ 10 ∷ []) ≡ s
unfolding skip_end is_space
skip_end-newline [] h = refl
skip_end-newline (c ∷ s) h = ground (arith, h, skip_end-newline s (ground (arith, h)))

pub skip_end-printed : (s : Bytes) → is_printed s ≡ true → skip_end is_space s ≡ s
unfolding skip_end
skip_end-printed [] h = refl
skip_end-printed (c ∷ s) h = ground (arith, h, skip_end-printed s (ground (arith, h)))

pub cut-append :
    (sep : ℕ) (k v : Bytes)
    → all (λ c. not (c == sep)) k ≡ true
    → cut sep (k ++ sep ∷ v) ≡ some (k, v)
unfolding cut
cut-append sep [] v h = ground arith
cut-append sep (c ∷ k) v h =
    let rest = cut-append sep k v (ground (arith, h)) in rw rest (ground (arith, h))

-- A line with its newline that fits is read in one piece.
pub pieces-line :
    (size room : ℕ) (s : Bytes)
    → is_printed s ≡ true
    → length s < room
    → pieces size room (s ++ 10 ∷ []) ≡ (s ++ 10 ∷ []) ∷ []
unfolding pieces is_space
pieces-line size room [] h fits = refl
pieces-line size room (c ∷ s) h fits =
    let rest = pieces-line size (room - 1) s (ground (arith, h)) (omega arith) in
    let no_newline : (c == 10) ≡ false = ground (arith, h) in
    let room_left : (room == 1) ≡ false = ground arith in rw (no_newline, room_left, rest)
