-- ===== src/Mapper/BuildReport/Writes.antt =====
-- A byte of the report is the last value assigned to it.
use meta_dualsense.Prelude.{
  ℕ, zero, suc, ◌<◌, ◌≡◌, refl, ap, ◌∙◌, List, [], ◌∷◌, ◌==◌, if◌then◌else◌, get_or, set, replicate,
  length, length-set, length-replicate, arith,
}
use meta_dualsense.Mapper.BuildReport.{written}

-- What element `j`, which is `v` at first, holds after the assignments.
unfoldable pub last_value : List (ℕ × ℕ) → ℕ → ℕ → ℕ
last_value [] j v = v
last_value ((i, x) ∷ rest) j v = last_value rest j (if i == j then x else v)

get_or-set :
    (xs : List ℕ) (i j v : ℕ)
    → j < length xs
    → get_or (set xs i v) j 0 ≡ (if i == j then v else get_or xs j 0)
get_or-set [] i j v h = absurd (omega arith)
get_or-set (x ∷ xs) zero zero v h = ground arith
get_or-set (x ∷ xs) zero (suc j) v h = ground arith
get_or-set (x ∷ xs) (suc i) zero v h = ground arith
get_or-set (x ∷ xs) (suc i) (suc j) v h = get_or-set xs i j v (omega arith) ∙ ground arith

pub length-written : (ws : List (ℕ × ℕ)) (buf : List ℕ) → length (written ws buf) ≡ length buf
unfolding written
length-written [] buf = refl
length-written ((i, v) ∷ rest) buf = length-written rest (set buf i v) ∙ length-set buf i v

pub get_or-written :
    (ws : List (ℕ × ℕ)) (buf : List ℕ) (j : ℕ)
    → j < length buf
    → get_or (written ws buf) j 0 ≡ last_value ws j (get_or buf j 0)
unfolding written last_value
get_or-written [] buf j h = refl
get_or-written ((i, v) ∷ rest) buf j h =
    get_or-written rest (set buf i v) j (ground (arith, length-set buf i v))
    ∙ ap (last_value rest j) (get_or-set buf i j v h)

pub get_or-replicate : (n j : ℕ) → get_or (replicate n zero) j zero ≡ zero
get_or-replicate zero j = refl
get_or-replicate (suc n) zero = refl
get_or-replicate (suc n) (suc j) = get_or-replicate n j

-- All values assigned are bytes.
abbrev pub AreBytes : List (ℕ × ℕ) → Type 0
AreBytes [] = Unit
AreBytes ((i, v) ∷ rest) = (v < 256) × AreBytes rest

pub last_value-lt : (ws : List (ℕ × ℕ)) (j v : ℕ) → v < 256 → AreBytes ws → last_value ws j v < 256
unfolding last_value
last_value-lt [] j v h b = h
last_value-lt ((i, x) ∷ rest) j v h b =
    last_value-lt rest j (if i == j then x else v) (ground (arith, b)) b.1

-- The bytes of a zeroed buffer after the assignments.
pub get_or-report :
    (ws : List (ℕ × ℕ)) (len j : ℕ)
    → j < len
    → get_or (written ws (replicate len 0)) j 0 ≡ last_value ws j 0
get_or-report ws len j h =
    get_or-written ws (replicate len 0) j (ground (arith, length-replicate len zero))
    ∙ ap (last_value ws j) (get_or-replicate len j)
