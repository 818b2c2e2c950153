-- ===== src/Mapper/Samples.antt =====
-- The sample ring as a history of at most 256 samples, the latest first.
use meta_dualsense.Prelude.{
  ℕ, zero, suc, ◌+◌, ◌-◌, ◌%◌, ◌≤◌, ◌<◌, ◌≡◌, ◌≢◌, refl, ap, ap₂, List, [], ◌∷◌, set, get_or,
  length, take, arith,
}
use meta_dualsense.Mapper.{MouseSample, no_sample}

-- The `n` samples before the slot `head`, the latest first.
unfoldable pub recent : List MouseSample → ℕ → ℕ → List MouseSample
recent ring head zero = []
recent ring head (suc n) =
    let idx = (head + 255) % 256 in get_or ring idx no_sample ∷ recent ring idx n

get_or-set_self :
    (xs : List MouseSample) (i : ℕ) (v : MouseSample)
    → i < length xs
    → get_or (set xs i v) i no_sample ≡ v
get_or-set_self [] i v h = absurd (omega arith)
get_or-set_self (x ∷ xs) zero v h = refl
get_or-set_self (x ∷ xs) (suc i) v h = get_or-set_self xs i v (omega arith)

get_or-set_ne :
    (xs : List MouseSample) (i j : ℕ) (v : MouseSample)
    → i ≢ j
    → get_or (set xs i v) j no_sample ≡ get_or xs j no_sample
get_or-set_ne [] i j v h = refl
get_or-set_ne (x ∷ xs) zero zero v h = absurd (h refl)
get_or-set_ne (x ∷ xs) zero (suc j) v h = refl
get_or-set_ne (x ∷ xs) (suc i) zero v h = refl
get_or-set_ne (x ∷ xs) (suc i) (suc j) v h = get_or-set_ne xs i j v (λ e. h (ap suc e))

-- A write at `h` is not seen from `d` slots before it, as long as the walk does not come round.
recent-set_behind :
    (ring : List MouseSample) (h d n : ℕ) (v : MouseSample)
    → h < 256
    → d + n < 256
    → recent (set ring h v) ((h + 256 - d) % 256) n ≡ recent ring ((h + 256 - d) % 256) n
unfolding recent
recent-set_behind ring h d zero v hh hn = refl
recent-set_behind ring h d (suc n) v hh hn =
    let step : ((h + 256 - d) % 256 + 255) % 256 ≡ (h + 256 - suc d) % 256 = omega arith in
    let other : h ≢ (h + 256 - suc d) % 256 = omega arith in
    rw step (
      ap₂ ◌∷◌ (get_or-set_ne ring h ((h + 256 - suc d) % 256) v other)
        (recent-set_behind ring h (suc d) n v hh (omega arith)))

pub recent-push :
    (ring : List MouseSample) (h n : ℕ) (v : MouseSample)
    → length ring ≡ 256
    → h < 256
    → n < 256
    → recent (set ring h v) ((h + 1) % 256) (suc n) ≡ v ∷ recent ring h n
unfolding recent
recent-push ring h n v l hh hn =
    let back : ((h + 1) % 256 + 255) % 256 ≡ h = omega arith in
    let same : (h + 256 - 0) % 256 ≡ h = omega arith in
    let behind : recent (set ring h v) h n ≡ recent ring h n =
      rw same at (recent-set_behind ring h 0 n v hh (omega arith)) in
    rw back (ap₂ ◌∷◌ (get_or-set_self ring h v (omega arith)) behind)

pub take-recent :
    (ring : List MouseSample) (h k n : ℕ) → k ≤ n → take k (recent ring h n) ≡ recent ring h k
unfolding recent
take-recent ring h zero n k = refl
take-recent ring h (suc k) zero le = absurd (omega arith)
take-recent ring h (suc k) (suc n) le =
    ap (λ r. get_or ring ((h + 255) % 256) no_sample ∷ r)
      (take-recent ring ((h + 255) % 256) k n (omega arith))

pub length-recent : (ring : List MouseSample) (h n : ℕ) → length (recent ring h n) ≡ n
unfolding recent
length-recent ring h zero = refl
length-recent ring h (suc n) = ap suc (length-recent ring ((h + 255) % 256) n)

pub take_all : (xs : List MouseSample) (n : ℕ) → length xs ≤ n → take n xs ≡ xs
take_all [] zero h = refl
take_all [] (suc n) h = refl
take_all (x ∷ xs) zero h = absurd (omega arith)
take_all (x ∷ xs) (suc n) h = ap (λ r. x ∷ r) (take_all xs n (omega arith))

-- Of the latest 256, adding one leaves the latest 256 of all.
pub take-take : (k n : ℕ) (xs : List MouseSample) → k ≤ n → take k (take n xs) ≡ take k xs
take-take zero n xs h = refl
take-take (suc k) zero xs h = absurd (omega arith)
take-take (suc k) (suc n) [] h = refl
take-take (suc k) (suc n) (x ∷ xs) h = ap (λ r. x ∷ r) (take-take k n xs (omega arith))
