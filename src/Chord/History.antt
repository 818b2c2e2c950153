-- ===== src/Chord/History.antt =====
-- The chord's state read off the history of key events.
use meta_dualsense.Prelude.{
  ℕ, suc, zero, ◌≡◌, ◌≢◌, refl, Bool, true, false, ◌&&◌, ◌||◌, Option, none, some, List, [], ◌∷◌,
  ◌==◌, leb, ◌+◌, if◌then◌else◌, replicate, arith, ◌≤◌, Bool-cases, inl, inr,
}
use meta_dualsense.Input.{InputEvent, ev_key}
use meta_dualsense.Chord.{cons_some, note_key, all_pressed, is_down, ChordOp, event, check}

-- Whether the latest key event for this code left the key down.
unfoldable pub held : ℕ → List ChordOp → Bool
held c [] = false
held c (event e now_ns ∷ ops) = if e.type == ev_key && e.code == c then is_down e else held c ops
held c (check now_ns ∷ ops) = held c ops

unfoldable pub all_held : ℕ → List ℕ → List ChordOp → Bool
all_held zero codes ops = true
all_held (suc n) [] ops = true
all_held (suc n) (c ∷ codes) ops = held c ops && all_held n codes ops

unfoldable pub among : ℕ → List ℕ → ℕ → Bool
among zero codes c = false
among (suc n) [] c = false
among (suc n) (k ∷ codes) c = c == k || among n codes c

abbrev pub completed : Option ℕ → ℕ → Option ℕ
completed none now_ns = some now_ns
completed (some t) now_ns = some t

-- Since when all keys have been held without a break: the time of the key event that completed the
-- chord, `none` if the chord is not complete.
unfoldable pub complete_since : ℕ → List ℕ → List ChordOp → Option ℕ
complete_since n codes [] = none
complete_since n codes (event e now_ns ∷ ops) =
    let before = complete_since n codes ops in
    if e.type == ev_key && among n codes e.code
    then (if all_held n codes (event e now_ns ∷ ops) then completed before now_ns else none)
    else before
complete_since n codes (check now_ns ∷ ops) = complete_since n codes ops

-- Whether a time lies at least a second before another, both in ns and the second cut to ms.
abbrev pub second_ago : Option ℕ → ℕ → Bool
second_ago none now_ns = false
second_ago (some t) now_ns = leb (t + 1000000000) now_ns

-- Whether some test found the chord complete for at least a second, since a key event for one of its
-- keys last left a key of it up.
unfoldable pub has_fired : ℕ → List ℕ → List ChordOp → Bool
has_fired n codes [] = false
has_fired n codes (event e now_ns ∷ ops) =
    let before = has_fired n codes ops in
    if e.type == ev_key && among n codes e.code
    then all_held n codes (event e now_ns ∷ ops) && before
    else before
has_fired n codes (check now_ns ∷ ops) =
    second_ago (complete_since n codes ops) now_ns || has_fired n codes ops

-- The first `n` codes differ, and there are so many.
abbrev pub AreDistinct : ℕ → List ℕ → Type 0
AreDistinct zero codes = Unit
AreDistinct (suc n) [] = ⊥
AreDistinct (suc n) (c ∷ codes) = (among n codes c ≡ false) × AreDistinct n codes

abbrev pub Matches : ℕ → List ℕ → List Bool → List ChordOp → Type 0
Matches zero codes pressed ops = Unit
Matches (suc n) [] pressed ops = ⊥
Matches (suc n) (c ∷ codes) [] ops = ⊥
Matches (suc n) (c ∷ codes) (p ∷ pressed) ops = (p ≡ held c ops) × Matches n codes pressed ops

pub all_pressed-Matches :
    (n : ℕ) (codes : List ℕ) (pressed : List Bool) (ops : List ChordOp)
    → Matches n codes pressed ops
    → all_pressed n pressed ≡ all_held n codes ops
unfolding all_pressed all_held
all_pressed-Matches zero codes pressed ops m = refl
all_pressed-Matches (suc n) [] pressed ops m = absurd m
all_pressed-Matches (suc n) (c ∷ codes) [] ops m = absurd m
all_pressed-Matches (suc n) (c ∷ codes) (p ∷ pressed) ops m =
    ground (arith, m, all_pressed-Matches n codes pressed ops m.1)

-- An event for another code leaves the match as it is.
pub Matches-other :
    (n : ℕ) (codes : List ℕ) (pressed : List Bool) (e : InputEvent) (now_ns : ℕ)
    (ops : List ChordOp)
    → among n codes e.code ≡ false
    → Matches n codes pressed ops
    → Matches n codes pressed (event e now_ns ∷ ops)
unfolding held among
Matches-other zero codes pressed e now_ns ops a m = m
Matches-other (suc n) [] pressed e now_ns ops a m = absurd m
Matches-other (suc n) (c ∷ codes) [] e now_ns ops a m = absurd m
Matches-other (suc n) (c ∷ codes) (p ∷ pressed) e now_ns ops a m =
    (ground arith, Matches-other n codes pressed e now_ns ops (ground arith) m.1)

-- What the first loop leaves: the slots match the history with the event, if it is relevant.
abbrev pub Noted : ℕ → List ℕ → Option (List Bool) → InputEvent → ℕ → List ChordOp → Type 0
Noted n codes none e now_ns ops = among n codes e.code ≡ false
Noted n codes (some pressed) e now_ns ops =
    (among n codes e.code ≡ true) × Matches n codes pressed (event e now_ns ∷ ops)

Noted-cons_some :
    (n : ℕ) (codes : List ℕ) (c : ℕ) (p : Bool) (o : Option (List Bool)) (e : InputEvent)
    (now_ns : ℕ) (ops : List ChordOp)
    → e.code ≢ c
    → p ≡ held c ops
    → Noted n codes o e now_ns ops
    → Noted (suc n) (c ∷ codes) (cons_some p o) e now_ns ops
unfolding among held
Noted-cons_some n codes c p none e now_ns ops ne h o = ground arith
Noted-cons_some n codes c p (some pressed) e now_ns ops ne h o =
    (ground (arith, o.0), (ground arith, o.1))

pub note_key-Noted :
    (n : ℕ) (codes : List ℕ) (pressed : List Bool) (e : InputEvent) (now_ns : ℕ)
    (ops : List ChordOp)
    → e.type ≡ ev_key
    → AreDistinct n codes
    → Matches n codes pressed ops
    → Noted n codes (note_key n codes pressed e.code (is_down e)) e now_ns ops
unfolding note_key among
note_key-Noted zero codes pressed e now_ns ops k d m = refl
note_key-Noted (suc n) [] pressed e now_ns ops k d m = absurd m
note_key-Noted (suc n) (c ∷ codes) [] e now_ns ops k d m = absurd m
note_key-Noted (suc n) (c ∷ codes) (p ∷ pressed) e now_ns ops k d m =
    elim (Bool-cases (e.code == c)) [
      | inl same ↦ rw same (
        ground arith,
        (
          unfold held in ground arith,
          Matches-other n codes pressed e now_ns ops (ground (arith, d)) m.1,
        ),
      )
      | inr other ↦ rw other (
          Noted-cons_some n codes c p _ e now_ns ops (ground arith) m.0
            (note_key-Noted n codes pressed e now_ns ops k d.1 m.1))
    ]

pub Matches-check :
    (n : ℕ) (codes : List ℕ) (pressed : List Bool) (now_ns : ℕ) (ops : List ChordOp)
    → Matches n codes pressed ops
    → Matches n codes pressed (check now_ns ∷ ops)
unfolding held
Matches-check zero codes pressed now_ns ops m = m
Matches-check (suc n) [] pressed now_ns ops m = m
Matches-check (suc n) (c ∷ codes) [] now_ns ops m = m
Matches-check (suc n) (c ∷ codes) (p ∷ pressed) now_ns ops m =
    (m.0, Matches-check n codes pressed now_ns ops m.1)

-- An event that is no key event changes nothing.
pub Matches-skip :
    (n : ℕ) (codes : List ℕ) (pressed : List Bool) (e : InputEvent) (now_ns : ℕ)
    (ops : List ChordOp)
    → e.type ≢ ev_key
    → Matches n codes pressed ops
    → Matches n codes pressed (event e now_ns ∷ ops)
unfolding held
Matches-skip zero codes pressed e now_ns ops k m = m
Matches-skip (suc n) [] pressed e now_ns ops k m = m
Matches-skip (suc n) (c ∷ codes) [] e now_ns ops k m = m
Matches-skip (suc n) (c ∷ codes) (p ∷ pressed) e now_ns ops k m =
    (ground (arith, m.0), Matches-skip n codes pressed e now_ns ops k m.1)

pub Matches-reset :
    (n m : ℕ) (codes : List ℕ)
    → n ≤ m
    → AreDistinct n codes
    → Matches n codes (replicate m false) []
unfolding held
Matches-reset zero m codes h d = tt
Matches-reset (suc n) m [] h d = d
Matches-reset (suc n) zero (c ∷ codes) h d = absurd (omega arith)
Matches-reset (suc n) (suc m) (c ∷ codes) h d = (refl, Matches-reset n m codes (omega arith) d.1)
