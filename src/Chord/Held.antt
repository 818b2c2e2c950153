-- ===== src/Chord/Held.antt =====
-- Firing needs every key of the chord.
use meta_dualsense.Prelude.{
  ℕ, suc, zero, ◌≡◌, refl, true, false, ◌&&◌, Option, none, some, List, [], ◌∷◌, ◌==◌, arith, ◌≤◌,
  ◌∙◌,
}
use meta_dualsense.Input.{InputEvent, ev_key}
use meta_dualsense.Chord.{hotkey_should_fire, ChordOp, event, check, chord_run}
use meta_dualsense.Chord.History.{held, all_held, among, complete_since, second_ago, AreDistinct}
use meta_dualsense.Chord.Fires.{AreTimed, hotkey_should_fire_iff}

all_held-check :
    (n : ℕ) (codes : List ℕ) (now_ns : ℕ) (ops : List ChordOp)
    → all_held n codes (check now_ns ∷ ops) ≡ all_held n codes ops
unfolding all_held held
all_held-check zero codes now_ns ops = refl
all_held-check (suc n) [] now_ns ops = refl
all_held-check (suc n) (c ∷ codes) now_ns ops = ground (arith, all_held-check n codes now_ns ops)

all_held-irrelevant :
    (n : ℕ) (codes : List ℕ) (e : InputEvent) (now_ns : ℕ) (ops : List ChordOp)
    → (e.type == ev_key && among n codes e.code) ≡ false
    → all_held n codes (event e now_ns ∷ ops) ≡ all_held n codes ops
unfolding all_held held among
all_held-irrelevant zero codes e now_ns ops h = refl
all_held-irrelevant (suc n) [] e now_ns ops h = refl
all_held-irrelevant (suc n) (c ∷ codes) e now_ns ops h =
    ground (arith, all_held-irrelevant n codes e now_ns ops)

-- A complete chord is one whose keys are all held.
complete_since-all_held :
    (n : ℕ) (codes : List ℕ) (ops : List ChordOp) {t : ℕ}
    → complete_since n codes ops ≡ some t
    → all_held n codes ops ≡ true
unfolding complete_since
complete_since-all_held n codes [] h = cc
complete_since-all_held n codes (check now_ns ∷ ops) h =
    all_held-check n codes now_ns ops ∙ complete_since-all_held n codes ops h
complete_since-all_held n codes (event e now_ns ∷ ops) {t} h =
    ground
      (arith, all_held-irrelevant n codes e now_ns ops, complete_since-all_held n codes ops {t = t})

held_from_since :
    (n : ℕ) (codes : List ℕ) (ops : List ChordOp) (now_ns : ℕ) (o : Option ℕ)
    → complete_since n codes ops ≡ o
    → second_ago o now_ns ≡ true
    → all_held n codes ops ≡ true
held_from_since n codes ops now_ns none e h = cc
held_from_since n codes ops now_ns (some t) e h = complete_since-all_held n codes ops e

-- Whenever the test fires, every key of the chord is held: for a chord of at most eight different
-- keys and events read at times other than 0.
fires_only_held :
    (n : ℕ) (codes : List ℕ) (ops : List ChordOp) (now_ns : ℕ)
    → n ≤ 8
    → AreDistinct n codes
    → AreTimed ops
    → (hotkey_should_fire (chord_run codes n ops) now_ns).1 ≡ true
    → all_held n codes ops ≡ true
fires_only_held n codes ops now_ns h d a f =
    held_from_since n codes ops now_ns (complete_since n codes ops) refl
      (ground (arith, hotkey_should_fire_iff n codes ops now_ns h d a))
