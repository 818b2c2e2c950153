-- ===== src/Chord/Once.antt =====
-- The chord fires once for each time that it is held.
use meta_dualsense.Prelude.{
  ℕ, ◌≡◌, ◌⊎◌, inl, inr, Bool, true, false, Option, none, some, List, [], ◌∷◌, ◌++◌, arith,
}
use meta_dualsense.Chord.{
  HotkeyState, note_key, all_pressed, settle, is_down, hotkey_update, hotkey_should_fire, ChordOp,
  event, check, chord_step, chord_run,
}

-- After some operation of `more`, made after `ops`, a key of the chord was up.
abbrev pub WasBroken : List ℕ → ℕ → List ChordOp → List ChordOp → Type 0
WasBroken codes n [] ops = ⊥
WasBroken codes n (op ∷ more) ops =
    (all_pressed n (chord_run codes n ((op ∷ more) ++ ops)).pressed ≡ false)
    ⊎ WasBroken codes n more ops

settle_fired :
    (n : ℕ) (s : HotkeyState) (o : Option (List Bool)) (now_ns : ℕ)
    → s.fired ≡ true
    → ((settle n s o now_ns).fired ≡ true) ⊎ (all_pressed n (settle n s o now_ns).pressed ≡ false)
unfolding settle
settle_fired n s none now_ns f = inl f
settle_fired n s (some pressed) now_ns f = ground arith

step_fired :
    (codes : List ℕ) (n : ℕ) (s : HotkeyState) (op : ChordOp)
    → s.fired ≡ true
    → ((chord_step codes n s op).fired ≡ true)
      ⊎ (all_pressed n (chord_step codes n s op).pressed ≡ false)
unfolding chord_step hotkey_update hotkey_should_fire
step_fired codes n s (check now_ns) f = ground arith
step_fired codes n s (event e now_ns) f =
    ground (arith, settle_fired n s (note_key n codes s.pressed e.code (is_down e)) now_ns f)

run_fired :
    (codes : List ℕ) (n : ℕ) (more ops : List ChordOp)
    → (chord_run codes n ops).fired ≡ true
    → ((chord_run codes n (more ++ ops)).fired ≡ true) ⊎ WasBroken codes n more ops
unfolding chord_run
run_fired codes n [] ops f = inl f
run_fired codes n (op ∷ more) ops f = elim (run_fired codes n more ops f) [
  | inr broken ↦ inr (inr broken)
  | inl still ↦ elim (step_fired codes n (chord_run codes n (more ++ ops)) op still) [
    | inl fired ↦ inl fired
    | inr up ↦ inr (inl up)
  ]
]

not_again :
    (s : HotkeyState) (now_ns : ℕ) → s.fired ≡ true → (hotkey_should_fire s now_ns).1 ≡ true → ⊥
unfolding hotkey_should_fire
not_again s now_ns f h = ground arith

fires_sets :
    (codes : List ℕ) (n : ℕ) (ops : List ChordOp) (first : ℕ)
    → (hotkey_should_fire (chord_run codes n ops) first).1 ≡ true
    → (chord_run codes n (check first ∷ ops)).fired ≡ true
unfolding chord_run chord_step hotkey_should_fire
fires_sets codes n ops first f = ground arith

-- Between two firings a key of the chord was up: if the test fires after the history `ops`, and
-- fires again after `more` operations behind that test, then after one of those operations some
-- key of the chord was not pressed.
pub fires_again_only_broken :
    (codes : List ℕ) (n : ℕ) (ops more : List ChordOp) (first second : ℕ)
    → (hotkey_should_fire (chord_run codes n ops) first).1 ≡ true
    → (hotkey_should_fire (chord_run codes n (more ++ (check first ∷ ops))) second).1 ≡ true
    → WasBroken codes n more (check first ∷ ops)
fires_again_only_broken codes n ops more first second f g =
    elim (run_fired codes n more (check first ∷ ops) (fires_sets codes n ops first f)) [
      | inr broken ↦ broken
      | inl still ↦
          absurd (not_again (chord_run codes n (more ++ (check first ∷ ops))) second still g)
    ]
