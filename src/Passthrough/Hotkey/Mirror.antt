-- ===== src/Passthrough/Hotkey/Mirror.antt =====
-- Both daemons detect the chord in the same way.
use meta_dualsense.Prelude.{
  ℕ, ◌≡◌, refl, Bool, List, [], ◌∷◌, Option, none, some, arith, ◌∙◌, ap, ◌==◌, Bool-cases, inl, inr,
  false, replicate,
}
use meta_dualsense.Input.{InputEvent, ev_key}
use meta_dualsense.Chord
use meta_dualsense.Chord.{ChordOp, event, check, note_key, is_down}
use meta_dualsense.Passthrough.Hotkey.{HotkeyState, settle, hotkey_update, hotkey_should_fire}

unfoldable pub step : HotkeyState → ChordOp → HotkeyState
step s (event e now_ns) = hotkey_update s e now_ns
step s (check now_ns) = (hotkey_should_fire s now_ns).0

unfoldable pub run : HotkeyState → List ChordOp → HotkeyState
run s [] = s
run s (op ∷ ops) = step (run s ops) op

-- The state without the codes, as dualsense-ffsd keeps it.
abbrev pub forget : HotkeyState → Chord.HotkeyState
forget s = record { pressed = s.pressed; all_since_ns = s.all_since_ns; fired = s.fired }

-- The zeroed state with a chord loaded.
abbrev pub loaded : List ℕ → ℕ → HotkeyState
loaded codes n = record {
  codes = codes;
  n = n;
  pressed = replicate 8 false;
  all_since_ns = 0;
  fired = false;
}

forget-settle :
    (s : HotkeyState) (o : Option (List Bool)) (now_ns : ℕ)
    → forget (settle s o now_ns) ≡ Chord.settle s.n (forget s) o now_ns
unfolding settle Chord.settle
forget-settle s none now_ns = refl
forget-settle s (some pressed) now_ns = ground arith

settle_keeps :
    (s : HotkeyState) (o : Option (List Bool)) (now_ns : ℕ)
    → ((settle s o now_ns).codes ≡ s.codes) × ((settle s o now_ns).n ≡ s.n)
unfolding settle
settle_keeps s none now_ns = (refl, refl)
settle_keeps s (some pressed) now_ns = (ground arith, ground arith)

step_keeps :
    (s : HotkeyState) (op : ChordOp) → ((step s op).codes ≡ s.codes) × ((step s op).n ≡ s.n)
unfolding step hotkey_update hotkey_should_fire
step_keeps s (check now_ns) = (ground arith, ground arith)
step_keeps s (event e now_ns) =
    let kept = settle_keeps s (note_key s.n s.codes s.pressed e.code (is_down e)) now_ns in
    (ground (arith, kept), ground (arith, kept))

forget-update :
    (s : HotkeyState) (e : InputEvent) (now_ns : ℕ)
    → forget (hotkey_update s e now_ns) ≡ Chord.hotkey_update s.codes s.n (forget s) e now_ns
unfolding hotkey_update Chord.hotkey_update
forget-update s e now_ns =
    let settled = forget-settle s (note_key s.n s.codes s.pressed e.code (is_down e)) now_ns in
    elim (Bool-cases (e.type == ev_key)) [
      | inr other ↦ rw other
      | inl key ↦ elim (Bool-cases (s.n == 0)) [
        | inl off ↦ rw (key, off)
        | inr on ↦ rw (key, on) settled
      ]
    ]

fires-forget :
    (s : HotkeyState) (now_ns : ℕ)
    → (forget (hotkey_should_fire s now_ns).0 ≡ (Chord.hotkey_should_fire (forget s) now_ns).0)
      × ((hotkey_should_fire s now_ns).1 ≡ (Chord.hotkey_should_fire (forget s) now_ns).1)
unfolding hotkey_should_fire Chord.hotkey_should_fire
fires-forget s now_ns = (ground arith, ground arith)

forget-step :
    (s : HotkeyState) (op : ChordOp)
    → forget (step s op) ≡ Chord.chord_step s.codes s.n (forget s) op
unfolding step Chord.chord_step
forget-step s (event e now_ns) = forget-update s e now_ns
forget-step s (check now_ns) = (fires-forget s now_ns).0

run-forget :
    (codes : List ℕ) (n : ℕ) (ops : List ChordOp)
    → let s = run (loaded codes n) ops in
      (s.codes ≡ codes) × (s.n ≡ n) × (forget s ≡ Chord.chord_run codes n ops)
unfolding run Chord.chord_run
run-forget codes n [] = (refl, refl, refl)
run-forget codes n (op ∷ ops) =
    let s = run (loaded codes n) ops in
    let (same_codes, same_n, same) = run-forget codes n ops in
    let (kept_codes, kept_n) = step_keeps s op in
    (
      kept_codes ∙ same_codes,
      kept_n ∙ same_n,
      forget-step s op
          ∙ ap (λ (k : List ℕ). Chord.chord_step k s.n (forget s) op) same_codes
          ∙ ap (λ (k : ℕ). Chord.chord_step codes k (forget s) op) same_n
          ∙ ap (λ (k : Chord.HotkeyState). Chord.chord_step codes n k op) same,
    )

-- With the same chord loaded, kbm-passthrough and dualsense-ffsd fire on the same histories of
-- events and tests.
pub mirrors_chord :
    (codes : List ℕ) (n : ℕ) (ops : List ChordOp) (now_ns : ℕ)
    → (hotkey_should_fire (run (loaded codes n) ops) now_ns).1
      ≡ (Chord.hotkey_should_fire (Chord.chord_run codes n ops) now_ns).1
mirrors_chord codes n ops now_ns =
    (fires-forget (run (loaded codes n) ops) now_ns).1
    ∙ ap (λ (k : Chord.HotkeyState). (Chord.hotkey_should_fire k now_ns).1)
        (run-forget codes n ops).2
