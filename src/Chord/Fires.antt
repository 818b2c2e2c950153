-- ===== src/Chord/Fires.antt =====
-- When the chord fires, in terms of the key events alone.
use meta_dualsense.Prelude.{
  ℕ, suc, zero, ◌≡◌, ◌≢◌, refl, Bool, false, not, ◌&&◌, Option, none, some, List, [], ◌∷◌, ◌==◌,
  arith, ◌≤◌, ap, ◌||◌, Bool-cases, inl, inr, ◌∙◌,
}
use meta_dualsense.Input.{InputEvent, ev_key}
use meta_dualsense.Chord.{
  HotkeyState, settle, hotkey_update, hotkey_should_fire, ChordOp, event, check, chord_step,
  chord_run,
}
use meta_dualsense.Chord.History.{
  among, complete_since, second_ago, has_fired, AreDistinct, Matches, Noted, all_pressed-Matches,
  note_key-Noted, Matches-check, Matches-other, Matches-skip, Matches-reset,
}

-- Every event is read at a time other than 0.
abbrev pub AreTimed : List ChordOp → Type 0
AreTimed [] = Unit
AreTimed (event e now_ns ∷ ops) = (now_ns ≢ 0) × AreTimed ops
AreTimed (check now_ns ∷ ops) = AreTimed ops

-- The number by which the code stores a time that may be missing.
abbrev pub or_zero : Option ℕ → ℕ
or_zero none = 0
or_zero (some t) = t

abbrev IsTime : Option ℕ → Type 0
IsTime none = Unit
IsTime (some t) = t ≢ 0

record Tracks (n : ℕ) (codes : List ℕ) (s : HotkeyState) (ops : List ChordOp) : Type 0 where
  matched : Matches n codes s.pressed ops
  since : s.all_since_ns ≡ or_zero (complete_since n codes ops)
  timed : IsTime (complete_since n codes ops)
  fired : s.fired ≡ has_fired n codes ops

fire_from_since :
    (s : HotkeyState) (o : Option ℕ) (now_ns : ℕ)
    → s.all_since_ns ≡ or_zero o
    → IsTime o
    → (hotkey_should_fire s now_ns).1 ≡ (not s.fired && second_ago o now_ns)
unfolding hotkey_should_fire
fire_from_since s none now_ns e t = ground arith
fire_from_since s (some since) now_ns e t = ground arith

pressed-settle :
    (n : ℕ) (s : HotkeyState) (pressed : List Bool) (now_ns : ℕ)
    → (settle n s (some pressed) now_ns).pressed ≡ pressed
unfolding settle
pressed-settle n s pressed now_ns = ground arith

settle-Tracks :
    (n : ℕ) (codes : List ℕ) (s : HotkeyState) (o : Option (List Bool)) (e : InputEvent)
    (now_ns : ℕ) (ops : List ChordOp)
    → e.type ≡ ev_key
    → now_ns ≢ 0
    → Noted n codes o e now_ns ops
    → Tracks n codes s ops
    → Tracks n codes (settle n s o now_ns) (event e now_ns ∷ ops)
unfolding settle complete_since has_fired
settle-Tracks n codes s none e now_ns ops k h noted t = record {
  matched = Matches-other n codes s.pressed e now_ns ops noted t.matched;
  since = ground (arith, t.since);
  timed = ground (arith, t.timed);
  fired = ground (arith, t.fired);
}
settle-Tracks n codes s (some pressed) e now_ns ops k h noted t = record {
  matched = rw (pressed-settle n s pressed now_ns) noted.1;
  since = ground (
    arith,
    t.since,
    t.timed,
    noted.0,
    all_pressed-Matches n codes pressed (event e now_ns ∷ ops) noted.1,
  );
  timed = ground (arith, t.timed, noted.0);
  fired =
      ground (
        arith,
        t.fired,
        noted.0,
        all_pressed-Matches n codes pressed (event e now_ns ∷ ops) noted.1,
      );
}

-- The test sets at most the flag.
should_fire_keeps :
    (s : HotkeyState) (now_ns : ℕ)
    → let s' = (hotkey_should_fire s now_ns).0 in
      (s'.pressed ≡ s.pressed) × (s'.all_since_ns ≡ s.all_since_ns)
unfolding hotkey_should_fire
should_fire_keeps s now_ns = ground arith

AreTimed-tail : (op : ChordOp) (ops : List ChordOp) → AreTimed (op ∷ ops) → AreTimed ops
AreTimed-tail (event e now_ns) ops a = a.1
AreTimed-tail (check now_ns) ops a = a

should_fire_flag :
    (s : HotkeyState) (now_ns : ℕ)
    → (hotkey_should_fire s now_ns).0.fired ≡ (s.fired || (hotkey_should_fire s now_ns).1)
unfolding hotkey_should_fire
should_fire_flag s now_ns = ground arith

check-Tracks :
    (n : ℕ) (codes : List ℕ) (s : HotkeyState) (now_ns : ℕ) (ops : List ChordOp)
    → Tracks n codes s ops
    → Tracks n codes (hotkey_should_fire s now_ns).0 (check now_ns ∷ ops)
unfolding complete_since has_fired
check-Tracks n codes s now_ns ops t =
    let (same, when) = should_fire_keeps s now_ns in
    record {
      matched = rw same (Matches-check n codes s.pressed now_ns ops t.matched);
      since = when ∙ t.since;
      timed = t.timed;
      fired =
          let fires = fire_from_since s (complete_since n codes ops) now_ns t.since t.timed in
          ground (arith, should_fire_flag s now_ns, fires, t.fired);
    }

skip-Tracks :
    (n : ℕ) (codes : List ℕ) (s : HotkeyState) (e : InputEvent) (now_ns : ℕ) (ops : List ChordOp)
    → e.type ≢ ev_key
    → Tracks n codes s ops
    → Tracks n codes s (event e now_ns ∷ ops)
unfolding complete_since has_fired
skip-Tracks n codes s e now_ns ops k t = record {
  matched = Matches-skip n codes s.pressed e now_ns ops k t.matched;
  since = ground (arith, t.since);
  timed = ground (arith, t.timed);
  fired = ground (arith, t.fired);
}

-- With no chord keys the feature is off.
off-Tracks :
    (codes : List ℕ) (s : HotkeyState) (e : InputEvent) (now_ns : ℕ) (ops : List ChordOp)
    → Tracks 0 codes s ops
    → Tracks 0 codes s (event e now_ns ∷ ops)
unfolding complete_since has_fired among
off-Tracks codes s e now_ns ops t = record {
  matched = tt;
  since = ground (arith, t.since);
  timed = ground (arith, t.timed);
  fired = ground (arith, t.fired);
}

event-Tracks :
    (n : ℕ) (codes : List ℕ) (s : HotkeyState) (e : InputEvent) (now_ns : ℕ) (ops : List ChordOp)
    → AreDistinct n codes
    → now_ns ≢ 0
    → Tracks n codes s ops
    → Tracks n codes (hotkey_update codes n s e now_ns) (event e now_ns ∷ ops)
unfolding hotkey_update
event-Tracks zero codes s e now_ns ops d h t = elim (Bool-cases (e.type == ev_key)) [
  | inl key ↦ rw key (off-Tracks codes s e now_ns ops t)
  | inr other ↦ rw other (off-Tracks codes s e now_ns ops t)
]
event-Tracks (suc n) codes s e now_ns ops d h t = elim (Bool-cases (e.type == ev_key)) [
  | inl key ↦
      let k : e.type ≡ ev_key = ground arith in
      let some_key : (suc n == 0) ≡ false = ground arith in
      rw (key, some_key)
        (settle-Tracks (suc n) codes s _ e now_ns ops k h
          (note_key-Noted (suc n) codes s.pressed e now_ns ops k d t.matched) t)
  | inr other ↦ rw other (skip-Tracks (suc n) codes s e now_ns ops (ground arith) t)
]

step-Tracks :
    (n : ℕ) (codes : List ℕ) (s : HotkeyState) (op : ChordOp) (ops : List ChordOp)
    → AreDistinct n codes
    → AreTimed (op ∷ ops)
    → Tracks n codes s ops
    → Tracks n codes (chord_step codes n s op) (op ∷ ops)
unfolding chord_step
step-Tracks n codes s (check now_ns) ops d a t = check-Tracks n codes s now_ns ops t
step-Tracks n codes s (event e now_ns) ops d a t = event-Tracks n codes s e now_ns ops d a.0 t

run-Tracks :
    (n : ℕ) (codes : List ℕ) (ops : List ChordOp)
    → n ≤ 8
    → AreDistinct n codes
    → AreTimed ops
    → Tracks n codes (chord_run codes n ops) ops
unfolding chord_run complete_since has_fired
run-Tracks n codes [] h d a = record {
  matched = Matches-reset n 8 codes h d;
  since = refl;
  timed = tt;
  fired = refl;
}
run-Tracks n codes (op ∷ ops) h d a =
    step-Tracks n codes (chord_run codes n ops) op ops d a
      (run-Tracks n codes ops h d (AreTimed-tail op ops a))

-- For a chord of at most eight different keys, after any history of events read at times other
-- than 0 and of tests, the test fires exactly if the key events of the history left the chord
-- complete for at least a second, and no test of the history found it so since a key event last
-- left some key of it up.
pub hotkey_should_fire_iff :
    (n : ℕ) (codes : List ℕ) (ops : List ChordOp) (now_ns : ℕ)
    → n ≤ 8
    → AreDistinct n codes
    → AreTimed ops
    → (hotkey_should_fire (chord_run codes n ops) now_ns).1
      ≡ (not (has_fired n codes ops) && second_ago (complete_since n codes ops) now_ns)
hotkey_should_fire_iff n codes ops now_ns h d a =
    let t = run-Tracks n codes ops h d a in
    fire_from_since (chord_run codes n ops) (complete_since n codes ops) now_ns t.since t.timed
    ∙ ap (λ b. not b && second_ago (complete_since n codes ops) now_ns) t.fired
