-- ===== src/Chord/Repeated.antt =====
-- A chord that names a key twice never fires: the second slot of that key is never written.
use meta_dualsense.Prelude.{
  ℕ, zero, suc, ◌≡◌, ◌≤◌, ◌≢◌, ◌⊎◌, inl, inr, refl, ap, Bool, true, false, Option, none, some, List,
  [], ◌∷◌, arith, ◌==◌, replicate, Bool-cases, ap,
}
use meta_dualsense.Input.{InputEvent, ev_key}
use meta_dualsense.Chord.{
  HotkeyState, cons_some, note_key, all_pressed, settle, is_down, hotkey_update, hotkey_should_fire,
  ChordOp, event, check, chord_step, chord_run,
}
use meta_dualsense.Chord.History.{among}

-- Two of the first `n` codes are equal.
abbrev pub HasRepeat : ℕ → List ℕ → Type 0
HasRepeat zero codes = ⊥
HasRepeat (suc n) [] = ⊥
HasRepeat (suc n) (c ∷ codes) = (among n codes c ≡ true) ⊎ HasRepeat n codes

-- Some slot of code `c` is not pressed.
abbrev Idle : ℕ → ℕ → List ℕ → List Bool → Type 0
Idle c zero codes pressed = ⊥
Idle c (suc n) [] pressed = ⊥
Idle c (suc n) (k ∷ codes) [] = ⊥
Idle c (suc n) (k ∷ codes) (p ∷ pressed) = ((c ≡ k) × (p ≡ false)) ⊎ Idle c n codes pressed

-- Some slot is not pressed whose code stands in front of it too.
abbrev Stuck : ℕ → List ℕ → List Bool → Type 0
Stuck zero codes pressed = ⊥
Stuck (suc n) [] pressed = ⊥
Stuck (suc n) (k ∷ codes) [] = ⊥
Stuck (suc n) (k ∷ codes) (p ∷ pressed) = Idle k n codes pressed ⊎ Stuck n codes pressed

all_pressed-Idle :
    (c n : ℕ) (codes : List ℕ) (pressed : List Bool)
    → Idle c n codes pressed
    → all_pressed n pressed ≡ false
unfolding all_pressed
all_pressed-Idle c zero codes pressed h = absurd h
all_pressed-Idle c (suc n) [] pressed h = absurd h
all_pressed-Idle c (suc n) (k ∷ codes) [] h = absurd h
all_pressed-Idle c (suc n) (k ∷ codes) (p ∷ pressed) (inl h) = ground (arith, h)
all_pressed-Idle c (suc n) (k ∷ codes) (p ∷ pressed) (inr h) =
    ground (arith, all_pressed-Idle c n codes pressed h)

all_pressed-Stuck :
    (n : ℕ) (codes : List ℕ) (pressed : List Bool)
    → Stuck n codes pressed
    → all_pressed n pressed ≡ false
unfolding all_pressed
all_pressed-Stuck zero codes pressed h = absurd h
all_pressed-Stuck (suc n) [] pressed h = absurd h
all_pressed-Stuck (suc n) (k ∷ codes) [] h = absurd h
all_pressed-Stuck (suc n) (k ∷ codes) (p ∷ pressed) (inl h) =
    ground (arith, all_pressed-Idle k n codes pressed h)
all_pressed-Stuck (suc n) (k ∷ codes) (p ∷ pressed) (inr h) =
    ground (arith, all_pressed-Stuck n codes pressed h)

-- A property of the slots, if any are written.
abbrev OfSome : (List Bool → Type 0) → Option (List Bool) → Type 0
OfSome P none = Unit
OfSome P (some pressed) = P pressed

OfSome-cons_some :
    (P Q : List Bool → Type 0) (p : Bool) (o : Option (List Bool))
    → ((pressed : List Bool) → P pressed → Q (p ∷ pressed))
    → OfSome P o
    → OfSome Q (cons_some p o)
OfSome-cons_some P Q p none f h = tt
OfSome-cons_some P Q p (some pressed) f h = f pressed h

OfSome-always :
    (Q : List Bool → Type 0) (p : Bool) (o : Option (List Bool))
    → ((pressed : List Bool) → Q (p ∷ pressed))
    → OfSome Q (cons_some p o)
OfSome-always Q p none f = tt
OfSome-always Q p (some pressed) f = f pressed

note_key-Idle :
    (c n : ℕ) (codes : List ℕ) (pressed : List Bool) (code : ℕ) (down : Bool)
    → c ≢ code
    → Idle c n codes pressed
    → OfSome (Idle c n codes) (note_key n codes pressed code down)
unfolding note_key
note_key-Idle c zero codes pressed code down ne h = absurd h
note_key-Idle c (suc n) [] pressed code down ne h = absurd h
note_key-Idle c (suc n) (k ∷ codes) [] code down ne h = absurd h
note_key-Idle c (suc n) (k ∷ codes) (p ∷ pressed) code down ne (inl h) =
    elim (Bool-cases (code == k)) [
      | inl same ↦ absurd (ne (ground (arith, h)))
      | inr other ↦ rw other (OfSome-always (Idle c (suc n) (k ∷ codes)) p _ (λ ps. inl h))
    ]
note_key-Idle c (suc n) (k ∷ codes) (p ∷ pressed) code down ne (inr h) =
    elim (Bool-cases (code == k)) [
      | inl same ↦ rw same (inr h)
      | inr other ↦ rw other (
          OfSome-cons_some (Idle c n codes) (Idle c (suc n) (k ∷ codes)) p _ (λ ps i. inr i)
            (note_key-Idle c n codes pressed code down ne h))
    ]

note_key-Stuck :
    (n : ℕ) (codes : List ℕ) (pressed : List Bool) (code : ℕ) (down : Bool)
    → Stuck n codes pressed
    → OfSome (Stuck n codes) (note_key n codes pressed code down)
unfolding note_key
note_key-Stuck zero codes pressed code down h = absurd h
note_key-Stuck (suc n) [] pressed code down h = absurd h
note_key-Stuck (suc n) (k ∷ codes) [] code down h = absurd h
note_key-Stuck (suc n) (k ∷ codes) (p ∷ pressed) code down (inl h) = elim (Bool-cases (code == k)) [
  | inl same ↦ rw same (inl h)
  | inr other ↦ rw other (
      OfSome-cons_some (Idle k n codes) (Stuck (suc n) (k ∷ codes)) p _ (λ ps i. inl i)
        (note_key-Idle k n codes pressed code down (ground arith) h))
]
note_key-Stuck (suc n) (k ∷ codes) (p ∷ pressed) code down (inr h) = elim (Bool-cases (code == k)) [
  | inl same ↦ rw same (inr h)
  | inr other ↦ rw other (
      OfSome-cons_some (Stuck n codes) (Stuck (suc n) (k ∷ codes)) p _ (λ ps i. inr i)
        (note_key-Stuck n codes pressed code down h))
]

Idle-reset :
    (c n m : ℕ) (codes : List ℕ)
    → n ≤ m
    → among n codes c ≡ true
    → Idle c n codes (replicate m false)
unfolding among
Idle-reset c zero m codes h a = cc
Idle-reset c (suc n) m [] h a = cc
Idle-reset c (suc n) zero (k ∷ codes) h a = absurd (omega arith)
Idle-reset c (suc n) (suc m) (k ∷ codes) h a = elim (Bool-cases (c == k)) [
  | inl same ↦ inl (ground arith, refl)
  | inr other ↦ inr (Idle-reset c n m codes (omega arith) (ground arith))
]

Stuck-reset :
    (n m : ℕ) (codes : List ℕ) → n ≤ m → HasRepeat n codes → Stuck n codes (replicate m false)
Stuck-reset zero m codes h r = r
Stuck-reset (suc n) m [] h r = absurd r
Stuck-reset (suc n) zero (c ∷ codes) h r = absurd (omega arith)
Stuck-reset (suc n) (suc m) (c ∷ codes) h (inl a) = inl (Idle-reset c n m codes (omega arith) a)
Stuck-reset (suc n) (suc m) (c ∷ codes) h (inr r) = inr (Stuck-reset n m codes (omega arith) r)

-- The chord has not been complete, and cannot become so.
record IsIdle (n : ℕ) (codes : List ℕ) (s : HotkeyState) : Type 0 where
  stuck : Stuck n codes s.pressed
  never : s.all_since_ns ≡ 0

settle-IsIdle :
    (n : ℕ) (codes : List ℕ) (s : HotkeyState) (o : Option (List Bool)) (now_ns : ℕ)
    → OfSome (Stuck n codes) o
    → IsIdle n codes s
    → IsIdle n codes (settle n s o now_ns)
unfolding settle
settle-IsIdle n codes s none now_ns h i = i
settle-IsIdle n codes s (some pressed) now_ns h i =
    rw (all_pressed-Stuck n codes pressed h) (record { stuck = h; never = refl })

idle-should_fire :
    (s : HotkeyState) (now_ns : ℕ) → s.all_since_ns ≡ 0 → hotkey_should_fire s now_ns ≡ (s, false)
unfolding hotkey_should_fire
idle-should_fire s now_ns h = ground arith

update-IsIdle :
    (n : ℕ) (codes : List ℕ) (s : HotkeyState) (e : InputEvent) (now_ns : ℕ)
    → IsIdle n codes s
    → IsIdle n codes (hotkey_update codes n s e now_ns)
unfolding hotkey_update
update-IsIdle n codes s e now_ns i =
    let settled =
      settle-IsIdle n codes s (note_key n codes s.pressed e.code (is_down e)) now_ns
        (note_key-Stuck n codes s.pressed e.code (is_down e) i.stuck) i in
    elim (Bool-cases (e.type == ev_key)) [
      | inr other ↦ rw other i
      | inl key ↦ elim (Bool-cases (n == 0)) [
        | inl off ↦ rw (key, off) i
        | inr on ↦ rw (key, on) settled
      ]
    ]

check-IsIdle :
    (n : ℕ) (codes : List ℕ) (s : HotkeyState) (now_ns : ℕ)
    → IsIdle n codes s
    → IsIdle n codes (hotkey_should_fire s now_ns).0
check-IsIdle n codes s now_ns i = rw (idle-should_fire s now_ns i.never) i

step-IsIdle :
    (n : ℕ) (codes : List ℕ) (s : HotkeyState) (op : ChordOp)
    → IsIdle n codes s
    → IsIdle n codes (chord_step codes n s op)
unfolding chord_step
step-IsIdle n codes s (check now_ns) i = check-IsIdle n codes s now_ns i
step-IsIdle n codes s (event e now_ns) i = update-IsIdle n codes s e now_ns i

run-IsIdle :
    (n : ℕ) (codes : List ℕ) (ops : List ChordOp)
    → n ≤ 8
    → HasRepeat n codes
    → IsIdle n codes (chord_run codes n ops)
unfolding chord_run
run-IsIdle n codes [] h r = record { stuck = Stuck-reset n 8 codes h r; never = refl }
run-IsIdle n codes (op ∷ ops) h r =
    step-IsIdle n codes (chord_run codes n ops) op (run-IsIdle n codes ops h r)

-- A chord of at most eight keys that names a key twice never fires, whatever the history.
pub repeated_never_fires :
    (n : ℕ) (codes : List ℕ) (ops : List ChordOp) (now_ns : ℕ)
    → n ≤ 8
    → HasRepeat n codes
    → (hotkey_should_fire (chord_run codes n ops) now_ns).1 ≡ false
repeated_never_fires n codes ops now_ns h r =
    ap (λ (o : HotkeyState × Bool). o.1)
      (idle-should_fire (chord_run codes n ops) now_ns (run-IsIdle n codes ops h r).never)
