-- ===== src/Passthrough/Loop/Effects.antt =====
-- The keyboard that the loop reports is the set of keys that the events press and release.
use meta_dualsense.Prelude.{
  ℕ, ◌≡◌, ◌≢◌, refl, inl, inr, Bool, true, false, not, ◌&&◌, ◌||◌, Option, none, some, List, [],
  ◌∷◌, ◌==◌, ltb, if◌then◌else◌, arith, Bool-cases,
}
use meta_dualsense.Prelude.Int.{pos, eqb_ℤ}
use meta_dualsense.Input.{InputEvent, ev_key}
use meta_dualsense.Passthrough.Keymap.{key_to_hid, kbd_modifier_bit}
use meta_dualsense.Passthrough.Keyboard.{KbdState}
use meta_dualsense.Passthrough.Keyboard.KeySet.{
  KeyOp, press, release, run_set, add_key, erase, Refines, press-Refines, release-Refines,
}
use meta_dualsense.Passthrough.Loop.{State, key_to_kbd, handle_event, drain, service_device}

-- What an event says of the keyboard: a key event that is no auto-repeat.
abbrev pub is_key : InputEvent → Bool
is_key e = e.type == ev_key && not (eqb_ℤ e.value (pos 2))

-- The press or release of a key with a usage, if the event is one.
unfoldable pub key_op : InputEvent → Option KeyOp
key_op e =
    let usage = key_to_hid e.code in
    if is_key e && (kbd_modifier_bit e.code == 0 && (ltb e.code 256 && not (usage == 0)))
    then some (if eqb_ℤ e.value (pos 1) then press usage else release usage)
    else none

abbrev cons_op : Option KeyOp → List KeyOp → List KeyOp
cons_op none ops = ops
cons_op (some op) ops = op ∷ ops

unfoldable pub key_ops : List (InputEvent × ℕ) → List KeyOp
unfolding key_op
key_ops [] = []
key_ops ((e, now_ns) ∷ events) = cons_op (key_op e) (key_ops events)

pub kbd-handle_event :
    (s : State) (dirty : Bool) (e : InputEvent) (now_ns : ℕ)
    → (handle_event s dirty e now_ns).state.kbd_state ≡ (
        if is_key e then (key_to_kbd s.kbd_state e.code (eqb_ℤ e.value (pos 1))).0 else s.kbd_state)
unfolding handle_event
kbd-handle_event s dirty e now_ns = ground arith

pub dirty-handle_event :
    (s : State) (dirty : Bool) (e : InputEvent) (now_ns : ℕ)
    → (handle_event s dirty e now_ns).dirty
      ≡ (dirty || (is_key e && (key_to_kbd s.kbd_state e.code (eqb_ℤ e.value (pos 1))).1))
unfolding handle_event
dirty-handle_event s dirty e now_ns = ground arith

-- The set after an event that may press or release a key.
abbrev after : Option KeyOp → List ℕ → List ℕ
after none q = q
after (some (press u)) q = add_key u q
after (some (release u)) q = erase u q

-- The refinement reads the keys alone.
modifiers-Refines :
    (s : KbdState) (m : ℕ) (q : List ℕ) → Refines s q → Refines (record s { modifiers = m }) q
modifiers-Refines s m q r = record {
  valid = record { six = r.valid.six; distinct = r.valid.distinct };
  distinct = r.distinct;
  keys = r.keys;
  nonzero = r.nonzero;
  count = r.count;
}

key-Refines :
    (s : KbdState) (e : InputEvent) (q : List ℕ)
    → is_key e ≡ true
    → Refines s q
    → Refines (key_to_kbd s e.code (eqb_ℤ e.value (pos 1))).0 (after (key_op e) q)
unfolding key_to_kbd key_op
key-Refines s e q k r = elim (Bool-cases (kbd_modifier_bit e.code == 0)) [
  | inr modifier ↦ rw (k, modifier) (modifiers-Refines s _ q r)
  | inl plain ↦ elim (Bool-cases (ltb e.code 256 && not (key_to_hid e.code == 0))) [
    | inr unmapped ↦ rw (k, plain, unmapped) r
    | inl mapped ↦
        let nonzero : key_to_hid e.code ≢ 0 = ground arith in
        elim (Bool-cases (eqb_ℤ e.value (pos 1))) [
          | inl down ↦ rw (k, plain, mapped, down) (press-Refines s q (key_to_hid e.code) nonzero r)
          | inr up ↦ rw (k, plain, mapped, up) (release-Refines s q (key_to_hid e.code) nonzero r)
        ]
  ]
]

event-Refines :
    (s : State) (dirty : Bool) (e : InputEvent) (now_ns : ℕ) (q : List ℕ)
    → Refines s.kbd_state q
    → Refines (handle_event s dirty e now_ns).state.kbd_state (after (key_op e) q)
event-Refines s dirty e now_ns q r = elim (Bool-cases (is_key e)) [
  | inl k ↦ rw (kbd-handle_event s dirty e now_ns, k) (key-Refines s.kbd_state e q k r)
  | inr other ↦ rw (kbd-handle_event s dirty e now_ns, other) (unfold key_op in rw other r)
]

run_set-cons_op :
    (o : Option KeyOp) (ops : List KeyOp) (q : List ℕ)
    → run_set q (cons_op o ops) ≡ run_set (after o q) ops
unfolding run_set
run_set-cons_op none ops q = refl
run_set-cons_op (some (press u)) ops q = refl
run_set-cons_op (some (release u)) ops q = refl

drain-Refines :
    (s : State) (dirty : Bool) (events : List (InputEvent × ℕ)) (q : List ℕ)
    → Refines s.kbd_state q
    → Refines (drain s dirty events).state.kbd_state (run_set q (key_ops events))
unfolding drain key_ops run_set
drain-Refines s dirty [] q r = r
drain-Refines s dirty ((e, now_ns) ∷ events) q r =
    let first = handle_event s dirty e now_ns in
    rw (run_set-cons_op (key_op e) (key_ops events) q) (
      drain-Refines first.state first.dirty events (after (key_op e) q)
        (event-Refines s dirty e now_ns q r))

-- If the key slots hold a set of at most six keys, then after a pass over a readable device they
-- hold the set that the presses and releases among its events make of it, so that a seventh key is
-- left out and a released key is gone.
pub service_device_keys :
    (s : State) (events : List (InputEvent × ℕ)) (now_ns : ℕ) (q : List ℕ)
    → Refines s.kbd_state q
    → Refines (service_device s events now_ns).0.kbd_state (run_set q (key_ops events))
unfolding service_device
service_device_keys s events now_ns q r = drain-Refines s false events q r
