-- ===== src/Passthrough/Keyboard/KeySet.antt =====
-- What the key slots promise: a set of at most six keys, in which a press of a seventh is lost.
use meta_dualsense.Prelude.{
  ℕ, ◌+◌, ◌≡◌, ◌≢◌, refl, false, List, [], ◌∷◌, ◌==◌, if◌then◌else◌, length, arith, ltb, sym,
}
use meta_dualsense.Passthrough.Keyboard.{
  KbdState, kbd_keys_max, holds_key, kbd_press, kbd_release, kbd_zero,
}
use meta_dualsense.Passthrough.Keyboard.Rollover.{
  IsDistinct, IsValid, used, holds-kbd_press, holds-kbd_release, kbd_press-IsValid,
  kbd_release-IsValid, used-kbd_press, used-kbd_release, used-le-length, used-kbd_zero,
  kbd_zero-IsValid,
}

pub data KeyOp : Type 0 where
  press : ℕ → KeyOp
  release : ℕ → KeyOp

-- The calls of `kbd_press` and `kbd_release` in turn.
unfoldable pub run : KbdState → List KeyOp → KbdState
run s [] = s
run s (press u ∷ ops) = run (kbd_press s u).0 ops
run s (release u ∷ ops) = run (kbd_release s u).0 ops

unfoldable pub erase : ℕ → List ℕ → List ℕ
erase u [] = []
erase u (k ∷ q) = if k == u then q else k ∷ erase u q

unfoldable pub add_key : ℕ → List ℕ → List ℕ
add_key u q = if holds_key q u then q else if ltb (length q) kbd_keys_max then u ∷ q else q

-- The specification: keys without repetition, the latest first.
unfoldable pub run_set : List ℕ → List KeyOp → List ℕ
unfolding add_key erase
run_set q [] = q
run_set q (press u ∷ ops) = run_set (add_key u q) ops
run_set q (release u ∷ ops) = run_set (erase u q) ops

abbrev pub AreKeys : List KeyOp → Type 0
AreKeys [] = Unit
AreKeys (press u ∷ ops) = (u ≢ 0) × AreKeys ops
AreKeys (release u ∷ ops) = (u ≢ 0) × AreKeys ops

pub record Refines (s : KbdState) (q : List ℕ) : Type 0 where
  pub valid : IsValid s
  pub distinct : IsDistinct q
  pub keys : (u : ℕ) → u ≢ 0 → holds_key q u ≡ holds_key s.keys u
  pub nonzero : holds_key q 0 ≡ false
  pub count : length q ≡ used s.keys

holds-erase :
    (u v : ℕ) (q : List ℕ)
    → v ≢ 0
    → IsDistinct q
    → holds_key (erase u q) v ≡ (if u == v then false else holds_key q v)
unfolding erase holds_key
holds-erase u v [] h d = ground arith
holds-erase u v (k ∷ q) h d = ground (arith, holds-erase u v q h d.1, d.0)

distinct-erase : (u : ℕ) (q : List ℕ) → IsDistinct q → IsDistinct (erase u q)
unfolding erase
distinct-erase u [] d = d
distinct-erase u (k ∷ q) d = ground (arith, distinct-erase u q, holds-erase u k q, d)

nonzero-erase : (u : ℕ) (q : List ℕ) → holds_key q 0 ≡ false → holds_key (erase u q) 0 ≡ false
unfolding erase holds_key
nonzero-erase u [] h = refl
nonzero-erase u (k ∷ q) h = ground (arith, nonzero-erase u q)

length-erase :
    (u : ℕ) (q : List ℕ) → length (erase u q) + (if holds_key q u then 1 else 0) ≡ length q
unfolding erase holds_key
length-erase u [] = ground arith
length-erase u (k ∷ q) = ground (arith, length-erase u q)

pub press-Refines :
    (s : KbdState) (q : List ℕ) (u : ℕ)
    → u ≢ 0
    → Refines s q
    → Refines (kbd_press s u).0 (add_key u q)
unfolding add_key holds_key
press-Refines s q u h r = record {
  valid = kbd_press-IsValid s u r.valid;
  distinct = ground (arith, r);
  keys = λ v hv. ground (arith, r, r.keys v, r.keys u, holds-kbd_press s u v r.valid hv);
  nonzero = ground (arith, r);
  count = ground (arith, r, r.keys u, used-kbd_press s u r.valid h, used-le-length s.keys, r.valid);
}

pub release-Refines :
    (s : KbdState) (q : List ℕ) (u : ℕ)
    → u ≢ 0
    → Refines s q
    → Refines (kbd_release s u).0 (erase u q)
release-Refines s q u h r = record {
  valid = kbd_release-IsValid s u h r.valid;
  distinct = distinct-erase u q r.distinct;
  keys = λ v hv. ground (
    arith,
    r,
    r.keys v,
    r.keys u,
    holds-kbd_release s u v r.valid h hv,
    holds-erase u v q hv r.distinct,
  );
  nonzero = nonzero-erase u q r.nonzero;
  count = ground (arith, r, r.keys u, used-kbd_release s u h, length-erase u q);
}

run-Refines :
    (ops : List KeyOp) (s : KbdState) (q : List ℕ)
    → AreKeys ops
    → Refines s q
    → Refines (run s ops) (run_set q ops)
unfolding run run_set
run-Refines [] s q a r = r
run-Refines (press u ∷ ops) s q a r =
    run-Refines ops (kbd_press s u).0 (add_key u q) a.1 (press-Refines s q u a.0 r)
run-Refines (release u ∷ ops) s q a r =
    run-Refines ops (kbd_release s u).0 (erase u q) a.1 (release-Refines s q u a.0 r)

pub zero-Refines : Refines kbd_zero []
unfolding holds_key
zero-Refines = record {
  valid = kbd_zero-IsValid;
  distinct = tt;
  keys = λ u h. ground arith;
  nonzero = refl;
  count = omega (arith, used-kbd_zero);
}

-- From the empty state, any calls with non-zero usages leave in the slots exactly the keys of the
-- bounded set that the same operations build.
pub run_refines :
    (ops : List KeyOp) (v : ℕ)
    → AreKeys ops
    → v ≢ 0
    → holds_key (run kbd_zero ops).keys v ≡ holds_key (run_set [] ops) v
run_refines ops v a h = sym ((run-Refines ops kbd_zero [] a zero-Refines).keys v h)
