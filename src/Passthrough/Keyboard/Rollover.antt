-- ===== src/Passthrough/Keyboard/Rollover.antt =====
-- The slots of the boot keyboard report as a set of at most six keys.
use meta_dualsense.Prelude.{
  ℕ, suc, ◌≤◌, ◌+◌, ◌≡◌, ◌≢◌, refl, false, ◌&&◌, ◌||◌, Option, none, some, List, [], ◌∷◌, ◌==◌,
  if◌then◌else◌, length, arith, ltb, min,
}
use meta_dualsense.Passthrough.Keyboard.{
  KbdState, kbd_keys_max, holds_key, replace_first, cons_some, kbd_press, kbd_release, kbd_zero,
  stored,
}

-- How many slots hold a key.
unfoldable pub used : List ℕ → ℕ
used [] = 0
used (k ∷ ks) = if k == 0 then used ks else suc (used ks)

-- No key, other than the empty slot's 0, stands in two slots.
abbrev pub IsDistinct : List ℕ → Type 0
IsDistinct [] = Unit
IsDistinct (k ∷ ks) = (k ≢ 0 → holds_key ks k ≡ false) × IsDistinct ks

pub record IsValid (s : KbdState) : Type 0 where
  pub six : length s.keys ≡ kbd_keys_max
  pub distinct : IsDistinct s.keys

pub used-le-length : (ks : List ℕ) → used ks ≤ length ks
unfolding used
used-le-length [] = omega arith
used-le-length (k ∷ ks) = ground (arith, used-le-length ks)

-- The slots after a search for one to write.
abbrev slots : List ℕ → Option (List ℕ) → List ℕ
slots ks none = ks
slots ks (some ks') = ks'

slots-cons_some :
    (k : ℕ) (ks : List ℕ) (o : Option (List ℕ)) → slots (k ∷ ks) (cons_some k o) ≡ k ∷ slots ks o
slots-cons_some k ks none = refl
slots-cons_some k ks (some ks') = refl

keys-stored : (s : KbdState) (o : Option (List ℕ)) → (stored s o).0.keys ≡ slots s.keys o
keys-stored s none = refl
keys-stored s (some ks) = refl

length-slots : (a b : ℕ) (ks : List ℕ) → length (slots ks (replace_first a b ks)) ≡ length ks
unfolding replace_first
length-slots a b [] = refl
length-slots a b (k ∷ ks) =
    ground (arith, slots-cons_some k ks (replace_first a b ks), length-slots a b ks)

holds-fill :
    (u v : ℕ) (ks : List ℕ)
    → v ≢ 0
    → holds_key (slots ks (replace_first 0 u ks)) v
      ≡ (holds_key ks v || (u == v && ltb (used ks) (length ks)))
unfolding replace_first holds_key used
holds-fill u v [] h = ground arith
holds-fill u v (k ∷ ks) h =
    ground
      (arith, slots-cons_some k ks (replace_first 0 u ks), holds-fill u v ks, used-le-length ks)

holds-empty :
    (u v : ℕ) (ks : List ℕ)
    → u ≢ 0
    → v ≢ 0
    → IsDistinct ks
    → holds_key (slots ks (replace_first u 0 ks)) v ≡ (if u == v then false else holds_key ks v)
unfolding replace_first holds_key
holds-empty u v [] hu hv d = ground arith
holds-empty u v (k ∷ ks) hu hv d =
    ground (arith, slots-cons_some k ks (replace_first u 0 ks), holds-empty u v ks hu hv d.1, d.0)

distinct-fill :
    (u : ℕ) (ks : List ℕ)
    → holds_key ks u ≡ false
    → IsDistinct ks
    → IsDistinct (slots ks (replace_first 0 u ks))
unfolding replace_first holds_key
distinct-fill u [] h d = d
distinct-fill u (k ∷ ks) h d =
    ground
      (arith, slots-cons_some k ks (replace_first 0 u ks), distinct-fill u ks, holds-fill u k ks, d)

distinct-empty :
    (u : ℕ) (ks : List ℕ) → u ≢ 0 → IsDistinct ks → IsDistinct (slots ks (replace_first u 0 ks))
unfolding replace_first
distinct-empty u [] h d = d
distinct-empty u (k ∷ ks) h d =
    ground (
      arith,
      slots-cons_some k ks (replace_first u 0 ks),
      distinct-empty u ks,
      holds-empty u k ks,
      d,
    )

pub used-fill :
    (u : ℕ) (ks : List ℕ)
    → u ≢ 0
    → used (slots ks (replace_first 0 u ks))
      ≡ (if ltb (used ks) (length ks) then suc (used ks) else used ks)
unfolding replace_first used
used-fill u [] h = ground arith
used-fill u (k ∷ ks) h =
    ground (arith, slots-cons_some k ks (replace_first 0 u ks), used-fill u ks, used-le-length ks)

used-empty :
    (u : ℕ) (ks : List ℕ)
    → u ≢ 0
    → (if holds_key ks u
        then suc (used (slots ks (replace_first u 0 ks)))
        else used (slots ks (replace_first u 0 ks)))
      ≡ used ks
unfolding replace_first holds_key used
used-empty u [] h = ground arith
used-empty u (k ∷ ks) h =
    ground (arith, slots-cons_some k ks (replace_first u 0 ks), used-empty u ks)

-- After a press of key `u` a key `v` is held as before, or if it is `u` and a slot was free.
pub holds-kbd_press :
    (s : KbdState) (u v : ℕ)
    → IsValid s
    → v ≢ 0
    → holds_key (kbd_press s u).0.keys v
      ≡ (holds_key s.keys v || (u == v && ltb (used s.keys) kbd_keys_max))
unfolding kbd_press
holds-kbd_press s u v h hv =
    ground (arith, h, keys-stored s (replace_first 0 u s.keys), holds-fill u v s.keys hv)

-- After a release of key `u` the same keys are held but `u`.
pub holds-kbd_release :
    (s : KbdState) (u v : ℕ)
    → IsValid s
    → u ≢ 0
    → v ≢ 0
    → holds_key (kbd_release s u).0.keys v ≡ (if u == v then false else holds_key s.keys v)
unfolding kbd_release
holds-kbd_release s u v h hu hv =
    ground
      (arith, keys-stored s (replace_first u 0 s.keys), holds-empty u v s.keys hu hv h.distinct)

-- Pressing a key keeps six slots and no key in two of them.
pub kbd_press-IsValid : (s : KbdState) (u : ℕ) → IsValid s → IsValid (kbd_press s u).0
unfolding kbd_press
kbd_press-IsValid s u h = ground (
  arith,
  h,
  keys-stored s (replace_first 0 u s.keys),
  length-slots 0 u s.keys,
  distinct-fill u s.keys,
)

-- Releasing a key keeps six slots and no key in two of them.
pub kbd_release-IsValid : (s : KbdState) (u : ℕ) → u ≢ 0 → IsValid s → IsValid (kbd_release s u).0
unfolding kbd_release
kbd_release-IsValid s u hu h = ground (
  arith,
  h,
  keys-stored s (replace_first u 0 s.keys),
  length-slots u 0 s.keys,
  distinct-empty u s.keys,
)

pub used-kbd_press :
    (s : KbdState) (u : ℕ)
    → IsValid s
    → u ≢ 0
    → used (kbd_press s u).0.keys
      ≡ (if holds_key s.keys u then used s.keys else min (suc (used s.keys)) kbd_keys_max)
unfolding kbd_press
used-kbd_press s u h hu = ground (
  arith,
  h,
  keys-stored s (replace_first 0 u s.keys),
  used-fill u s.keys hu,
  used-le-length s.keys,
)

pub used-kbd_release :
    (s : KbdState) (u : ℕ)
    → u ≢ 0
    → used (kbd_release s u).0.keys + (if holds_key s.keys u then 1 else 0) ≡ used s.keys
unfolding kbd_release
used-kbd_release s u hu =
    ground (arith, keys-stored s (replace_first u 0 s.keys), used-empty u s.keys hu)

pub used-kbd_zero : used kbd_zero.keys ≡ 0
unfolding used
used-kbd_zero = refl

pub kbd_zero-IsValid : IsValid kbd_zero
unfolding holds_key
kbd_zero-IsValid = ground arith
