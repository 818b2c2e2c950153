-- ===== src/Ffsd/Slots/Table.antt =====
-- The table as a set of devices, each with its descriptor.
use meta_dualsense.Prelude.{
  ℕ, ◌≡◌, refl, inl, inr, Bool, true, false, not, ◌&&◌, ◌||◌, Option, none, some, List, [], ◌∷◌,
  ◌==◌, length, arith, Bool-cases, ap,
}
use meta_dualsense.Prelude.Text.{same_text}
use meta_dualsense.Ffsd.Slots.{
  InputSlot, clip, is_used, is_fd, behind, input_slots_find_path, input_slots_add,
  input_slots_remove_fd,
}

-- A used slot holds this path, or this descriptor.
unfoldable pub tracks : List InputSlot → List ℕ → Bool
tracks [] path = false
tracks (s ∷ slots) path = (is_used s.fd && same_text s.path path) || tracks slots path

unfoldable pub holds_fd : List InputSlot → ℕ → Bool
holds_fd [] fd = false
holds_fd (s ∷ slots) fd = is_fd s.fd fd || holds_fd slots fd

unfoldable pub is_full : List InputSlot → Bool
is_full [] = true
is_full (s ∷ slots) = is_used s.fd && is_full slots

-- The slot is free, or its path and its descriptor stand in none of the others.
abbrev pub IsNew : Option ℕ → List ℕ → List InputSlot → Type 0
IsNew none path slots = Unit
IsNew (some fd) path slots = (tracks slots path ≡ false) × (holds_fd slots fd ≡ false)

-- No path and no descriptor stands in two used slots.
abbrev pub AreDistinct : List InputSlot → Type 0
AreDistinct [] = Unit
AreDistinct (s ∷ slots) = IsNew s.fd s.path slots × AreDistinct slots

pub find-tracks :
    (slots : List InputSlot) (path : List ℕ)
    → is_used (input_slots_find_path slots path) ≡ tracks slots path
unfolding input_slots_find_path tracks
find-tracks [] path = refl
find-tracks (s ∷ slots) path = ground (arith, find-tracks slots path)

-- The slots after a search for a free one.
abbrev pub or_same : List InputSlot → Option (List InputSlot) → List InputSlot
or_same slots none = slots
or_same slots (some slots') = slots'

or_same-behind :
    (s : InputSlot) (slots : List InputSlot) (o : Option (List InputSlot))
    → or_same (s ∷ slots) (behind s o) ≡ s ∷ or_same slots o
or_same-behind s slots none = refl
or_same-behind s slots (some slots') = refl

pub tracks-add :
    (slots : List InputSlot) (fd : ℕ) (path q : List ℕ)
    → tracks (or_same slots (input_slots_add slots fd path)) q
      ≡ (tracks slots q || (not (is_full slots) && same_text (clip path) q))
unfolding input_slots_add tracks is_full
tracks-add [] fd path q = refl
tracks-add (s ∷ slots) fd path q =
    ground
      (arith, or_same-behind s slots (input_slots_add slots fd path), tracks-add slots fd path q)

pub holds_fd-add :
    (slots : List InputSlot) (fd g : ℕ) (path : List ℕ)
    → holds_fd (or_same slots (input_slots_add slots fd path)) g
      ≡ (holds_fd slots g || (not (is_full slots) && fd == g))
unfolding input_slots_add holds_fd is_full
holds_fd-add [] fd g path = refl
holds_fd-add (s ∷ slots) fd g path =
    ground
      (arith, or_same-behind s slots (input_slots_add slots fd path), holds_fd-add slots fd g path)

abbrev pub found : Option (List InputSlot) → Bool
found none = false
found (some slots) = true

found-behind : (s : InputSlot) (o : Option (List InputSlot)) → found (behind s o) ≡ found o
found-behind s none = refl
found-behind s (some slots) = refl

-- A free slot is found unless all are used.
pub found-add :
    (slots : List InputSlot) (fd : ℕ) (path : List ℕ)
    → found (input_slots_add slots fd path) ≡ not (is_full slots)
unfolding input_slots_add is_full
found-add [] fd path = refl
found-add (s ∷ slots) fd path =
    ground (arith, found-behind s (input_slots_add slots fd path), found-add slots fd path)

pub length-add :
    (slots : List InputSlot) (fd : ℕ) (path : List ℕ)
    → length (or_same slots (input_slots_add slots fd path)) ≡ length slots
unfolding input_slots_add
length-add [] fd path = refl
length-add (s ∷ slots) fd path =
    ground (arith, or_same-behind s slots (input_slots_add slots fd path), length-add slots fd path)

same_text_sym : (a b : List ℕ) → same_text a b ≡ same_text b a
unfolding same_text
same_text_sym [] [] = refl
same_text_sym [] (b ∷ bs) = refl
same_text_sym (a ∷ as_) [] = refl
same_text_sym (a ∷ as_) (b ∷ bs) = ground (arith, same_text_sym as_ bs)

IsNew-add :
    (o : Option ℕ) (p : List ℕ) (slots : List InputSlot) (fd : ℕ) (path : List ℕ)
    → is_fd o fd ≡ false
    → (is_used o && same_text p (clip path)) ≡ false
    → IsNew o p slots
    → IsNew o p (or_same slots (input_slots_add slots fd path))
IsNew-add none p slots fd path h k n = tt
IsNew-add (some g) p slots fd path h k n = (
  ground (arith, n, tracks-add slots fd path p, same_text_sym p (clip path)),
  ground (arith, n, holds_fd-add slots fd g path),
)

abbrev slot : Option ℕ → List ℕ → InputSlot
slot o p = record { fd = o; path = p }

distinct-add_front :
    (o : Option ℕ) (p : List ℕ) (slots : List InputSlot) (fd : ℕ) (path : List ℕ)
    → tracks (slot o p ∷ slots) (clip path) ≡ false
    → holds_fd (slot o p ∷ slots) fd ≡ false
    → AreDistinct (slot o p ∷ slots)
    → AreDistinct (or_same slots (input_slots_add slots fd path))
    → AreDistinct (or_same (slot o p ∷ slots) (input_slots_add (slot o p ∷ slots) fd path))
unfolding input_slots_add tracks holds_fd
distinct-add_front none p slots fd path t h d rest = ((t, h), d.1)
distinct-add_front (some g) p slots fd path t h d rest =
    rw (or_same-behind (slot (some g) p) slots (input_slots_add slots fd path))
      (IsNew-add (some g) p slots fd path (ground arith) (ground arith) d.0, rest)

pub AreDistinct-add :
    (slots : List InputSlot) (fd : ℕ) (path : List ℕ)
    → tracks slots (clip path) ≡ false
    → holds_fd slots fd ≡ false
    → AreDistinct slots
    → AreDistinct (or_same slots (input_slots_add slots fd path))
AreDistinct-add [] fd path t h d = unfold input_slots_add in tt
AreDistinct-add (s ∷ slots) fd path t h d = distinct-add_front s.fd s.path slots fd path t h d (
    AreDistinct-add slots fd path (unfold tracks in ground arith) (unfold holds_fd in ground arith)
      d.1)

holds-remove_front :
    (o : Option ℕ) (p : List ℕ) (slots : List InputSlot) (fd g : ℕ)
    → IsNew o p slots
    → holds_fd (input_slots_remove_fd slots fd) g ≡ (holds_fd slots g && not (fd == g))
    → holds_fd (input_slots_remove_fd (slot o p ∷ slots) fd) g
      ≡ (holds_fd (slot o p ∷ slots) g && not (fd == g))
unfolding holds_fd input_slots_remove_fd
holds-remove_front none p slots fd g n ih = ih
holds-remove_front (some k) p slots fd g n ih =
    ground (arith, ih, n.1, ap (holds_fd slots) {x = k} {y = g})

-- Of distinct slots, removing a descriptor frees the one slot that holds it.
pub holds_fd-remove :
    (slots : List InputSlot) (fd g : ℕ)
    → AreDistinct slots
    → holds_fd (input_slots_remove_fd slots fd) g ≡ (holds_fd slots g && not (fd == g))
unfolding holds_fd input_slots_remove_fd
holds_fd-remove [] fd g d = refl
holds_fd-remove (s ∷ slots) fd g d =
    holds-remove_front s.fd s.path slots fd g d.0 (holds_fd-remove slots fd g d.1)

tracks-remove_le :
    (slots : List InputSlot) (fd : ℕ) (path : List ℕ)
    → tracks slots path ≡ false
    → tracks (input_slots_remove_fd slots fd) path ≡ false
unfolding tracks input_slots_remove_fd
tracks-remove_le [] fd path h = refl
tracks-remove_le (s ∷ slots) fd path h = ground (arith, tracks-remove_le slots fd path)

IsNew-remove :
    (o : Option ℕ) (p : List ℕ) (slots : List InputSlot) (fd : ℕ)
    → AreDistinct slots
    → IsNew o p slots
    → IsNew o p (input_slots_remove_fd slots fd)
IsNew-remove none p slots fd d n = tt
IsNew-remove (some g) p slots fd d n =
    (tracks-remove_le slots fd p n.0, ground (arith, n, holds_fd-remove slots fd g d))

pub AreDistinct-remove :
    (slots : List InputSlot) (fd : ℕ)
    → AreDistinct slots
    → AreDistinct (input_slots_remove_fd slots fd)
unfolding input_slots_remove_fd
AreDistinct-remove [] fd d = tt
AreDistinct-remove (s ∷ slots) fd d = elim (Bool-cases (is_fd s.fd fd)) [
  | inl found ↦ rw found (tt, d.1)
  | inr other ↦
      rw other (IsNew-remove s.fd s.path slots fd d.1 d.0, AreDistinct-remove slots fd d.1)
]

pub length-remove :
    (slots : List InputSlot) (fd : ℕ) → length (input_slots_remove_fd slots fd) ≡ length slots
unfolding input_slots_remove_fd
length-remove [] fd = refl
length-remove (s ∷ slots) fd = ground (arith, length-remove slots fd)
