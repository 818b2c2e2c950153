-- ===== src/Ffsd/Slots/Scan.antt =====
-- The scan of /dev/input at the start: `scan_inputs` of recipes-apps/kbm-mapper-ff/files/main.c.
use meta_dualsense.Prelude.{
  ℕ, suc, ◌≤◌, ◌<◌, ◌≡◌, refl, ◌∙◌, ap, true, false, Option, none, some, List, [], ◌∷◌, ◌++◌,
  if◌then◌else◌, arith, Bool-cases, inl, inr, length, ltb,
}
use meta_dualsense.Prelude.Text.{Bytes, codes, behind_prefix}
use meta_dualsense.Ffsd.Slots.{
  InputSlot, max_inputs, input_slots_init, is_used, input_slots_add, behind,
}
use meta_dualsense.Ffsd.Slots.Table.{is_full}

-- The table, the number of devices that the function returns, and the descriptors closed.
pub record Scanned : Type 0 where
  pub slots : List InputSlot
  pub n : ℕ
  pub closed : List ℕ

-- One device: entered and counted, or, with the table full, closed, which ends the loop.
unfoldable pub enter :
    List InputSlot → ℕ → ℕ → Option (List InputSlot) → (List InputSlot → ℕ → Scanned) → Scanned
enter slots n fd none more = record { slots = slots; n = n; closed = fd ∷ [] }
enter slots n fd (some slots') more = more slots' (suc n)

unfoldable pub scan_device :
    List InputSlot → ℕ → Bytes → Option ℕ → (List InputSlot → ℕ → Scanned) → Scanned
scan_device slots n path none more = more slots n
scan_device slots n path (some fd) more = enter slots n fd (input_slots_add slots fd path) more

unfoldable pub scan_name :
    (Bytes → Option ℕ)
    → List InputSlot
    → ℕ
    → Bytes
    → Option Bytes
    → (List InputSlot → ℕ → Scanned)
    → Scanned
scan_name c_open slots n name none more = more slots n
scan_name c_open slots n name (some rest) more =
    let path = codes "/dev/input/" ++ name in scan_device slots n path (c_open path) more

-- The loop over the names in the directory; `c_open` is `classify_and_open_input`.
unfoldable pub scan_from : (Bytes → Option ℕ) → List Bytes → List InputSlot → ℕ → Scanned
scan_from c_open [] slots n = record { slots = slots; n = n; closed = [] }
scan_from c_open (name ∷ names) slots n =
    let more : List InputSlot → ℕ → Scanned = scan_from c_open names in
    if ltb n max_inputs
    then scan_name c_open slots n name (behind_prefix (codes "event") name) more
    else record { slots = slots; n = n; closed = [] }

-- `none` is a directory that cannot be opened.
unfoldable pub scan_inputs : (Bytes → Option ℕ) → Option (List Bytes) → Scanned
scan_inputs c_open none = record { slots = input_slots_init; n = 0; closed = [] }
scan_inputs c_open (some names) = scan_from c_open names input_slots_init 0

unfoldable pub used_slots : List InputSlot → ℕ
used_slots [] = 0
used_slots (s ∷ slots) = if is_used s.fd then suc (used_slots slots) else used_slots slots

used_slots-full : (slots : List InputSlot) → used_slots slots < length slots → is_full slots ≡ false
unfolding used_slots is_full
used_slots-full [] h = absurd (omega arith)
used_slots-full (s ∷ slots) h = elim (Bool-cases (is_used s.fd)) [
  | inl used ↦ rw used (used_slots-full slots (ground (arith, used)))
  | inr free ↦ rw free refl
]

-- A table with the length and the number of used slots.
AddsOne : List InputSlot → Option (List InputSlot) → Type 0
AddsOne slots none = ⊥
AddsOne slots (some slots') =
    (length slots' ≡ length slots) × (used_slots slots' ≡ suc (used_slots slots))

AddsOne-behind :
    (s : InputSlot) (slots : List InputSlot) (o : Option (List InputSlot))
    → is_used s.fd ≡ true
    → AddsOne slots o
    → AddsOne (s ∷ slots) (behind s o)
unfolding AddsOne used_slots
AddsOne-behind s slots none used h = h
AddsOne-behind s slots (some slots') used (same, one) = (ap suc same, rw used (ap suc one))

input_slots_add-AddsOne :
    (slots : List InputSlot) (fd : ℕ) (path : List ℕ)
    → used_slots slots < length slots
    → AddsOne slots (input_slots_add slots fd path)
unfolding input_slots_add used_slots
input_slots_add-AddsOne [] fd path h = absurd (omega arith)
input_slots_add-AddsOne (s ∷ slots) fd path h = elim (Bool-cases (is_used s.fd)) [
  | inl used ↦ rw used (
      AddsOne-behind s slots (input_slots_add slots fd path) used
        (input_slots_add-AddsOne slots fd path (ground (arith, used))))
  | inr free ↦ rw free (unfold AddsOne used_slots in (refl, rw free refl))
]

-- The count is that of the used slots, and nothing is closed.
IsCounted : Scanned → Type 0
IsCounted r = (r.n ≡ used_slots r.slots) × (length r.slots ≡ 16) × (r.n ≤ 16) × (r.closed ≡ [])

enter-IsCounted :
    (slots : List InputSlot) (n fd : ℕ) (o : Option (List InputSlot))
    (more : List InputSlot → ℕ → Scanned)
    → AddsOne slots o
    → n ≡ used_slots slots
    → length slots ≡ 16
    → ((t : List InputSlot) (k : ℕ)
        → k ≡ used_slots t
        → length t ≡ 16
        → k ≤ 16
        → IsCounted (more t k))
    → n < 16
    → IsCounted (enter slots n fd o more)
unfolding AddsOne enter
enter-IsCounted slots n fd none more added counted size h room = absurd added
enter-IsCounted slots n fd (some slots') more (same, one) counted size h room =
    h slots' (suc n) (omega (arith, one, counted)) (same ∙ size) (omega arith)

Continues : (List InputSlot → ℕ → Scanned) → Type 0
Continues more =
    (t : List InputSlot) (k : ℕ) → k ≡ used_slots t → length t ≡ 16 → k ≤ 16 → IsCounted (more t k)

scan_device-IsCounted :
    (slots : List InputSlot) (n : ℕ) (path : Bytes) (o : Option ℕ)
    (more : List InputSlot → ℕ → Scanned)
    → n ≡ used_slots slots
    → length slots ≡ 16
    → n < 16
    → Continues more
    → IsCounted (scan_device slots n path o more)
unfolding scan_device Continues
scan_device-IsCounted slots n path none more counted size room h =
    h slots n counted size (omega arith)
scan_device-IsCounted slots n path (some fd) more counted size room h =
    enter-IsCounted slots n fd (input_slots_add slots fd path) more
      (input_slots_add-AddsOne slots fd path (omega arith)) counted size h room

scan_name-IsCounted :
    (c_open : Bytes → Option ℕ) (slots : List InputSlot) (n : ℕ) (name : Bytes) (o : Option Bytes)
    (more : List InputSlot → ℕ → Scanned)
    → n ≡ used_slots slots
    → length slots ≡ 16
    → n < 16
    → Continues more
    → IsCounted (scan_name c_open slots n name o more)
unfolding scan_name Continues
scan_name-IsCounted c_open slots n name none more counted size room h =
    h slots n counted size (omega arith)
scan_name-IsCounted c_open slots n name (some rest) more counted size room h =
    let path = codes "/dev/input/" ++ name in
    scan_device-IsCounted slots n path (c_open path) more counted size room h

scan_from-IsCounted :
    (c_open : Bytes → Option ℕ) (names : List Bytes) (slots : List InputSlot) (n : ℕ)
    → n ≡ used_slots slots
    → length slots ≡ 16
    → n ≤ 16
    → IsCounted (scan_from c_open names slots n)
unfolding scan_from Continues
scan_from-IsCounted c_open [] slots n counted size le =
    unfold IsCounted in (counted, size, le, refl)
scan_from-IsCounted c_open (name ∷ names) slots n counted size le = elim (Bool-cases (ltb n 16)) [
  | inr full ↦ rw full (unfold IsCounted in (counted, size, le, refl))
  | inl room ↦ rw room (
      scan_name-IsCounted c_open slots n name (behind_prefix (codes "event") name)
        (scan_from c_open names) counted size (ground (arith, room))
        (λ t k c z l. scan_from-IsCounted c_open names t k c z l))
]

-- Whatever stands in /dev/input: at most sixteen devices are entered, the number returned is that
-- of the used slots, and no device that was opened is closed for lack of a slot.
pub scan_inputs_counts :
    (c_open : Bytes → Option ℕ) (names : Option (List Bytes))
    → let r = scan_inputs c_open names in
      (r.n ≡ used_slots r.slots) × (length r.slots ≡ 16) × (r.n ≤ 16) × (r.closed ≡ [])
unfolding scan_inputs IsCounted used_slots
scan_inputs_counts c_open none = (refl, refl, omega arith, refl)
scan_inputs_counts c_open (some names) =
    scan_from-IsCounted c_open names input_slots_init 0 refl refl (omega arith)
