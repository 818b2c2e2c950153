-- ===== src/Ffsd/Slots/Plugging.antt =====
-- Hot-plugging: no device is opened twice, and no descriptor is lost.
use meta_dualsense.Prelude.{
  ℕ, ◌≡◌, refl, inl, inr, Bool, true, false, not, ◌&&◌, ◌||◌, Option, none, some, List, [], ◌∷◌,
  ◌==◌, if◌then◌else◌, length, arith, Bool-cases, ap, sym, ◌∙◌,
}
use meta_dualsense.Ffsd.Slots.{
  InputSlot, clip, max_inputs, input_slots_init, is_used, input_slots_find_path, input_slots_add,
  input_slots_remove_fd, FdEffect, try_open, close, watch, plug, opened, added,
}
use meta_dualsense.Ffsd.Slots.Table.{
  tracks, holds_fd, is_full, found, found-add, AreDistinct, find-tracks, holds_fd-add, or_same,
  length-add, AreDistinct-add, holds_fd-remove, AreDistinct-remove, length-remove,
}

pub record IsValid (slots : List InputSlot) : Type 0 where
  pub size : length slots ≡ max_inputs
  pub distinct : AreDistinct slots

-- The table starts valid.
pub init-IsValid : IsValid input_slots_init
init-IsValid = record {
  size = refl;
  distinct = (
    tt,
    (tt, (tt, (tt, (tt, (tt, (tt, (tt, (tt, (tt, (tt, (tt, (tt, (tt, (tt, (tt, tt))))))))))))))),
  );
}

-- The descriptor that the kernel returns is not one that is open.
abbrev pub IsFresh : Option ℕ → List InputSlot → Type 0
IsFresh none slots = Unit
IsFresh (some fd) slots = holds_fd slots fd ≡ false

added_slots :
    (slots : List InputSlot) (fd : ℕ) (o : Option (List InputSlot))
    → (added slots fd o).0 ≡ or_same slots o
unfolding added
added_slots slots fd none = refl
added_slots slots fd (some slots') = refl

opened-IsValid :
    (slots : List InputSlot) (path : List ℕ) (o : Option ℕ)
    → tracks slots (clip path) ≡ false
    → IsFresh o slots
    → IsValid slots
    → IsValid (opened slots path o).0
unfolding opened
opened-IsValid slots path none t f v = v
opened-IsValid slots path (some fd) t f v =
    rw (added_slots slots fd (input_slots_add slots fd path)) (record {
      size = ground (arith, v, length-add slots fd path);
      distinct = AreDistinct-add slots fd path t f v.distinct;
    })

-- Plugging in a device whose path fits a slot keeps the table at sixteen slots with no path and no
-- descriptor in two of them, provided that a descriptor opened for it is not one in the table.
pub plug-IsValid :
    (classify : List ℕ → Option ℕ) (slots : List InputSlot) (path : List ℕ)
    → clip path ≡ path
    → IsFresh (classify path) slots
    → IsValid slots
    → IsValid (plug classify slots path).0
unfolding plug
plug-IsValid classify slots path c f v =
    elim (Bool-cases (is_used (input_slots_find_path slots path))) [
      | inl known ↦ rw known v
      | inr other ↦ rw other (
          opened-IsValid slots path (classify path) (rw c (sym (find-tracks slots path) ∙ other)) f
            v)
    ]

-- The descriptors that the effects register.
unfoldable pub watched : List FdEffect → ℕ → Bool
watched [] g = false
watched (try_open path ∷ effects) g = watched effects g
watched (close fd ∷ effects) g = watched effects g
watched (watch fd ∷ effects) g = fd == g || watched effects g

-- What should happen for a path that is not in the table: it is opened, once; a descriptor that this
-- gives is dealt with.
unfoldable pub settled : List ℕ → Bool → Option ℕ → List FdEffect
settled path full none = try_open path ∷ []
settled path full (some fd) = try_open path ∷ (if full then close fd else watch fd) ∷ []

added_effects :
    (slots : List InputSlot) (fd : ℕ) (o : Option (List InputSlot))
    → (added slots fd o).1 ≡ (if found o then watch fd else close fd) ∷ []
unfolding added
added_effects slots fd none = refl
added_effects slots fd (some slots') = refl

add_effects :
    (slots : List InputSlot) (fd : ℕ) (path : List ℕ)
    → (added slots fd (input_slots_add slots fd path)).1
      ≡ (if is_full slots then close fd else watch fd) ∷ []
add_effects slots fd path =
    added_effects slots fd (input_slots_add slots fd path)
    ∙ ap (λ (b : Bool). (if b then watch fd else close fd) ∷ []) (found-add slots fd path)
    ∙ ground arith

watched_single :
    (full : Bool) (fd g : ℕ)
    → watched ((if full then close fd else watch fd) ∷ []) g ≡ (not full && fd == g)
unfolding watched
watched_single true fd g = refl
watched_single false fd g = ground arith

watched_try :
    (path : List ℕ) (effects : List FdEffect) (g : ℕ)
    → watched (try_open path ∷ effects) g ≡ watched effects g
unfolding watched
watched_try path effects g = refl

-- The table grows by the descriptors that are registered.
Grows : List InputSlot → List InputSlot × List FdEffect → Type 0
Grows slots r = (g : ℕ) → holds_fd r.0 g ≡ (holds_fd slots g || watched r.1 g)

opened-Grows :
    (slots : List InputSlot) (path : List ℕ) (o : Option ℕ) → Grows slots (opened slots path o)
unfolding opened Grows
opened-Grows slots path none g = unfold watched in ground arith
opened-Grows slots path (some fd) g =
    rw
      (
        added_slots slots fd (input_slots_add slots fd path),
        add_effects slots fd path,
        watched_try path ((if is_full slots then close fd else watch fd) ∷ []) g,
        watched_single (is_full slots) fd g,
      )
      (holds_fd-add slots fd g path)

opened_effects :
    (slots : List InputSlot) (path : List ℕ) (o : Option ℕ)
    → (opened slots path o).1 ≡ settled path (is_full slots) o
unfolding opened settled
opened_effects slots path none = refl
opened_effects slots path (some fd) =
    ap (λ (es : List FdEffect). try_open path ∷ es) (add_effects slots fd path)

-- For a device whose path is in the table, nothing is done: it is not opened again. Any other is
-- opened once, and a descriptor that this gives is registered with epoll and enters the table if a
-- slot is free, and is closed if none is; the table holds the descriptors that it held and those registered, no others.
pub plug_outcome :
    (classify : List ℕ → Option ℕ) (slots : List InputSlot) (path : List ℕ)
    → let (slots', effects) = plug classify slots path in
      (effects ≡ (if tracks slots path then [] else settled path (is_full slots) (classify path)))
      × ((g : ℕ) → holds_fd slots' g ≡ (holds_fd slots g || watched effects g))
unfolding plug
plug_outcome classify slots path = elim (Bool-cases (is_used (input_slots_find_path slots path))) [
  | inl known ↦
      rw (known, ← find-tracks slots path, known) (refl, λ g. unfold watched in ground arith)
  | inr other ↦
      rw (other, ← find-tracks slots path, other)
        (
          opened_effects slots path (classify path),
          unfold Grows in opened-Grows slots path (classify path),
        )
]

-- When a device is gone, the table holds the same descriptors but that of the device, and stays at
-- sixteen slots with no path and no descriptor in two of them.
pub remove_outcome :
    (slots : List InputSlot) (fd : ℕ)
    → IsValid slots
    → IsValid (input_slots_remove_fd slots fd)
      × ((g : ℕ)
          → holds_fd (input_slots_remove_fd slots fd) g ≡ (holds_fd slots g && not (fd == g)))
remove_outcome slots fd v = (
  record {
    size = length-remove slots fd ∙ v.size;
    distinct = AreDistinct-remove slots fd v.distinct;
  },
  λ g. holds_fd-remove slots fd g v.distinct,
)
