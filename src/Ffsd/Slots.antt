-- ===== src/Ffsd/Slots.antt =====
-- The input slots of dualsense-ffsd (recipes-apps/kbm-mapper-ff/files/main.c) and the hot-plug branch
-- of its main loop. A file descriptor is a number; `none` is -1, the only negative one stored.
pub mod Table
pub mod Plugging
pub mod Scan
use meta_dualsense.Prelude.{
  ℕ, zero, suc, Bool, true, false, not, ◌&&◌, ◌||◌, Option, none, some, List, [], ◌∷◌, ◌++◌, ◌==◌,
  if◌then◌else◌, take, replicate,
}
use meta_dualsense.Prelude.Text.{same_text}

pub record InputSlot : Type 0 where
  pub fd : Option ℕ
  pub path : List ℕ

abbrev pub max_inputs : ℕ
max_inputs = 16

abbrev pub unused : InputSlot
unused = record { fd = none; path = [] }

-- The zeroed array behind `input_slots_init`
abbrev pub input_slots_init : List InputSlot
input_slots_init = replicate max_inputs unused

-- `snprintf(path, 64, "%s", …)`
abbrev pub clip : List ℕ → List ℕ
clip = take 63

abbrev pub is_used : Option ℕ → Bool
is_used none = false
is_used (some fd) = true

abbrev pub is_fd : Option ℕ → ℕ → Bool
is_fd none fd = false
is_fd (some g) fd = g == fd

abbrev pub next_index : Option ℕ → Option ℕ
next_index none = none
next_index (some i) = some (suc i)

-- The index of the slot of this device; `none` is -1.
unfoldable pub input_slots_find_path : List InputSlot → List ℕ → Option ℕ
input_slots_find_path [] path = none
input_slots_find_path (s ∷ slots) path =
    if is_used s.fd && same_text s.path path
    then some 0
    else next_index (input_slots_find_path slots path)

abbrev pub behind : InputSlot → Option (List InputSlot) → Option (List InputSlot)
behind s none = none
behind s (some slots) = some (s ∷ slots)

-- The table with the device in the first free slot; `none` where the function returns -1.
unfoldable pub input_slots_add : List InputSlot → ℕ → List ℕ → Option (List InputSlot)
input_slots_add [] fd path = none
input_slots_add (s ∷ slots) fd path =
    if not (is_used s.fd)
    then some (record { fd = some fd; path = clip path } ∷ slots)
    else behind s (input_slots_add slots fd path)

unfoldable pub input_slots_remove_fd : List InputSlot → ℕ → List InputSlot
input_slots_remove_fd [] fd = []
input_slots_remove_fd (s ∷ slots) fd =
    if is_fd s.fd fd then unused ∷ slots else s ∷ input_slots_remove_fd slots fd

-- What the branch does: calls `classify_and_open_input` for a path, closes a descriptor, or registers
-- one with epoll.
pub data FdEffect : Type 0 where
  try_open : List ℕ → FdEffect
  close : ℕ → FdEffect
  watch : ℕ → FdEffect

added : List InputSlot → ℕ → Option (List InputSlot) → List InputSlot × List FdEffect
added slots fd none = (slots, close fd ∷ [])
added slots fd (some slots') = (slots', watch fd ∷ [])

opened : List InputSlot → List ℕ → Option ℕ → List InputSlot × List FdEffect
unfolding added
opened slots path none = (slots, try_open path ∷ [])
opened slots path (some fd) =
    let (slots', effects) = added slots fd (input_slots_add slots fd path) in
    (slots', try_open path ∷ effects)

-- An inotify event for an input device. `classify` is `classify_and_open_input`: the descriptor
-- that it opens for a path, if the device is a keyboard or a mouse.
unfoldable pub plug : (List ℕ → Option ℕ) → List InputSlot → List ℕ → List InputSlot × List FdEffect
unfolding opened
plug classify slots path =
    if is_used (input_slots_find_path slots path)
    then (slots, [])
    else opened slots path (classify path)
