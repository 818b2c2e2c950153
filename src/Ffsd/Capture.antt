-- ===== src/Ffsd/Capture.antt =====
-- The subscribers of the capture socket of dualsense-ffsd (recipes-apps/kbm-mapper-ff/files/main.c):
-- `capture_accept` and the part of `capture_publish` that decides who stays. A descriptor is a
-- number, and `none` is the -1 of a free slot.
pub mod Eviction
pub mod Line
use meta_dualsense.Prelude.{
  ℕ, zero, suc, Bool, true, false, Option, none, some, List, [], ◌∷◌, ◌++◌, ◌==◌, if◌then◌else◌,
  replicate,
}
use meta_dualsense.Input.{InputEvent, ev_key}

abbrev pub capture_max_clients : ℕ
capture_max_clients = 4

abbrev pub no_clients : List (Option ℕ)
no_clients = replicate capture_max_clients none

abbrev behind : Option ℕ → Option (List (Option ℕ)) → Option (List (Option ℕ))
behind c none = none
behind c (some cs) = some (c ∷ cs)

-- The loop that takes the first free slot
unfoldable pub take_free : List (Option ℕ) → ℕ → Option (List (Option ℕ))
take_free [] fd = none
take_free (none ∷ cs) fd = some (some fd ∷ cs)
take_free (some c ∷ cs) fd = behind (some c) (take_free cs fd)

-- Slot 0, which is used where this is called, is closed and given to the new client.
unfoldable pub evict : List (Option ℕ) → ℕ → List (Option ℕ) × List ℕ
evict [] fd = ([], [])
evict (none ∷ cs) fd = (some fd ∷ cs, [])
evict (some c ∷ cs) fd = (some fd ∷ cs, c ∷ [])

unfoldable pub placed : List (Option ℕ) → ℕ → Option (List (Option ℕ)) → List (Option ℕ) × List ℕ
placed clients fd none = evict clients fd
placed clients fd (some clients') = (clients', [])

-- The new table and the descriptors closed; the argument is what `accept4` returns.
unfoldable pub capture_accept : List (Option ℕ) → Option ℕ → List (Option ℕ) × List ℕ
capture_accept clients none = (clients, [])
capture_accept clients (some fd) = placed clients fd (take_free clients fd)

-- The loop over the clients: `alive` tells of a client whether its write succeeds or would block.
-- The result is the table, the clients written to, and the descriptors closed.
unfoldable pub deliver : (ℕ → Bool) → List (Option ℕ) → List (Option ℕ) × List ℕ × List ℕ
deliver alive [] = ([], [], [])
deliver alive (none ∷ cs) = let (cs', to, closed) = deliver alive cs in (none ∷ cs', to, closed)
deliver alive (some c ∷ cs) =
    let (cs', to, closed) = deliver alive cs in
    if alive c then (some c ∷ cs', c ∷ to, closed) else (none ∷ cs', c ∷ to, c ∷ closed)

unfoldable pub capture_publish :
    (ℕ → Bool) → List (Option ℕ) → InputEvent → List (Option ℕ) × List ℕ × List ℕ
capture_publish alive clients e =
    if e.type == ev_key then deliver alive clients else (clients, [], [])
