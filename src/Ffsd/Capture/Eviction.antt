-- ===== src/Ffsd/Capture/Eviction.antt =====
-- Who is dropped when the socket has more clients than slots.
use meta_dualsense.Prelude.{ℕ, ◌≡◌, refl, ap, Option, none, some, List, [], ◌∷◌, ◌++◌}
use meta_dualsense.Ffsd.Capture.{take_free, evict, placed, behind, capture_accept}

-- The clients that connect one after the other, with all that is closed, in order.
unfoldable pub accept_all : List (Option ℕ) → List ℕ → List (Option ℕ) × List ℕ
accept_all clients [] = (clients, [])
accept_all clients (fd ∷ fds) =
    let (clients', closed) = capture_accept clients (some fd) in
    let (last, more) = accept_all clients' fds in (last, closed ++ more)

-- A table without a free slot, as the descriptors in it.
abbrev pub used : List ℕ → List (Option ℕ)
used [] = []
used (c ∷ cs) = some c ∷ used cs

take_free-used : (cs : List ℕ) (fd : ℕ) → take_free (used cs) fd ≡ none
unfolding take_free
take_free-used [] fd = refl
take_free-used (c ∷ cs) fd = ap (behind (some c)) (take_free-used cs fd)

accept-used :
    (c : ℕ) (cs : List ℕ) (fd : ℕ)
    → capture_accept (used (c ∷ cs)) (some fd) ≡ (used (fd ∷ cs), c ∷ [])
unfolding capture_accept placed evict
accept-used c cs fd = rw (take_free-used (c ∷ cs) fd)

-- The last of `c` and the clients behind it, and all but that last.
unfoldable pub last_of : ℕ → List ℕ → ℕ
last_of c [] = c
last_of c (fd ∷ fds) = last_of fd fds

unfoldable pub all_but_last : ℕ → List ℕ → List ℕ
all_but_last c [] = []
all_but_last c (fd ∷ fds) = c ∷ all_but_last fd fds

-- With the table full, of however many clients connect, each takes slot 0 from the one before: the
-- client that was in slot 0 and all the new ones but the last are closed, in the order in which
-- they connected, and the clients in the other slots stay.
pub accept_all_full :
    (c : ℕ) (cs fds : List ℕ)
    → accept_all (used (c ∷ cs)) fds ≡ (used (last_of c fds ∷ cs), all_but_last c fds)
unfolding accept_all last_of all_but_last
accept_all_full c cs [] = refl
accept_all_full c cs (fd ∷ fds) = rw (accept-used c cs fd, accept_all_full fd cs fds)
