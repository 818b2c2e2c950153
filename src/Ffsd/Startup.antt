-- ===== src/Ffsd/Startup.antt =====
-- The start and the end of dualsense-ffsd (recipes-apps/kbm-mapper-ff/files/main.c): the choice of the
-- USB controller, the loop that opens the endpoints, and what is given back behind the main loop.
pub mod Released
use meta_dualsense.Prelude.{
  ℕ, suc, zero, ◌+◌, ◌≤◌, ◌<◌, ◌≡◌, refl, sym, ◌∙◌, ap, Bool, true, false, not, ◌&&◌, ◌||◌, Option,
  none, some, List, [], ◌∷◌, ◌++◌, ◌==◌, if◌then◌else◌, arith, Bool-cases, inl, inr, take, length,
  length-take,
}
use meta_dualsense.Prelude.Text.{Bytes}
use meta_dualsense.Ffsd.Slots.{InputSlot}

abbrev pub starts_with_dot : Bytes → Bool
starts_with_dot [] = false
starts_with_dot (c ∷ s) = c == 46

abbrev pub nonempty : Bytes → Option Bytes
nonempty [] = none
nonempty (c ∷ s) = some (c ∷ s)

-- The loop of `bind_udc` over the names in /sys/class/udc, and the test behind it: what it writes to
-- the gadget's UDC file, `none` if there is no controller. The array has 64 bytes, the last one 0.
unfoldable pub bind_udc : List Bytes → Option Bytes
bind_udc [] = none
bind_udc (name ∷ names) =
    let later = bind_udc names in if starts_with_dot name then later else nonempty (take 63 name)

-- What one round of the endpoint loop gets from `open` for ep1 and ep2.
abbrev pub Opened : Type 0
Opened = Option ℕ × Option ℕ

-- The two descriptors, `none` if every round failed, and those closed on the way.
pub record Endpoints : Type 0 where
  pub ep_in : Option ℕ
  pub ep_out : Option ℕ
  pub closed : List ℕ

abbrev pub close_opened : Option ℕ → List ℕ
close_opened none = []
close_opened (some fd) = fd ∷ []

-- The body of the loop: both are open, or what is open is closed and the next round follows.
unfoldable pub try_round : Opened → Endpoints → Endpoints
try_round (some i, some o) later = record { ep_in = some i; ep_out = some o; closed = [] }
try_round (some i, none) later = record later { closed = i ∷ later.closed }
try_round (none, some o) later = record later { closed = o ∷ later.closed }
try_round (none, none) later = later

-- The loop with so many rounds left; `tries` is what the rounds from number `i` on get.
unfoldable pub open_endpoints : ℕ → (ℕ → Opened) → ℕ → Endpoints
open_endpoints zero tries i = record { ep_in = none; ep_out = none; closed = [] }
open_endpoints (suc rounds) tries i = try_round (tries i) (open_endpoints rounds tries (suc i))

abbrev pub rounds : ℕ
rounds = 100

-- What is given back behind the main loop.
pub data Teardown : Type 0 where
  unbind_udc : Teardown
  stop_writer : Teardown  -- `ep_writer_stop`, which joins the thread
  release_device : ℕ → Teardown  -- EVIOCGRAB of 0, close
  close_fd : ℕ → Teardown
  unlink_socket : Teardown

abbrev pub release_slot : Option ℕ → List Teardown
release_slot none = []
release_slot (some fd) = release_device fd ∷ []

unfoldable pub release_slots : List InputSlot → List Teardown
release_slots [] = []
release_slots (s ∷ slots) = release_slot s.fd ++ release_slots slots

-- `if (fd >= 0) close(fd)`
abbrev pub close_if_open : Option ℕ → List Teardown
close_if_open none = []
close_if_open (some fd) = close_fd fd ∷ []

unfoldable pub close_clients : List (Option ℕ) → List Teardown
close_clients [] = []
close_clients (c ∷ cs) = close_if_open c ++ close_clients cs

abbrev pub close_listener : Option ℕ → List Teardown
close_listener none = []
close_listener (some fd) = close_fd fd ∷ unlink_socket ∷ []

-- The descriptors that `main` holds beside those in the daemon's state.
pub record Handles : Type 0 where
  pub inotify_fd : Option ℕ
  pub snap_fd : Option ℕ
  pub capture_listen_fd : Option ℕ
  pub ep_out : ℕ
  pub ep_in : ℕ
  pub ep0 : ℕ
  pub tfd : ℕ
  pub ep : ℕ

-- `slots` and `clients` are those of the daemon's state.
unfoldable pub shutdown : List InputSlot → List (Option ℕ) → Handles → List Teardown
shutdown slots clients h =
    unbind_udc
    ∷ stop_writer
    ∷ (release_slots slots
        ++ (close_if_open h.inotify_fd
            ++ (close_if_open h.snap_fd
                ++ (close_clients clients
                    ++ (close_listener h.capture_listen_fd
                        ++ (close_fd h.ep_out
                            ∷ close_fd h.ep_in
                            ∷ close_fd h.ep0
                            ∷ close_fd h.tfd
                            ∷ close_fd h.ep
                            ∷ []))))))
