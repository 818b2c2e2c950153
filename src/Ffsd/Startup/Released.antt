-- ===== src/Ffsd/Startup/Released.antt =====
-- No descriptor is lost when the daemon starts or ends.
use meta_dualsense.Prelude.{
  ℕ, suc, zero, ◌+◌, ◌<◌, ◌≡◌, ◌⊎◌, refl, ◌∙◌, Bool, true, false, ◌&&◌, ◌||◌, Option, none, some,
  List, [], ◌∷◌, ◌++◌, ◌==◌, arith, inl, inr, take,
}
use meta_dualsense.Prelude.Text.{Bytes}
use meta_dualsense.Mapper.Float.{Float}
use meta_dualsense.Ffsd.Daemon.{Daemon, Ready, run}
use meta_dualsense.Ffsd.Slots.{InputSlot, is_used, is_fd}
use meta_dualsense.Ffsd.Slots.Table.{holds_fd}
use meta_dualsense.Ffsd.Startup.{
  Opened, Endpoints, close_opened, try_round, open_endpoints, Teardown, unbind_udc, stop_writer,
  release_device, close_fd, unlink_socket, release_slot, release_slots, close_if_open,
  close_clients, close_listener, Handles, shutdown,
}

-- All that so many rounds open, from round number `i` on.
unfoldable pub opened_in : (ℕ → Opened) → ℕ → ℕ → List ℕ
opened_in tries i zero = []
opened_in tries i (suc k) =
    close_opened (tries i).0 ++ (close_opened (tries i).1 ++ opened_in tries (suc i) k)

-- Whether a round opened both endpoints.
abbrev pub opens_both : Opened → Bool
opens_both o = is_used o.0 && is_used o.1

-- None of so many rounds opened both.
unfoldable pub AllFail : (ℕ → Opened) → ℕ → ℕ → Type 0
AllFail tries i zero = Unit
AllFail tries i (suc k) = (opens_both (tries i) ≡ false) × AllFail tries (suc i) k

-- Either every round failed, or round `i + k` is the first that opened both endpoints; what the
-- rounds before opened is closed.
abbrev pub IsOutcome : (ℕ → Opened) → ℕ → ℕ → Endpoints → Type 0
IsOutcome tries i n e =
    (AllFail tries i n × (e.ep_in ≡ none) × (e.ep_out ≡ none) × (e.closed ≡ opened_in tries i n))
    ⊎ ((k : ℕ) × (k < n)
        × AllFail tries i k
        × ((e.ep_in, e.ep_out) ≡ tries (i + k))
        × (opens_both (tries (i + k)) ≡ true)
        × (e.closed ≡ opened_in tries i k))

-- A round that does not open both puts what it opened in front.
failed-IsOutcome :
    (tries : ℕ → Opened) (i n : ℕ) (o : Opened) (e : Endpoints)
    → tries i ≡ o
    → opens_both o ≡ false
    → IsOutcome tries (suc i) n e
    → IsOutcome tries i
        (suc n)
        (record e { closed = close_opened o.0 ++ (close_opened o.1 ++ e.closed) })
unfolding opened_in AllFail
failed-IsOutcome tries i n o e same fails (inl (all_fail, x, y, z)) =
    inl ((rw same fails, all_fail), x, y, rw (same, z) refl)
failed-IsOutcome tries i n o e same fails (inr (k, below, all_fail, got, both, z)) =
    let there : i + suc k ≡ suc i + k = omega arith in
    inr (
      suc k,
      omega arith,
      (rw same fails, all_fail),
      rw there got,
      rw there both,
      rw (same, z) refl,
    )

try-IsOutcome :
    (tries : ℕ → Opened) (i n : ℕ) (o : Opened) (e : Endpoints)
    → tries i ≡ o
    → IsOutcome tries (suc i) n e
    → IsOutcome tries i (suc n) (try_round o e)
unfolding try_round opened_in AllFail
try-IsOutcome tries i n (some a, some b) e same h =
    let there : i + 0 ≡ i = omega arith in
    inr (0, omega arith, tt, rw (there, same) refl, rw (there, same) refl, refl)
try-IsOutcome tries i n (some a, none) e same h =
    failed-IsOutcome tries i n (some a, none) e same refl h
try-IsOutcome tries i n (none, some b) e same h =
    failed-IsOutcome tries i n (none, some b) e same refl h
try-IsOutcome tries i n (none, none) e same h =
    failed-IsOutcome tries i n (none, none) e same refl h

-- The loop that opens the endpoints, for any number of rounds: either no round opens both, and then
-- no descriptor is kept and all that the rounds opened is closed again; or the descriptors kept are
-- those of the first round that opens both, and exactly what the rounds before it opened is closed.
pub open_endpoints-IsOutcome :
    (n : ℕ) (tries : ℕ → Opened) (i : ℕ) → IsOutcome tries i n (open_endpoints n tries i)
unfolding open_endpoints opened_in AllFail
open_endpoints-IsOutcome zero tries i = inl (tt, refl, refl, refl)
open_endpoints-IsOutcome (suc n) tries i =
    try-IsOutcome tries i n (tries i) (open_endpoints n tries (suc i)) refl
      (open_endpoints-IsOutcome n tries (suc i))

-- The descriptors that the end of the program gives back to the kernel.
unfoldable pub gives_back : List Teardown → ℕ → Bool
gives_back [] fd = false
gives_back (release_device f ∷ ts) fd = f == fd || gives_back ts fd
gives_back (close_fd f ∷ ts) fd = f == fd || gives_back ts fd
gives_back (unbind_udc ∷ ts) fd = gives_back ts fd
gives_back (stop_writer ∷ ts) fd = gives_back ts fd
gives_back (unlink_socket ∷ ts) fd = gives_back ts fd

gives_back-append :
    (a b : List Teardown) (fd : ℕ) → gives_back (a ++ b) fd ≡ (gives_back a fd || gives_back b fd)
unfolding gives_back
gives_back-append [] b fd = refl
gives_back-append (release_device f ∷ a) b fd = ground (arith, gives_back-append a b fd)
gives_back-append (close_fd f ∷ a) b fd = ground (arith, gives_back-append a b fd)
gives_back-append (unbind_udc ∷ a) b fd = gives_back-append a b fd
gives_back-append (stop_writer ∷ a) b fd = gives_back-append a b fd
gives_back-append (unlink_socket ∷ a) b fd = gives_back-append a b fd

gives_back-slot : (o : Option ℕ) (fd : ℕ) → gives_back (release_slot o) fd ≡ is_fd o fd
unfolding gives_back
gives_back-slot none fd = refl
gives_back-slot (some f) fd = ground arith

gives_back-slots :
    (slots : List InputSlot) (fd : ℕ) → gives_back (release_slots slots) fd ≡ holds_fd slots fd
unfolding gives_back release_slots holds_fd
gives_back-slots [] fd = refl
gives_back-slots (s ∷ slots) fd = ground (
  arith,
  gives_back-append (release_slot s.fd) (release_slots slots) fd,
  gives_back-slot s.fd fd,
  gives_back-slots slots fd,
)

gives_back-open : (o : Option ℕ) (fd : ℕ) → gives_back (close_if_open o) fd ≡ is_fd o fd
unfolding gives_back
gives_back-open none fd = refl
gives_back-open (some f) fd = ground arith

abbrev pub any_fd : List (Option ℕ) → ℕ → Bool
any_fd [] fd = false
any_fd (c ∷ cs) fd = is_fd c fd || any_fd cs fd

gives_back-clients :
    (cs : List (Option ℕ)) (fd : ℕ) → gives_back (close_clients cs) fd ≡ any_fd cs fd
unfolding gives_back close_clients
gives_back-clients [] fd = refl
gives_back-clients (c ∷ cs) fd = ground (
  arith,
  gives_back-append (close_if_open c) (close_clients cs) fd,
  gives_back-open c fd,
  gives_back-clients cs fd,
)

gives_back-listener : (o : Option ℕ) (fd : ℕ) → gives_back (close_listener o) fd ≡ is_fd o fd
unfolding gives_back
gives_back-listener none fd = refl
gives_back-listener (some f) fd = ground arith

-- Whether `main` holds this descriptor beside those in the daemon's state.
abbrev pub is_handle : Handles → ℕ → Bool
is_handle h fd =
    is_fd h.inotify_fd fd
    || (is_fd h.snap_fd fd
        || (is_fd h.capture_listen_fd fd
            || (h.ep_out == fd || (h.ep_in == fd || (h.ep0 == fd || (h.tfd == fd || h.ep == fd))))))

module _ (fp : Float) (atof : Bytes → fp.Double) where
  open fp use {Double}

  -- At its end, after whatever the loop did, the daemon first unbinds the gadget and stops the writer
  -- thread, and then gives back exactly the descriptors that it holds: those of the input devices and
  -- the capture clients that the loop left in its state, of inotify, the snapshot file and the
  -- listening socket as far as they are open, and of the three endpoints, the timer and epoll.
  pub shutdown-gives_back :
      (d0 : Daemon Double) (has_snap : Bool) (rs : List Ready) (h : Handles) (fd : ℕ)
      → let d = (run fp atof has_snap d0 rs).0 in
        let ts = shutdown d.slots d.clients h in
        (take 2 ts ≡ unbind_udc ∷ stop_writer ∷ [])
        × (gives_back ts fd ≡ (holds_fd d.slots fd || (any_fd d.clients fd || is_handle h fd)))
  unfolding shutdown gives_back
  shutdown-gives_back d0 has_snap rs h fd =
      let d = (run fp atof has_snap d0 rs).0 in
      (
        refl,
        gives_back-append (release_slots d.slots) _ fd
            ∙ rw
                (
                  gives_back-append, gives_back-append, gives_back-append, gives_back-append,
                  gives_back-slots, gives_back-open, gives_back-open, gives_back-clients,
                  gives_back-listener,
                )
                (ground arith),
      )
