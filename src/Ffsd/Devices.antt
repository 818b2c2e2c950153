-- ===== src/Ffsd/Devices.antt =====
-- Which input devices dualsense-ffsd takes (recipes-apps/kbm-mapper-ff/files/main.c): `test_bit`,
-- `classify_and_open_input` and `fd_is_mouse`, on the bitmaps that the kernel fills in.
use meta_dualsense.Prelude.{
  ℕ, ◌/◌, ◌%◌, ◌^◌, ◌≡◌, Bool, true, false, not, ◌&&◌, ◌||◌, Option, none, some, List, [], ◌∷◌,
  ◌==◌, if◌then◌else◌, get_or, arith,
}
use meta_dualsense.Input.{ev_key, ev_rel, rel_x, rel_y, key_space, btn_left}

-- The bitmaps of a device, of as many bytes as the arrays have; all 0 where the `ioctl` fails.
pub record Capabilities : Type 0 where
  pub ev_bits : List ℕ
  pub key_bits : List ℕ
  pub rel_bits : List ℕ

-- `(bits[nr / 8] >> (nr % 8)) & 1`; the numbers tested lie within the arrays.
unfoldable pub test_bit : List ℕ → ℕ → Bool
test_bit bits nr = get_or bits (nr / 8) 0 / 2 ^ (nr % 8) % 2 == 1

abbrev pub looks_kbd : Capabilities → Bool
looks_kbd c = test_bit c.ev_bits ev_key && test_bit c.key_bits key_space

abbrev pub looks_mouse : Capabilities → Bool
looks_mouse c =
    test_bit c.ev_bits ev_rel
    && (test_bit c.rel_bits rel_x && (test_bit c.rel_bits rel_y && test_bit c.key_bits btn_left))

pub data DeviceCall : Type 0 where
  close_device : ℕ → DeviceCall
  grab : ℕ → DeviceCall  -- EVIOCGRAB of 1; a failure is only logged
  use_monotonic_clock : ℕ → DeviceCall  -- EVIOCSCLOCKID; a failure is only logged

-- The descriptor kept, and the calls made; the first argument is what `open` returns.
unfoldable pub classify_and_open_input : Option ℕ → Capabilities → Option ℕ × List DeviceCall
classify_and_open_input none c = (none, [])
classify_and_open_input (some fd) c =
    if not (looks_kbd c) && not (looks_mouse c)
    then (none, close_device fd ∷ [])
    else (some fd, grab fd ∷ use_monotonic_clock fd ∷ [])

abbrev pub fd_is_mouse : Capabilities → Bool
fd_is_mouse c = test_bit c.rel_bits rel_x

abbrev pub is_open : Option ℕ → Bool
is_open none = false
is_open (some fd) = true

abbrev pub closed : List DeviceCall → ℕ → Bool
closed [] fd = false
closed (close_device f ∷ calls) fd = f == fd || closed calls fd
closed (grab f ∷ calls) fd = closed calls fd
closed (use_monotonic_clock f ∷ calls) fd = closed calls fd

-- A device that can be opened is kept exactly if it looks like a keyboard or a mouse, and closed
-- exactly if not; a device that is kept and does not count as a mouse for the capture clients looks
-- like a keyboard.
pub device_kept_or_closed :
    (fd : ℕ) (c : Capabilities)
    → let (kept, calls) = classify_and_open_input (some fd) c in
      (is_open kept ≡ (looks_kbd c || looks_mouse c))
      × (closed calls fd ≡ not (is_open kept))
      × ((is_open kept && not (fd_is_mouse c) && not (looks_kbd c)) ≡ false)
unfolding classify_and_open_input
device_kept_or_closed fd c = ground arith
