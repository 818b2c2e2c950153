-- ===== src/Ffsd/Setup.antt =====
-- Control transfers on ep0: `respond_in`, `ack_out`, `handle_setup` and `handle_ffs_event` of
-- recipes-apps/kbm-mapper-ff/files/main.c.
pub mod Bounds
use Prim.Native.Nat.{bit_and}
use meta_dualsense.Prelude.{
  ℕ, ◌/◌, ◌%◌, Bool, true, false, not, ◌&&◌, Option, none, some, List, [], ◌∷◌, ◌==◌, ltb,
  if◌then◌else◌, length, take, replicate, set,
}
use meta_dualsense.Ffsd.Descriptor.{
  dualsense_report_descriptor, hid_dt_hid, hid_dt_report, fs_hid, hid_bytes,
}
use meta_dualsense.Ffsd.Features.{FeatureReport, find_feature_report}

-- The fields of `struct usb_ctrlrequest`, the 16-bit ones as numbers.
pub record CtrlRequest : Type 0 where
  pub request_type : ℕ
  pub request : ℕ
  pub value : ℕ
  pub index : ℕ
  pub length : ℕ

-- What the handler does on ep0. A failed write is logged and not repeated.
pub data Reply : Type 0 where
  respond : List ℕ → Reply  -- data written for an IN request
  stall_in : Reply  -- a write of no bytes
  stall_out : Reply  -- a read of no bytes
  ack : Reply  -- the status phase of an OUT request
  discard : Reply  -- a read of the data phase, dropped

-- `len` is at most the length of the data.
unfoldable pub respond_in : List ℕ → ℕ → ℕ → Reply
respond_in bytes len requested = respond (take (if ltb requested len then requested else len) bytes)

unfoldable pub stall : Bool → Reply
stall direction_in = if direction_in then stall_in else stall_out

-- The centred report with no button that answers GET_REPORT(Input).
unfoldable pub idle_report : List ℕ
idle_report =
    set (set (set (set (set (set (replicate 64 0) 0 0x01) 1 0x80) 2 0x80) 3 0x80) 4 0x80) 8 0x08

abbrev pub is_in : CtrlRequest → Bool
is_in s = not (bit_and s.request_type 0x80 == 0)

-- `bmRT & USB_TYPE_MASK`
abbrev pub type_of : CtrlRequest → ℕ
type_of s = bit_and s.request_type 0x60

-- `(wValue >> 8) & 0xFF` and `wValue & 0xFF`
abbrev pub high : CtrlRequest → ℕ
high s = s.value / 256 % 256

abbrev pub low : CtrlRequest → ℕ
low s = s.value % 256

standard : CtrlRequest → Reply
standard s =
    if is_in s && s.request == 0x06
    then (if high s == hid_dt_report
        then respond_in dualsense_report_descriptor (length dualsense_report_descriptor) s.length
        else if high s == hid_dt_hid
        then respond_in (hid_bytes fs_hid) (length (hid_bytes fs_hid)) s.length
        else stall (is_in s))
    else stall (is_in s)

feature : CtrlRequest → Option FeatureReport → Reply
feature s none = stall (is_in s)
feature s (some r) = respond_in r.bytes r.size s.length

class_request : CtrlRequest → Reply
class_request s =
    if is_in s && s.request == 0x01
    then (if high s == 0x03
        then feature s (find_feature_report (low s))
        else respond_in idle_report (length idle_report) s.length)
    else if not (is_in s) && s.request == 0x09
    then discard
    else if s.request == 0x0A
    then ack
    else if is_in s && s.request == 0x02
    then respond_in (0 ∷ []) 1 s.length
    else if s.request == 0x0B
    then ack
    else if is_in s && s.request == 0x03
    then respond_in (1 ∷ []) 1 s.length
    else stall (is_in s)

unfoldable pub handle_setup : CtrlRequest → Reply
unfolding standard feature class_request
handle_setup s =
    if type_of s == 0x00
    then standard s
    else if type_of s == 0x20
    then class_request s
    else stall (is_in s)

pub data FfsEvent : Type 0 where
  bind unbind enable disable suspend resume : FfsEvent
  setup : CtrlRequest → FfsEvent
  unknown : ℕ → FfsEvent

-- All but `setup` are only logged.
unfoldable pub handle_ffs_event : FfsEvent → Option Reply
handle_ffs_event (setup s) = some (handle_setup s)
handle_ffs_event e = none
