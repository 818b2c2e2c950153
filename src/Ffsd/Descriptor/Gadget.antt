-- ===== src/Ffsd/Descriptor/Gadget.antt =====
-- What dualsense-ffsd writes to ep0 at its start: `descriptors` and `strings_descriptor` of
-- recipes-apps/kbm-mapper-ff/files/ffs_descriptors.h, with the numbers of the kernel's headers.
use meta_dualsense.Prelude.{
  ℕ, suc, zero, ◌/◌, ◌%◌, ◌^◌, ◌≡◌, refl, ◌&&◌, Option, none, some, List, [], ◌∷◌, ◌++◌,
  if◌then◌else◌, length, take, drop, leb,
}
use meta_dualsense.Ffsd.Descriptor.{
  dualsense_report_descriptor, HidClassDescriptor, fs_hid, hid_bytes,
}

-- `struct usb_functionfs_descs_head_v2`
pub record DescsHead : Type 0 where
  pub magic : ℕ
  pub length : ℕ
  pub flags : ℕ

-- `struct usb_interface_descriptor`
pub record InterfaceDescriptor : Type 0 where
  pub length : ℕ
  pub descriptor_type : ℕ
  pub interface_number : ℕ
  pub alternate_setting : ℕ
  pub num_endpoints : ℕ
  pub interface_class : ℕ
  pub interface_sub_class : ℕ
  pub interface_protocol : ℕ
  pub interface : ℕ

-- `struct usb_endpoint_descriptor_no_audio`
pub record EndpointDescriptor : Type 0 where
  pub length : ℕ
  pub descriptor_type : ℕ
  pub endpoint_address : ℕ
  pub attributes : ℕ
  pub max_packet_size : ℕ
  pub interval : ℕ

-- The descriptors of one speed.
pub record SpeedDescriptors : Type 0 where
  pub intf : InterfaceDescriptor
  pub hid : HidClassDescriptor
  pub ep_in : EndpointDescriptor
  pub ep_out : EndpointDescriptor

pub record FfsDescriptors : Type 0 where
  pub header : DescsHead
  pub fs_count : ℕ
  pub hs_count : ℕ
  pub fs : SpeedDescriptors
  pub hs : SpeedDescriptors

abbrev pub ep_in_addr : ℕ
ep_in_addr = 0x81

abbrev pub ep_out_addr : ℕ
ep_out_addr = 0x02

abbrev pub ep_max_packet : ℕ
ep_max_packet = 64

-- The interface descriptor of both speeds.
abbrev pub hid_interface : InterfaceDescriptor
hid_interface = record {
  length = 9;
  descriptor_type = 0x04;
  interface_number = 0;
  alternate_setting = 0;
  num_endpoints = 2;
  interface_class = 0x03;
  interface_sub_class = 0;
  interface_protocol = 0;
  interface = 0;
}

abbrev pub endpoint : ℕ → ℕ → EndpointDescriptor
endpoint address interval = record {
  length = 7;
  descriptor_type = 0x05;
  endpoint_address = address;
  attributes = 0x03;
  max_packet_size = ep_max_packet;
  interval = interval;
}

-- `descriptors`; the length is that of the packed structure.
unfoldable pub descriptors : FfsDescriptors
descriptors = record {
  header = record { magic = 3; length = 84; flags = 3 };
  fs_count = 4;
  hs_count = 4;
  fs = record {
    intf = hid_interface;
    hid = fs_hid;
    ep_in = endpoint ep_in_addr 1;
    ep_out = endpoint ep_out_addr 1;
  };
  hs = record {
    intf = hid_interface;
    hid = fs_hid;
    ep_in = endpoint ep_in_addr 4;
    ep_out = endpoint ep_out_addr 4;
  };
}

abbrev pub le16 : ℕ → List ℕ
le16 n = n % 256 ∷ n / 256 ∷ []

abbrev pub le32 : ℕ → List ℕ
le32 n = n % 256 ∷ n / 256 % 256 ∷ n / 2 ^ 16 % 256 ∷ n / 2 ^ 24 ∷ []

unfoldable pub interface_bytes : InterfaceDescriptor → List ℕ
interface_bytes d =
    d.length ∷ d.descriptor_type ∷ d.interface_number ∷ d.alternate_setting ∷ d.num_endpoints
    ∷ d.interface_class ∷ d.interface_sub_class ∷ d.interface_protocol ∷ d.interface ∷ []

unfoldable pub endpoint_bytes : EndpointDescriptor → List ℕ
endpoint_bytes d =
    d.length
    ∷ d.descriptor_type
    ∷ d.endpoint_address
    ∷ d.attributes
    ∷ (le16 d.max_packet_size ++ (d.interval ∷ []))

unfoldable pub speed_bytes : SpeedDescriptors → List ℕ
speed_bytes s =
    interface_bytes s.intf
    ++ (hid_bytes s.hid ++ (endpoint_bytes s.ep_in ++ endpoint_bytes s.ep_out))

-- The structure in memory, which `main` writes.
unfoldable pub descriptors_bytes : FfsDescriptors → List ℕ
descriptors_bytes d =
    le32 d.header.magic
    ++ (le32 d.header.length
        ++ (le32 d.header.flags
            ++ (le32 d.fs_count ++ (le32 d.hs_count ++ (speed_bytes d.fs ++ speed_bytes d.hs)))))

-- `strings_descriptor` in memory: the magic number, the length, and no strings in no languages.
unfoldable pub strings_bytes : List ℕ
strings_bytes = le32 2 ++ (le32 16 ++ (le32 0 ++ le32 0))

abbrev pub with_first : List ℕ → Option (List (List ℕ) × List ℕ) → Option (List (List ℕ) × List ℕ)
with_first d none = none
with_first d (some (ds, bytes)) = some (d ∷ ds, bytes)

-- A reader of the stream, independent of the structures: so many descriptors, each as long as its
-- first byte says, and the bytes behind them.
unfoldable pub read_descriptors : ℕ → List ℕ → Option (List (List ℕ) × List ℕ)
read_descriptors zero bytes = some ([], bytes)
read_descriptors (suc n) [] = none
read_descriptors (suc n) (size ∷ bytes) =
    let rest = read_descriptors n (drop size (size ∷ bytes)) in
    if leb 2 size && leb size (suc (length bytes))
    then with_first (take size (size ∷ bytes)) rest
    else none

-- The stream begins with its own length and the two counts, and consists of exactly so many
-- descriptors behind them; the HID descriptors of both speeds announce the report descriptor's
-- length.
descriptors_read :
    let bytes = descriptors_bytes descriptors in
    (take 4 (drop 4 bytes) ≡ le32 (length bytes))
    × (read_descriptors 8 (drop 20 bytes)
        ≡ some (
          interface_bytes descriptors.fs.intf
              ∷ hid_bytes descriptors.fs.hid
              ∷ endpoint_bytes descriptors.fs.ep_in
              ∷ endpoint_bytes descriptors.fs.ep_out
              ∷ interface_bytes descriptors.hs.intf
              ∷ hid_bytes descriptors.hs.hid
              ∷ endpoint_bytes descriptors.hs.ep_in
              ∷ endpoint_bytes descriptors.hs.ep_out
              ∷ [],
          [],
        ))
    × (drop 7 (hid_bytes descriptors.fs.hid) ≡ le16 (length dualsense_report_descriptor))
    × (drop 7 (hid_bytes descriptors.hs.hid) ≡ le16 (length dualsense_report_descriptor))
unfolding descriptors descriptors_bytes speed_bytes interface_bytes hid_bytes endpoint_bytes
    read_descriptors dualsense_report_descriptor
descriptors_read = (refl, refl, refl, refl)
