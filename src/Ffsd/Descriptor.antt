-- ===== src/Ffsd/Descriptor.antt =====
-- The USB descriptors of recipes-apps/kbm-mapper-ff/files/ffs_descriptors.h that the control
-- handler sends: the HID report descriptor and the HID class descriptor.
pub mod Gadget
use meta_dualsense.Prelude.{ℕ, ◌/◌, ◌%◌, List, [], ◌∷◌}

unfoldable pub dualsense_report_descriptor : List ℕ
dualsense_report_descriptor =
    0x05 ∷ 0x01 ∷ 0x09 ∷ 0x05 ∷ 0xA1 ∷ 0x01 ∷ 0x85 ∷ 0x01 ∷ 0x09 ∷ 0x30 ∷ 0x09 ∷ 0x31 ∷ 0x09 ∷ 0x32
    ∷ 0x09 ∷ 0x35 ∷ 0x09 ∷ 0x33 ∷ 0x09 ∷ 0x34 ∷ 0x15 ∷ 0x00 ∷ 0x26 ∷ 0xFF ∷ 0x00 ∷ 0x75 ∷ 0x08
    ∷ 0x95 ∷ 0x06 ∷ 0x81 ∷ 0x02 ∷ 0x06 ∷ 0x00 ∷ 0xFF ∷ 0x09 ∷ 0x20 ∷ 0x95 ∷ 0x01 ∷ 0x81 ∷ 0x02
    ∷ 0x05 ∷ 0x01 ∷ 0x09 ∷ 0x39 ∷ 0x15 ∷ 0x00 ∷ 0x25 ∷ 0x07 ∷ 0x35 ∷ 0x00 ∷ 0x46 ∷ 0x3B ∷ 0x01
    ∷ 0x65 ∷ 0x14 ∷ 0x75 ∷ 0x04 ∷ 0x95 ∷ 0x01 ∷ 0x81 ∷ 0x42 ∷ 0x65 ∷ 0x00 ∷ 0x05 ∷ 0x09 ∷ 0x19
    ∷ 0x01 ∷ 0x29 ∷ 0x0F ∷ 0x15 ∷ 0x00 ∷ 0x25 ∷ 0x01 ∷ 0x75 ∷ 0x01 ∷ 0x95 ∷ 0x0F ∷ 0x81 ∷ 0x02
    ∷ 0x06 ∷ 0x00 ∷ 0xFF ∷ 0x09 ∷ 0x21 ∷ 0x95 ∷ 0x0D ∷ 0x81 ∷ 0x02 ∷ 0x06 ∷ 0x00 ∷ 0xFF ∷ 0x09
    ∷ 0x22 ∷ 0x15 ∷ 0x00 ∷ 0x26 ∷ 0xFF ∷ 0x00 ∷ 0x75 ∷ 0x08 ∷ 0x95 ∷ 0x34 ∷ 0x81 ∷ 0x02 ∷ 0x85
    ∷ 0x02 ∷ 0x09 ∷ 0x23 ∷ 0x95 ∷ 0x2F ∷ 0x91 ∷ 0x02 ∷ 0x85 ∷ 0x05 ∷ 0x09 ∷ 0x33 ∷ 0x95 ∷ 0x28
    ∷ 0xB1 ∷ 0x02 ∷ 0x85 ∷ 0x08 ∷ 0x09 ∷ 0x34 ∷ 0x95 ∷ 0x2F ∷ 0xB1 ∷ 0x02 ∷ 0x85 ∷ 0x09 ∷ 0x09
    ∷ 0x24 ∷ 0x95 ∷ 0x13 ∷ 0xB1 ∷ 0x02 ∷ 0x85 ∷ 0x0A ∷ 0x09 ∷ 0x25 ∷ 0x95 ∷ 0x1A ∷ 0xB1 ∷ 0x02
    ∷ 0x85 ∷ 0x20 ∷ 0x09 ∷ 0x26 ∷ 0x95 ∷ 0x3F ∷ 0xB1 ∷ 0x02 ∷ 0x85 ∷ 0x21 ∷ 0x09 ∷ 0x27 ∷ 0x95
    ∷ 0x04 ∷ 0xB1 ∷ 0x02 ∷ 0x85 ∷ 0x22 ∷ 0x09 ∷ 0x40 ∷ 0x95 ∷ 0x3F ∷ 0xB1 ∷ 0x02 ∷ 0x85 ∷ 0x80
    ∷ 0x09 ∷ 0x28 ∷ 0x95 ∷ 0x3F ∷ 0xB1 ∷ 0x02 ∷ 0x85 ∷ 0x81 ∷ 0x09 ∷ 0x29 ∷ 0x95 ∷ 0x3F ∷ 0xB1
    ∷ 0x02 ∷ 0x85 ∷ 0x82 ∷ 0x09 ∷ 0x2A ∷ 0x95 ∷ 0x09 ∷ 0xB1 ∷ 0x02 ∷ 0x85 ∷ 0x83 ∷ 0x09 ∷ 0x2B
    ∷ 0x95 ∷ 0x3F ∷ 0xB1 ∷ 0x02 ∷ 0x85 ∷ 0x84 ∷ 0x09 ∷ 0x2C ∷ 0x95 ∷ 0x3F ∷ 0xB1 ∷ 0x02 ∷ 0x85
    ∷ 0x85 ∷ 0x09 ∷ 0x2D ∷ 0x95 ∷ 0x02 ∷ 0xB1 ∷ 0x02 ∷ 0x85 ∷ 0xA0 ∷ 0x09 ∷ 0x2E ∷ 0x95 ∷ 0x01
    ∷ 0xB1 ∷ 0x02 ∷ 0x85 ∷ 0xE0 ∷ 0x09 ∷ 0x2F ∷ 0x95 ∷ 0x3F ∷ 0xB1 ∷ 0x02 ∷ 0x85 ∷ 0xF0 ∷ 0x09
    ∷ 0x30 ∷ 0x95 ∷ 0x3F ∷ 0xB1 ∷ 0x02 ∷ 0x85 ∷ 0xF1 ∷ 0x09 ∷ 0x31 ∷ 0x95 ∷ 0x3F ∷ 0xB1 ∷ 0x02
    ∷ 0x85 ∷ 0xF2 ∷ 0x09 ∷ 0x32 ∷ 0x95 ∷ 0x0F ∷ 0xB1 ∷ 0x02 ∷ 0x85 ∷ 0xF4 ∷ 0x09 ∷ 0x35 ∷ 0x95
    ∷ 0x3F ∷ 0xB1 ∷ 0x02 ∷ 0x85 ∷ 0xF5 ∷ 0x09 ∷ 0x36 ∷ 0x95 ∷ 0x03 ∷ 0xB1 ∷ 0x02 ∷ 0xC0 ∷ []

abbrev pub hid_report_desc_size : ℕ
hid_report_desc_size = 273

abbrev pub hid_dt_hid : ℕ
hid_dt_hid = 0x21

abbrev pub hid_dt_report : ℕ
hid_dt_report = 0x22

pub record HidClassDescriptor : Type 0 where
  pub length : ℕ
  pub descriptor_type : ℕ
  pub bcd_hid : ℕ
  pub country_code : ℕ
  pub num_descriptors : ℕ
  pub child_descriptor_type : ℕ
  pub child_descriptor_length : ℕ

-- `descriptors.fs.hid`
abbrev pub fs_hid : HidClassDescriptor
fs_hid = record {
  length = 9;
  descriptor_type = hid_dt_hid;
  bcd_hid = 0x0111;
  country_code = 0;
  num_descriptors = 1;
  child_descriptor_type = hid_dt_report;
  child_descriptor_length = hid_report_desc_size;
}

-- The packed structure in memory, 16-bit fields in little-endian order.
unfoldable pub hid_bytes : HidClassDescriptor → List ℕ
hid_bytes d =
    d.length
    ∷ d.descriptor_type
    ∷ d.bcd_hid % 256
    ∷ d.bcd_hid / 256
    ∷ d.country_code
    ∷ d.num_descriptors
    ∷ d.child_descriptor_type
    ∷ d.child_descriptor_length % 256
    ∷ d.child_descriptor_length / 256
    ∷ []
