-- ===== src/Ffsd/Features/Advertised.antt =====
-- What the report descriptor tells the host of the feature reports, read by the rules for short
-- items of the HID specification (Device Class Definition for HID 1.11, 6.2.2), and the table.
use meta_dualsense.Prelude.{
  ℕ, zero, suc, ◌+◌, ◌*◌, ◌/◌, ◌%◌, ◌<◌, ◌≡◌, refl, Bool, true, false, ◌&&◌, Option, none, some,
  List, [], ◌∷◌, ◌==◌, if◌then◌else◌, length, get_elem?, take, drop, arith, Bool-cases, inl, inr,
  ◌∙◌, ap,
}
use meta_dualsense.Prelude.Check.{holds_upto, holds_upto_lem}
use meta_dualsense.Ffsd.Descriptor.{dualsense_report_descriptor}
use meta_dualsense.Ffsd.Features.{FeatureReport, feature_reports, find_report, find_feature_report}

-- The data of an item, the low byte first.
little : List ℕ → ℕ
little [] = 0
little (b ∷ bs) = b + 256 * little bs

-- The global items in force: report id, report count, report size in bits.
record Globals : Type 0 where
  id : ℕ
  count : ℕ
  bits : ℕ

-- The feature items of a descriptor, each with its report id and the bytes of the report with its
-- id; an item is a prefix, whose two low bits code 0, 1, 2 or 4 bytes of data. The first argument
-- bounds the items, of which there are at most as many as bytes.
items : ℕ → Globals → List ℕ → List (ℕ × ℕ)
unfolding little
items zero g bytes = []
items (suc fuel) g [] = []
items (suc fuel) g (b ∷ bytes) =
    let size = if b % 4 == 3 then 4 else b % 4 in
    let value = little (take size bytes) in
    let tag = b / 4 in
    let g' =
      if tag == 0x21
      then record g { id = value }
      else if tag == 0x25
      then record g { count = value }
      else if tag == 0x1D
      then record g { bits = value }
      else g in
    let rest = items fuel g' (drop size bytes) in
    if tag == 0x2C then (g.id, g.count * g.bits / 8 + 1) ∷ rest else rest

assoc : List (ℕ × ℕ) → ℕ → Option ℕ
assoc [] id = none
assoc ((j, v) ∷ rows) id = if j == id then some v else assoc rows id

-- The length of a feature report that the descriptor announces.
unfoldable pub advertised : ℕ → Option ℕ
unfolding items assoc
advertised id =
    assoc
      (items (length dualsense_report_descriptor) (record { id = 0; count = 0; bits = 0 })
        dualsense_report_descriptor)
      id

abbrev pub size_of : Option FeatureReport → Option ℕ
size_of none = none
size_of (some r) = some r.size

same : Option ℕ → Option ℕ → Bool
same none none = true
same none (some b) = false
same (some a) none = false
same (some a) (some b) = a == b

same_lem : (a b : Option ℕ) → same a b ≡ true → a ≡ b
unfolding same
same_lem none none h = refl
same_lem none (some b) h = cc
same_lem (some a) none h = cc
same_lem (some a) (some b) h = ground arith

sizes_table :
    holds_upto
      (λ id.
        same (advertised id) (if id == 0xf2 then some 16 else size_of (find_feature_report id)))
      256
    ≡ true
unfolding holds_upto same advertised find_feature_report find_report feature_reports
    dualsense_report_descriptor
sizes_table = refl

-- For every report id but 0xf2, the descriptor announces a feature report exactly if the table has
-- one, with the same length; for 0xf2 it announces 16 bytes.
pub advertised_lem :
    (id : ℕ)
    → id < 256
    → advertised id ≡ (if id == 0xf2 then some 16 else size_of (find_feature_report id))
advertised_lem id h = same_lem _ _ (holds_upto_lem _ 256 sizes_table id h)

-- The rows hold as many bytes as they say, the id first, and no byte is too large.
starts_with : ℕ → List ℕ → Bool
starts_with b [] = false
starts_with b (c ∷ bytes) = c == b

are_rows : List FeatureReport → Bool
unfolding starts_with
are_rows [] = true
are_rows (r ∷ reports) = (starts_with r.id r.bytes && length r.bytes == r.size) && are_rows reports

table_are_rows : are_rows feature_reports ≡ true
unfolding are_rows feature_reports
table_are_rows = refl

abbrev pub IsRow : ℕ → FeatureReport → Type 0
IsRow id r = (r.id ≡ id) × (length r.bytes ≡ r.size) × (get_elem? r.bytes 0 ≡ some id)

starts_with_lem : (b : ℕ) (bytes : List ℕ) → starts_with b bytes ≡ true → get_elem? bytes 0 ≡ some b
unfolding starts_with
starts_with_lem b [] h = cc
starts_with_lem b (c ∷ bytes) h = ground arith

row :
    (q : FeatureReport) (id : ℕ)
    → q.id ≡ id
    → (starts_with q.id q.bytes && length q.bytes == q.size) ≡ true
    → IsRow id q
row q id e h = (e, ground arith, starts_with_lem q.id q.bytes (ground arith) ∙ ap some e)

find_report-IsRow :
    (reports : List FeatureReport) (id : ℕ) {r : FeatureReport}
    → are_rows reports ≡ true
    → find_report reports id ≡ some r
    → IsRow id r
unfolding are_rows find_report
find_report-IsRow [] id h e = cc
find_report-IsRow (q ∷ reports) id {r} h e = elim (Bool-cases (q.id == id)) [
  | inl found ↦
      let same_row : q ≡ r = ground arith in
      rw (← same_row) (row q id (ground arith) (ground arith))
  | inr other ↦ find_report-IsRow reports id (ground arith) (ground arith)
]

-- A report that is found has the id asked for, as its first byte too, and as many bytes as its row
-- says.
pub find_feature_report-IsRow :
    (id : ℕ) {r : FeatureReport} → find_feature_report id ≡ some r → IsRow id r
unfolding find_feature_report
find_feature_report-IsRow id h = find_report-IsRow feature_reports id table_are_rows h
