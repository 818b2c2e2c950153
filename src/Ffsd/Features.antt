-- ===== src/Ffsd/Features.antt =====
-- The feature reports of recipes-apps/kbm-mapper-ff/files/feature_reports.c.
pub mod Advertised
use meta_dualsense.Prelude.{
  ℕ, zero, suc, Option, none, some, List, [], ◌∷◌, ◌==◌, if◌then◌else◌, length, replicate,
}

-- An array of `n` bytes whose initialiser may be shorter: the rest is 0.
unfoldable pub padded : ℕ → List ℕ → List ℕ
padded zero init = []
padded (suc n) [] = 0 ∷ padded n []
padded (suc n) (b ∷ init) = b ∷ padded n init

unfoldable pub fr_05_calibration : List ℕ
fr_05_calibration = padded 41 (0x05 ∷ [])

unfoldable pub fr_09_pairinfo : List ℕ
fr_09_pairinfo = padded 20 (
    0x09 ∷ 0xde ∷ 0xad ∷ 0xbe ∷ 0xef ∷ 0x00 ∷ 0x01 ∷ 0x08 ∷ 0x25 ∷ 0x00 ∷ 0x00 ∷ 0x00 ∷ 0x00 ∷ 0x00
    ∷ 0x00 ∷ 0x00 ∷ 0x00 ∷ 0x00 ∷ 0x00 ∷ 0x00 ∷ [])

unfoldable pub fr_20_hwfw : List ℕ
fr_20_hwfw = padded 64 (0x20 ∷ [])

unfoldable pub fr_21_status : List ℕ
fr_21_status = padded 5 (0x21 ∷ 0x00 ∷ 0x00 ∷ 0x00 ∷ 0x00 ∷ [])

unfoldable pub fr_22_other : List ℕ
fr_22_other = padded 64 (0x22 ∷ [])

unfoldable pub fr_08_options : List ℕ
fr_08_options = padded 48 (0x08 ∷ [])

unfoldable pub fr_0a_aux : List ℕ
fr_0a_aux = padded 27 (0x0a ∷ [])

unfoldable pub fr_a0_cap : List ℕ
fr_a0_cap = padded 2 (0xa0 ∷ 0x00 ∷ [])

unfoldable pub fr_80 : List ℕ
fr_80 = padded 64 (0x80 ∷ [])

unfoldable pub fr_81 : List ℕ
fr_81 = padded 64 (0x81 ∷ [])

unfoldable pub fr_82 : List ℕ
fr_82 = padded 10 (0x82 ∷ [])

unfoldable pub fr_83 : List ℕ
fr_83 = padded 64 (0x83 ∷ [])

unfoldable pub fr_84 : List ℕ
fr_84 = padded 64 (0x84 ∷ [])

unfoldable pub fr_85 : List ℕ
fr_85 = padded 3 (0x85 ∷ 0x00 ∷ 0x00 ∷ [])

unfoldable pub fr_e0 : List ℕ
fr_e0 = padded 64 (0xe0 ∷ [])

unfoldable pub fr_f0 : List ℕ
fr_f0 = padded 64 (0xf0 ∷ [])

unfoldable pub fr_f1 : List ℕ
fr_f1 = padded 64 (0xf1 ∷ [])

unfoldable pub fr_f2 : List ℕ
fr_f2 = padded 64 (0xf2 ∷ [])

unfoldable pub fr_f4 : List ℕ
fr_f4 = padded 64 (0xf4 ∷ [])

unfoldable pub fr_f5 : List ℕ
fr_f5 = padded 4 (0xf5 ∷ 0x00 ∷ 0x00 ∷ 0x00 ∷ [])

pub record FeatureReport : Type 0 where
  pub id : ℕ
  pub size : ℕ
  pub bytes : List ℕ

-- A row `{ id, sizeof(bytes), bytes }`
abbrev report : ℕ → List ℕ → FeatureReport
report id bytes = record { id = id; size = length bytes; bytes = bytes }

unfoldable pub feature_reports : List FeatureReport
unfolding padded fr_05_calibration fr_09_pairinfo fr_20_hwfw fr_21_status fr_22_other fr_08_options
    fr_0a_aux fr_a0_cap fr_80 fr_81 fr_82 fr_83 fr_84 fr_85 fr_e0 fr_f0 fr_f1 fr_f2 fr_f4 fr_f5
feature_reports =
    report 0x05 fr_05_calibration
    ∷ report 0x08 fr_08_options
    ∷ report 0x09 fr_09_pairinfo
    ∷ report 0x0a fr_0a_aux
    ∷ report 0x20 fr_20_hwfw
    ∷ report 0x21 fr_21_status
    ∷ report 0x22 fr_22_other
    ∷ report 0x80 fr_80
    ∷ report 0x81 fr_81
    ∷ report 0x82 fr_82
    ∷ report 0x83 fr_83
    ∷ report 0x84 fr_84
    ∷ report 0x85 fr_85
    ∷ report 0xa0 fr_a0_cap
    ∷ report 0xe0 fr_e0
    ∷ report 0xf0 fr_f0
    ∷ report 0xf1 fr_f1
    ∷ report 0xf2 fr_f2
    ∷ report 0xf4 fr_f4
    ∷ report 0xf5 fr_f5
    ∷ []

-- The loop of `find_feature_report`
unfoldable pub find_report : List FeatureReport → ℕ → Option FeatureReport
find_report [] id = none
find_report (r ∷ reports) id = if r.id == id then some r else find_report reports id

unfoldable pub find_feature_report : ℕ → Option FeatureReport
find_feature_report id = find_report feature_reports id
