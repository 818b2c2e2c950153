-- ===== src/Config/Validity.antt =====
-- What every configuration that is read satisfies, and what a refused line changes.
pub mod Load
use meta_dualsense.Prelude.{
  ℕ, suc, ◌≤◌, ◌<◌, ◌≡◌, refl, Bool, true, false, List, [], ◌∷◌, Option, none, some, arith,
  Bool-cases, inl, inr, ◌⊎◌, ltb, ◌==◌, if◌then◌else◌, length, length-set, ◌%◌, ap, leb, all,
}
use meta_dualsense.Prelude.Text.{
  Bytes, same_text, codes, behind_prefix, is_nil, cut_last, cut, fgets_all, c_string,
}
use meta_dualsense.Report.{ds_act_max, ds_act_none}
use meta_dualsense.Mapper.Float.{Float}
use meta_dualsense.Config.{Config, store, config_init_defaults}
use meta_dualsense.Config.Names.{
  action_names, lookup_ci, or_none, config_action_from_name, config_key_from_name,
  config_btn_from_name,
}
use meta_dualsense.Config.Lookup.{lookup_ci-all}
use meta_dualsense.Config.Parser.{
  Complaint, Reading, hotkey_size, take_code, take_name, read_hotkey, trim, tokens, Outcome,
  set_key, set_btn, set_hotkey, set_recoil_action, set_ads_action, set_burst_field, set_burst,
  apply_rest, apply_burst, apply_mouse, apply_key, apply, apply_cut, apply_trimmed, load_line,
  load_lines, config_load,
}

pub record Bounded (hotkey_codes : List ℕ) (hotkey_n : ℕ) (key_action btn_action : ℕ → ℕ)
    (recoil_action ads_action : ℕ) : Type 0 where
  pub eight : length hotkey_codes ≡ 8
  pub count : hotkey_n ≤ 8
  pub keys : (i : ℕ) → key_action i < ds_act_max
  pub btns : (i : ℕ) → btn_action i < ds_act_max
  pub recoil : recoil_action < ds_act_max
  pub ads : ads_action < ds_act_max

-- The chord has at most eight codes, and every key, button and feature has one of the actions.
abbrev pub IsValid : {Double : Type 0} → Config Double → Type 0
IsValid c = Bounded c.hotkey_codes c.hotkey_n c.key_action c.btn_action c.recoil_action c.ads_action

or_none_lt :
    (found : Option ℕ) (bound : ℕ)
    → 0 < bound
    → ((v : ℕ) → found ≡ some v → v < bound)
    → or_none found < bound
or_none_lt none bound positive below = positive
or_none_lt (some v) bound positive below = below v refl

pub config_action_from_name_lt : (n : Bytes) → config_action_from_name n < ds_act_max
unfolding config_action_from_name
config_action_from_name_lt n =
    or_none_lt (lookup_ci action_names n) ds_act_max (omega arith) λ v found.
      let (name, same, row) =
        lookup_ci-all (λ row. ltb row.1 ds_act_max) action_names n refl found in
      ground (arith, row)

store_lt :
    (a : ℕ → ℕ) (i v bound : ℕ)
    → ((j : ℕ) → a j < bound)
    → v < bound
    → (j : ℕ) → store a i v j < bound
unfolding store
store_lt a i v bound old new j = ground (arith, old j)

-- Of the chord's loop: the codes stay eight, their number at most eight.
AtMostEight : Reading → Type 0
AtMostEight r = (length r.hotkey_codes ≡ 8) × (r.hotkey_n ≤ 8)

take_code_le :
    (r : Reading) (name : Bytes) (code : Option ℕ)
    → AtMostEight r
    → r.hotkey_n < 8
    → AtMostEight (take_code r name code)
unfolding AtMostEight take_code
take_code_le r name none (eight, le) small = (eight, le)
take_code_le r name (some code) (eight, le) small =
    (ground (arith, eight, length-set r.hotkey_codes r.hotkey_n code), omega arith)

take_name_le :
    (r : Reading) (name : Bytes) → AtMostEight r → r.hotkey_n < 8 → AtMostEight (take_name r name)
unfolding take_name
take_name_le r name h small = elim (Bool-cases (is_nil name)) [
  | inl empty ↦ rw empty h
  | inr named ↦ rw named (take_code_le r name (config_key_from_name name) h small)
]

read_hotkey_le :
    (r : Reading) (names : List Bytes) → AtMostEight r → AtMostEight (read_hotkey r names)
unfolding read_hotkey
read_hotkey_le r [] h = h
read_hotkey_le r (name ∷ names) h = elim (Bool-cases (ltb r.hotkey_n hotkey_size)) [
  | inl room ↦ rw room (
      read_hotkey_le (take_name r (trim name)) names
        (take_name_le r (trim name) h (ground (arith, room))))
  | inr full ↦ rw full h
]

module _ {Double : Type 0} where
  pub set_hotkey-IsValid : (c : Config Double) (v : Bytes) → IsValid c → IsValid (set_hotkey c v).0
  unfolding set_hotkey AtMostEight
  set_hotkey-IsValid c v h =
      let (eight, le) =
        read_hotkey_le (record { hotkey_codes = c.hotkey_codes; hotkey_n = 0; complaints = [] })
          (tokens v) (h.eight, omega arith) in
      record {
        eight = eight;
        count = le;
        keys = h.keys;
        btns = h.btns;
        recoil = h.recoil;
        ads = h.ads;
      }

  pub if-IsValid :
      (b : Bool) (x y : Outcome Double) → IsValid x.0 → IsValid y.0 → IsValid (if b then x else y).0
  if-IsValid true x y v w = v
  if-IsValid false x y v w = w

  pub set_key-IsValid :
      (c : Config Double) (k v : Bytes) (code : Option ℕ) (act : ℕ)
      → act < ds_act_max
      → IsValid c
      → IsValid (set_key c k v code act).0
  unfolding set_key
  set_key-IsValid c k v none act below h = h
  set_key-IsValid c k v (some code) act below h = if-IsValid (act == 0) _ _ h (record {
    eight = h.eight;
    count = h.count;
    keys = store_lt c.key_action code (act % 256) ds_act_max h.keys (omega arith);
    btns = h.btns;
    recoil = h.recoil;
    ads = h.ads;
  })

  pub set_btn-IsValid :
      (c : Config Double) (k v : Bytes) (code : Option ℕ) (act : ℕ)
      → act < ds_act_max
      → IsValid c
      → IsValid (set_btn c k v code act).0
  unfolding set_btn
  set_btn-IsValid c k v none act below h = h
  set_btn-IsValid c k v (some code) act below h = if-IsValid (act == 0) _ _ h (record {
    eight = h.eight;
    count = h.count;
    keys = h.keys;
    btns = store_lt c.btn_action (code % 256) (act % 256) ds_act_max h.btns (omega arith);
    recoil = h.recoil;
    ads = h.ads;
  })

  pub set_recoil_action-IsValid :
      (c : Config Double) (v : Bytes) (act : ℕ)
      → act < ds_act_max
      → IsValid c
      → IsValid (set_recoil_action c v act).0
  unfolding set_recoil_action
  set_recoil_action-IsValid c v act below h = if-IsValid (act == ds_act_none) _ _ h (record {
    eight = h.eight;
    count = h.count;
    keys = h.keys;
    btns = h.btns;
    recoil = below;
    ads = h.ads;
  })

  pub set_ads_action-IsValid :
      (c : Config Double) (v : Bytes) (act : ℕ)
      → act < ds_act_max
      → IsValid c
      → IsValid (set_ads_action c v act).0
  unfolding set_ads_action
  set_ads_action-IsValid c v act below h = if-IsValid (act == ds_act_none) _ _ h (record {
    eight = h.eight;
    count = h.count;
    keys = h.keys;
    btns = h.btns;
    recoil = h.recoil;
    ads = below;
  })
