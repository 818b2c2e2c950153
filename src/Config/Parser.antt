-- ===== src/Config/Parser.antt =====
-- The reader of the configuration file (recipes-apps/kbm-mapper-ff/files/config.c). What it prints on
-- stderr is a list of warnings with the number of the line. `atof` is the C library's.
use meta_dualsense.Prelude.{
  ℕ, suc, ◌%◌, Bool, ◌||◌, List, [], ◌∷◌, ◌++◌, Option, none, some, ◌==◌, ltb, leb, if◌then◌else◌,
  set, map,
}
use meta_dualsense.Prelude.Text.{
  Bytes, codes, same_text, behind_prefix, is_space, is_nil, skip, skip_end, cut, cut_last, c_string,
  fgets_all, push_line,
}
use meta_dualsense.Config.{Config, store, config_init_defaults}
use meta_dualsense.Config.Names.{
  config_action_from_name, config_key_from_name, config_btn_from_name,
}
use meta_dualsense.Report.{ds_act_none, ds_act_max}
use meta_dualsense.Mapper.Float.{Float}

-- A message, with the texts that it quotes.
pub data Complaint : Type 0 where
  missing_eq : Complaint
  bad_mapping : Bytes → Bytes → Complaint
  unknown_hotkey_key : Bytes → Complaint
  bad_burst_key : Bytes → Complaint
  unknown_action : Bytes → Complaint
  unknown_burst_field : Bytes → Complaint
  unknown_key : Bytes → Complaint

unfoldable pub trim : Bytes → Bytes
trim s = skip_end is_space (skip is_space s)

-- `+` or `,`
abbrev pub is_sep : ℕ → Bool
is_sep c = c == 43 || c == 44

-- The texts between the separators that the chord's loop visits: none behind one at the end.
unfoldable pub tokens : Bytes → List Bytes
tokens [] = []
tokens (c ∷ s) = let rest = tokens s in if is_sep c then [] ∷ rest else push_line c rest

-- The codes of the chord, their number, and the messages of the loop that reads them.
pub record Reading : Type 0 where
  pub hotkey_codes : List ℕ
  pub hotkey_n : ℕ
  pub complaints : List Complaint

abbrev pub hotkey_size : ℕ
hotkey_size = 8

unfoldable pub take_code : Reading → Bytes → Option ℕ → Reading
take_code r name none = record r { complaints = r.complaints ++ (unknown_hotkey_key name ∷ []) }
take_code r name (some code) = record r {
  hotkey_codes = set r.hotkey_codes r.hotkey_n code;
  hotkey_n = suc r.hotkey_n;
}

-- One round of the loop.
unfoldable pub take_name : Reading → Bytes → Reading
take_name r name = if is_nil name then r else take_code r name (config_key_from_name name)

unfoldable pub read_hotkey : Reading → List Bytes → Reading
read_hotkey r [] = r
read_hotkey r (name ∷ names) =
    let rest = read_hotkey (take_name r (trim name)) names in
    if ltb r.hotkey_n hotkey_size then rest else r

module _ (fp : Float) where
  open fp use {Double, lit, neg, lt}

  -- The two `if` statements behind an `atof`.
  unfoldable pub clamp : Double → Double → Double → Double
  clamp low high j = let k = if lt j low then low else j in if lt high k then high else k

  abbrev pub unit : Double → Double
  unit = clamp (lit 0 0) (lit 1 0)

  abbrev pub signed_unit : Double → Double
  signed_unit = clamp (neg (lit 1 0)) (lit 1 0)

  abbrev pub scale : Double → Double
  scale = clamp (lit 1 2) (lit 40 1)

-- A configuration and the messages about one line.
abbrev pub Outcome : Type 0 → Type 0
Outcome Double = Config Double × List Complaint

abbrev pub at_line : ℕ → List Complaint → List (ℕ × Complaint)
at_line lineno complaints = map (λ complaint. (lineno, complaint)) complaints

module _ {Double : Type 0} where
  abbrev pub done : Config Double → Outcome Double
  done c = (c, [])

  abbrev pub refused : Config Double → Complaint → Outcome Double
  refused c complaint = (c, complaint ∷ [])

  unfoldable pub set_key : Config Double → Bytes → Bytes → Option ℕ → ℕ → Outcome Double
  set_key c k v none act = refused c (bad_mapping k v)
  set_key c k v (some code) act =
      if act == 0
      then refused c (bad_mapping k v)
      else done (record c { key_action = store c.key_action code (act % 256) })

  unfoldable pub set_btn : Config Double → Bytes → Bytes → Option ℕ → ℕ → Outcome Double
  set_btn c k v none act = refused c (bad_mapping k v)
  set_btn c k v (some code) act =
      if act == 0
      then refused c (bad_mapping k v)
      else done (record c { btn_action = store c.btn_action (code % 256) (act % 256) })

  unfoldable pub set_hotkey : Config Double → Bytes → Outcome Double
  set_hotkey c v =
      let r =
        read_hotkey (record { hotkey_codes = c.hotkey_codes; hotkey_n = 0; complaints = [] })
          (tokens v) in
      (record c { hotkey_codes = r.hotkey_codes; hotkey_n = r.hotkey_n }, r.complaints)

  unfoldable pub set_recoil_action : Config Double → Bytes → ℕ → Outcome Double
  set_recoil_action c v act =
      if act == ds_act_none
      then refused c (unknown_action v)
      else done (record c { recoil_action = act })

  unfoldable pub set_ads_action : Config Double → Bytes → ℕ → Outcome Double
  set_ads_action c v act =
      if act == ds_act_none
      then refused c (unknown_action v)
      else done (record c { ads_action = act })

module _ (fp : Float) (atof : Bytes → fp.Double) where
  open fp use {Double}

  -- `field` is what the key has behind its last dot.
  unfoldable pub set_burst_field : Config Double → Bytes → Bytes → ℕ → Bytes → Outcome Double
  set_burst_field c k field act v =
      if act == 0 || leb ds_act_max act
      then refused c (unknown_action k)
      else if same_text field (codes "hz")
      then done (record c { burst_hz = store c.burst_hz act (atof v) })
      else if same_text field (codes "duty")
      then done (record c { burst_duty = store c.burst_duty act (atof v) })
      else if same_text field (codes "jitter")
      then done (record c { burst_jitter = store c.burst_jitter act (unit fp (atof v)) })
      else if same_text field (codes "duty_jitter")
      then done (record c { burst_duty_jitter = store c.burst_duty_jitter act (unit fp (atof v)) })
      else if same_text field (codes "skip_prob")
      then done (record c { burst_skip_prob = store c.burst_skip_prob act (unit fp (atof v)) })
      else refused c (unknown_burst_field field)

  -- The message about an action quotes the key up to the dot, which is 0 by then.
  unfoldable pub set_burst : Config Double → Bytes → Option (Bytes × Bytes) → Bytes → Outcome Double
  set_burst c k none v = refused c (bad_burst_key k)
  set_burst c k (some (name, field)) v =
      set_burst_field c (codes "burst." ++ name) field (config_action_from_name name) v

  -- The rest of the chain of comparisons, behind the three prefixes.
  unfoldable pub apply_rest : Config Double → Bytes → Bytes → Outcome Double
  apply_rest c k v =
      if same_text k (codes "recoil.action")
      then set_recoil_action c v (config_action_from_name v)
      else if same_text k (codes "recoil.x")
      then done (record c { recoil_x = signed_unit fp (atof v) })
      else if same_text k (codes "recoil.y")
      then done (record c { recoil_y = signed_unit fp (atof v) })
      else if same_text k (codes "ads.action")
      then set_ads_action c v (config_action_from_name v)
      else if same_text k (codes "ads.sens_scale")
      then done (record c { ads_sens_scale = scale fp (atof v) })
      else if same_text k (codes "fire.sens_scale")
      then done (record c { fire_sens_scale = scale fp (atof v) })
      else refused c (unknown_key k)

  unfoldable pub apply_burst : Config Double → Bytes → Bytes → Option Bytes → Outcome Double
  apply_burst c k v none = apply_rest c k v
  apply_burst c k v (some name) = set_burst c k (cut_last 46 name) v

  unfoldable pub apply_mouse : Config Double → Bytes → Bytes → Option Bytes → Outcome Double
  apply_mouse c k v (some name) =
      set_btn c k v (config_btn_from_name name) (config_action_from_name v)
  apply_mouse c k v none =
      if same_text k (codes "hotkey.mode_toggle")
      then set_hotkey c v
      else apply_burst c k v (behind_prefix (codes "burst.") k)

  unfoldable pub apply_key : Config Double → Bytes → Bytes → Option Bytes → Outcome Double
  apply_key c k v (some name) =
      set_key c k v (config_key_from_name name) (config_action_from_name v)
  apply_key c k v none = apply_mouse c k v (behind_prefix (codes "mouse.") k)

  -- The chain of comparisons of `config_load`.
  unfoldable pub apply : Config Double → Bytes → Bytes → Outcome Double
  apply c k v =
      if same_text k (codes "window_ms")
      then done (record c { window_ms = atof v })
      else if same_text k (codes "curve_exp")
      then done (record c { curve_exp = atof v })
      else if same_text k (codes "anti_deadzone")
      then done (record c { anti_deadzone = atof v })
      else if same_text k (codes "outer_sat")
      then done (record c { outer_sat = atof v })
      else if same_text k (codes "sens_counts_ms")
      then done (record c { sens_counts_ms = atof v })
      else if same_text k (codes "debt_drain")
      then done (record c { debt_drain = atof v })
      else apply_key c k v (behind_prefix (codes "key.") k)

  unfoldable pub apply_cut : Config Double → Option (Bytes × Bytes) → Outcome Double
  apply_cut c none = refused c missing_eq
  apply_cut c (some (k, v)) = apply c (trim k) (trim v)

  unfoldable pub apply_trimmed : Config Double → Bytes → Outcome Double
  apply_trimmed c [] = done c
  apply_trimmed c (first ∷ s) = if first == 35 then done c else apply_cut c (cut 61 (first ∷ s))

  -- One round of the loop, for what `fgets` has read.
  unfoldable pub load_line : Config Double → Bytes → Outcome Double
  load_line c line = apply_trimmed c (trim (c_string line))

  -- The loop, and the messages with their line.
  unfoldable pub load_lines : ℕ → Config Double → List Bytes → Config Double × List (ℕ × Complaint)
  load_lines lineno c [] = (c, [])
  load_lines lineno c (line ∷ lines) =
      let (next, complaints) = load_line c line in
      let (last, later) = load_lines (suc lineno) next lines in
      (last, at_line lineno complaints ++ later)

  -- `none` is a file that cannot be opened.
  unfoldable pub config_load : Option Bytes → Config Double × List (ℕ × Complaint)
  config_load none = (config_init_defaults fp, [])
  config_load (some file) = load_lines 1 (config_init_defaults fp) (fgets_all 512 file)
