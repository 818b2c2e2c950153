-- ===== src/Ffsd/Daemon/Reload.antt =====
-- A reload of the configuration while a key is held.
use meta_dualsense.Prelude.{
  ℕ, ◌≡◌, ◌≢◌, refl, sym, ◌∙◌, ap, Bool, false, Option, List, [], ◌∷◌, ◌==◌, arith,
}
use meta_dualsense.Prelude.Text.{Bytes, codes, same_text, behind_prefix}
use meta_dualsense.Input.{InputEvent}
use meta_dualsense.Config.{Config}
use meta_dualsense.Config.Parser.{config_load}
use meta_dualsense.Mapper.{is_pressed, action_of}
use meta_dualsense.Mapper.Core.{core, is_pressed-core}
use meta_dualsense.Mapper.Float.{Float}
use meta_dualsense.Mapper.Keys.{concerns, last_said, is_pressed-run}
use meta_dualsense.Ffsd.Daemon.{
  Daemon, Notice, Ready, notify, on_notice, on_notices, reload, step, run,
}
use meta_dualsense.Ffsd.Daemon.Inputs.{reloads, heard, Hears-run}

last_said-unbound :
    {Double : Type 0} (cfg : Config Double) (a : ℕ) (down : Bool) (es : List InputEvent)
    → ((code : ℕ) → action_of cfg code ≢ a)
    → last_said cfg a down es ≡ down
unfolding last_said
last_said-unbound cfg a down [] unbound = refl
last_said-unbound cfg a down (e ∷ es) unbound =
    let other : (action_of cfg e.code == a) ≡ false = ground (arith, unbound e.code) in
    let quiet : concerns cfg a e ≡ false = ground (arith, other) in
    rw quiet (last_said-unbound cfg a down es unbound)

module _ (fp : Float) (atof : Bytes → fp.Double) where
  open fp use {Double}

  abbrev pub rewritten : (Bytes → Option ℕ) → Option Bytes → Notice
  rewritten c_open file = record { name = codes "kbm-mapper.conf"; c_open = c_open; file = file }

  reloaded :
      (d : Daemon Double) (c_open : Bytes → Option ℕ) (file : Option Bytes) (has_snap : Bool)
      → (step fp atof has_snap d (notify (rewritten c_open file ∷ []))).0
        ≡ reload fp atof d (rewritten c_open file)
  unfolding step on_notices on_notice behind_prefix same_text
  reloaded d c_open file has_snap = refl

  -- When the file is rewritten so that no key or button is bound to an action any more, the action
  -- stays as it is until the next reload, whatever is pressed or released: one whose key is held at
  -- the reload stays pressed.
  pub reload_leaves_pressed :
      (d : Daemon Double) (c_open : Bytes → Option ℕ) (file : Option Bytes) (has_snap : Bool)
      (rs : List Ready) (a : ℕ)
      → reloads rs ≡ false
      → ((code : ℕ) → action_of (config_load fp atof file).0 code ≢ a)
      → is_pressed (run fp atof has_snap d (notify (rewritten c_open file ∷ []) ∷ rs)).0.mapper a
        ≡ is_pressed d.mapper a
  unfolding run reload
  reload_leaves_pressed d c_open file has_snap rs a still unbound =
      let z = d.mapper.debt_x in
      let c = (config_load fp atof file).0 in
      let d1 = reload fp atof d (rewritten c_open file) in
      let d2 = (run fp atof has_snap d1 rs).0 in
      let h =
        Hears-run fp atof z d1 c (core z d.mapper) has_snap rs still
          (record { config = refl; same = refl }) in
      ap (λ k. is_pressed (run fp atof has_snap k rs).0.mapper a) (reloaded d c_open file has_snap)
      ∙ sym (is_pressed-core z d2.mapper a)
      ∙ ap (λ m. is_pressed m a) h.same
      ∙ is_pressed-run c (core z d.mapper) (heard rs) a
      ∙ last_said-unbound c a _ (heard rs) unbound
      ∙ is_pressed-core z d.mapper a
