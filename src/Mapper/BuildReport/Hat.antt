-- ===== src/Mapper/BuildReport/Hat.antt =====
-- The value of the dpad's hat for the directions held.
use meta_dualsense.Prelude.{
  ℕ, ◌+◌, ◌*◌, ◌<◌, ◌≡◌, refl, Bool, true, false, ◌&&◌, ◌||◌, [], ◌∷◌, if◌then◌else◌, get_or, arith,
}
use meta_dualsense.Report.{ds_act_dpad_up, ds_act_dpad_down, ds_act_dpad_left, ds_act_dpad_right}
use meta_dualsense.Mapper.{Mapper, is_pressed}
use meta_dualsense.Mapper.Stick.{dpad_from_state}

-- The first direction of each pair wins, but left wins over right if neither up nor down is held.
unfoldable pub hat : Bool → Bool → Bool → Bool → ℕ
hat u d l r =
    let vertical : ℕ = if u then 0 else if d then 1 else 2 in
    let horizontal : ℕ =
      if u || d
      then (if r then 0 else if l then 1 else 2)
      else (if l then 1 else if r then 0 else 2) in
    get_or (1 ∷ 7 ∷ 0 ∷ 3 ∷ 5 ∷ 4 ∷ 2 ∷ 6 ∷ 8 ∷ []) (vertical * 3 + horizontal) 8

pub dpad_hat :
    {Double : Type 0} (m : Mapper Double)
    → dpad_from_state m
      ≡ hat
          (is_pressed m ds_act_dpad_up)
          (is_pressed m ds_act_dpad_down)
          (is_pressed m ds_act_dpad_left)
          (is_pressed m ds_act_dpad_right)
unfolding dpad_from_state hat
dpad_hat m =
    by_cases (is_pressed m ds_act_dpad_up) (is_pressed m ds_act_dpad_down)
      (is_pressed m ds_act_dpad_left) (is_pressed m ds_act_dpad_right)
  where
    by_cases :
        (u d l r : Bool)
        → (if u && r
            then 1
            else if u && l
            then 7
            else if d && r
            then 3
            else if d && l
            then 5
            else if u
            then 0
            else if d
            then 4
            else if l
            then 6
            else if r
            then 2
            else 8)
          ≡ hat u d l r
    by_cases true true true true = refl
    by_cases true true true false = refl
    by_cases true true false true = refl
    by_cases true true false false = refl
    by_cases true false true true = refl
    by_cases true false true false = refl
    by_cases true false false true = refl
    by_cases true false false false = refl
    by_cases false true true true = refl
    by_cases false true true false = refl
    by_cases false true false true = refl
    by_cases false true false false = refl
    by_cases false false true true = refl
    by_cases false false true false = refl
    by_cases false false false true = refl
    by_cases false false false false = refl

pub small_hat : {Double : Type 0} (m : Mapper Double) → dpad_from_state m < 16
unfolding dpad_from_state
small_hat m = ground arith
