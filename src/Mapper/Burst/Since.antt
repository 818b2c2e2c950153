-- ===== src/Mapper/Burst/Since.antt =====
-- The press times that bursts are counted from.
use meta_dualsense.Prelude.{
  ℕ, zero, suc, ◌+◌, ◌<◌, ◌≤◌, ◌≡◌, refl, ◌∙◌, Bool, List, [], ◌∷◌, ◌==◌, if◌then◌else◌, get_or,
  length, arith,
}
use meta_dualsense.Mapper.{Mapper, is_pressed}
use meta_dualsense.Mapper.Burst.{tick_since, ticked, tick_all, burst_tick}

since_ticked :
    (pressed : ℕ → Bool) (now_ns a j : ℕ) (xs : List ℕ)
    → j < length xs
    → get_or (ticked pressed now_ns a xs) j 0 ≡ tick_since (pressed (a + j)) now_ns (get_or xs j 0)
unfolding ticked
since_ticked pressed now_ns a j [] h = absurd (omega arith)
since_ticked pressed now_ns a zero (x ∷ xs) h = let same : a + 0 ≡ a = omega arith in rw same refl
since_ticked pressed now_ns a (suc j) (x ∷ xs) h =
    let same : a + suc j ≡ suc a + j = omega arith in
    rw same (since_ticked pressed now_ns (suc a) j xs (omega arith))

since_tick_all :
    (pressed : ℕ → Bool) (now_ns a : ℕ) (xs : List ℕ)
    → 1 ≤ a
    → a < length xs
    → get_or (tick_all pressed now_ns xs) a 0 ≡ tick_since (pressed a) now_ns (get_or xs a 0)
unfolding tick_all
since_tick_all pressed now_ns zero xs l h = absurd (omega arith)
since_tick_all pressed now_ns (suc j) [] l h = absurd (omega arith)
since_tick_all pressed now_ns (suc j) (x ∷ xs) l h =
    let one : 1 + j ≡ suc j = omega arith in
    rw one at (since_ticked pressed now_ns 1 j xs (omega arith))

module _ {Double : Type 0} where
  -- After a tick, for each action of the table but the first: a released action has press time 0,
  -- a held one keeps the press time that it had, and one that had none takes the time of the tick;
  -- the tick changes no pressed action.
  pub burst_tick_since :
      (m : Mapper Double) (now_ns a : ℕ)
      → 1 ≤ a
      → a < length m.pressed_since_ns
      → let since = get_or m.pressed_since_ns a 0 in
        (get_or (burst_tick m now_ns).pressed_since_ns a 0 ≡ (
          if is_pressed (burst_tick m now_ns) a then (if since == 0 then now_ns else since) else 0))
        × (is_pressed (burst_tick m now_ns) a ≡ is_pressed m a)
  unfolding burst_tick is_pressed
  burst_tick_since m now_ns a l h = (
    since_tick_all (is_pressed m) now_ns a m.pressed_since_ns l h
        ∙ unfold tick_since in ground arith,
    refl,
  )
