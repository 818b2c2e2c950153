-- ===== src/Prelude/Check.antt =====
-- Tests of every number below a bound by evaluation.
use Prim.Native.Nat.{ℕ, zero, suc, ◌<◌}
use mathlib.Core.Path.{◌≡◌}
use mathlib.Core.Bool.{Bool, true, false}
use native.Mathlib.Omega.{arith}
use meta_dualsense.Prelude.Tests.{if◌then◌else◌}

unfoldable pub holds_upto : (ℕ → Bool) → ℕ → Bool
holds_upto p zero = true
holds_upto p (suc bound) = if p bound then holds_upto p bound else false

pub holds_upto_lem :
    (p : ℕ → Bool) (bound : ℕ) → holds_upto p bound ≡ true → (i : ℕ) → i < bound → p i ≡ true
unfolding holds_upto
holds_upto_lem p zero tested i below = absurd (omega arith)
holds_upto_lem p (suc bound) tested i below =
    let smaller = holds_upto_lem p bound (ground arith) i in ground (arith, smaller)
