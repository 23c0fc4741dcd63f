-- ===== src/Common/Double.antt =====
-- The `double` values of the program, as a parameter: the antt library has no floats. `Double` holds
-- what the code does with them; a `float` is a `double` behind a rounding, `to_float`.
use Prim.Native.Nat.{ℕ}
use mathlib.Core.Bool.{Bool}
use alarm_sys_linux.Common.Int.{ℤ}

pub record Double (W : Type 0) : Type 0 where
  pub lt : W → W → Bool
  pub le : W → W → Bool
  pub add : W → W → W
  pub sub : W → W → W
  pub mul : W → W → W
  pub div : W → W → W
  pub neg : W → W
  pub abs : W → W
  pub sqrt : W → W
  pub sin : W → W
  pub cos : W → W
  pub asin : W → W
  pub atan2 : W → W → W
  pub round : W → W
  pub m_pi : W
  -- An `int` as a `double`, and `m / 10 ^ k` for a decimal literal.
  pub of_ℤ : ℤ → W
  pub decimal : ℕ → ℕ → W
  pub to_float : W → W
