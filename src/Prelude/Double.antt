-- ===== src/Prelude/Double.antt =====
-- Python's `float`, as an interface: the values other than NaN, with the operations that the program
-- uses. A result that would be NaN is outside the model.
use Prim.Native.Nat.{ℕ, zero, suc}
use mathlib.Core.Path.{◌≡◌}
use mathlib.Core.Bool.{Bool, true, false, not, ◌&&◌}
use shrap_firm.Prelude.Tests.{if◌then◌else◌}

pub record Double (F : Type 0) : Type 0 where
  pub nought : F
  pub one : F
  pub add : F → F → F
  pub sub : F → F → F
  pub mul : F → F → F
  pub div : F → F → F
  pub neg : F → F
  pub le : F → F → Bool

module _ {F : Type 0} ⦃d : Double F⦄ where
  infix 50 ◌<=◌ ◌<<◌
  abbrev pub ◌<=◌ : F → F → Bool
  ◌<=◌ = d.le

  -- `a < b`, with NaN left out
  abbrev pub ◌<<◌ : F → F → Bool
  a << b = not (d.le b a)

  -- `a == b` on floats
  abbrev pub same : F → F → Bool
  same a b = d.le a b && d.le b a

  -- Python's `min(a, b)` and `max(a, b)` keep `a` on a tie.
  abbrev pub min_float : F → F → F
  min_float a b = if b << a then b else a

  abbrev pub max_float : F → F → F
  max_float a b = if a << b then b else a

  abbrev pub abs_float : F → F
  abs_float a = if a << d.nought then d.neg a else a

  -- A count as a float.
  unfoldable pub of_count : ℕ → F
  of_count zero = d.nought
  of_count (suc n) = d.add (of_count n) d.one

-- The comparison orders the values: what IEEE 754 states of it away from NaN.
pub record IsOrdered (F : Type 0) ⦃d : Double F⦄ : Type 0 where
  pub le_refl : (a : F) → d.le a a ≡ true
  pub le_trans : (a b c : F) → d.le a b ≡ true → d.le b c ≡ true → d.le a c ≡ true
  pub le_total : (a b : F) → d.le a b ≡ false → d.le b a ≡ true
