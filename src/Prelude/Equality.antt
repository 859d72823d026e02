-- ===== src/Prelude/Equality.antt =====
-- Boolean equality, as an interface.
use Prim.Native.Nat.{ℕ}
use mathlib.Core.Path.{◌≡◌, refl}
use mathlib.Core.Logic.{◌↔◌}
use mathlib.Core.Bool.{Bool, true, false, ◌||◌, ◌&&◌}
use mathlib.Core.Option.{Option, none, some}
use mathlib.Core.List.{List, [], ◌∷◌}
use native.Mathlib.Omega.{arith}
use shrap_firm.Prelude.Tests.{nat_eq, nat_eq_iff}

-- Python's `==` on a type, with what it decides.
pub record Comparable {ℓ} (A : Type ℓ) : Type ℓ where
  pub equal : A → A → Bool
  pub equal_iff : (x y : A) → (equal x y ≡ true) ↔ (x ≡ y)

module _ {ℓ} {A : Type ℓ} ⦃e : Comparable A⦄ where
  infix 50 ◌==◌
  abbrev pub ◌==◌ : A → A → Bool
  x == y = e.equal x y

  pub equal_refl : (x : A) → (x == x) ≡ true
  equal_refl x = (e.equal_iff x x).1 refl

  -- `x in xs`
  abbrev pub contains : List A → A → Bool
  contains [] a = false
  contains (x ∷ xs) a = x == a || contains xs a

  unfoldable pub list_eq : List A → List A → Bool
  list_eq [] [] = true
  list_eq (x ∷ xs) (y ∷ ys) = x == y && list_eq xs ys
  list_eq _ _ = false

  unfoldable pub option_eq : Option A → Option A → Bool
  option_eq none none = true
  option_eq (some a) (some b) = a == b
  option_eq _ _ = false

  pub option_eq_iff : (o p : Option A) → (option_eq o p ≡ true) ↔ (o ≡ p)
  unfolding option_eq
  option_eq_iff none none = ground arith
  option_eq_iff none (some b) = ground arith
  option_eq_iff (some a) none = ground arith
  option_eq_iff (some a) (some b) = ground (arith, e.equal_iff a b)

  pub list_eq_iff : (xs ys : List A) → (list_eq xs ys ≡ true) ↔ (xs ≡ ys)
  unfolding list_eq
  list_eq_iff [] [] = ground arith
  list_eq_iff [] (y ∷ ys) = ground arith
  list_eq_iff (x ∷ xs) [] = ground arith
  list_eq_iff (x ∷ xs) (y ∷ ys) = ground (arith, e.equal_iff x y, list_eq_iff xs ys)

instance abbrev pub nat_Eq : Comparable ℕ
nat_Eq = record { equal = nat_eq; equal_iff = nat_eq_iff }

abbrev pub pair_equal {ℓ κ} :
    {A : Type ℓ} {B : Type κ} → ⦃a : Comparable A⦄ → ⦃b : Comparable B⦄ → A × B → A × B → Bool
pair_equal x y = x.0 == y.0 && x.1 == y.1

pub pair_equal_iff {ℓ κ} :
    {A : Type ℓ} {B : Type κ}
    → ⦃a : Comparable A⦄ → ⦃b : Comparable B⦄ → (x y : A × B) → (pair_equal x y ≡ true) ↔ (x ≡ y)
pair_equal_iff ⦃a⦄ ⦃b⦄ x y = ground (arith, a.equal_iff x.0 y.0, b.equal_iff x.1 y.1)

-- `==` on a pair.
instance abbrev pub pair_Eq {ℓ κ} :
    {A : Type ℓ} {B : Type κ} → ⦃a : Comparable A⦄ → ⦃b : Comparable B⦄ → Comparable (A × B)
pair_Eq = record { equal = pair_equal; equal_iff = pair_equal_iff }
