-- ===== src/Prelude/Sorting.antt =====
-- Python's `sorted` and `set` on lists, and the order of strings and tuples.
use mathlib.Core.Path.{◌≡◌, refl}
use mathlib.Core.Bool.{Bool, true, false, ◌||◌}
use mathlib.Core.List.{List, [], ◌∷◌, map}
use native.Mathlib.Omega.{arith}
use mathlib.Core.Logic.{inl, inr}
use shrap_firm.Prelude.Tests.{ltb, if◌then◌else◌, Bool-cases}
use shrap_firm.Prelude.Lists.{some_of, All}
use shrap_firm.Prelude.Equality.{Comparable, ◌==◌, contains, nat_Eq}
use shrap_firm.Prelude.Text.{Text, text_Eq}

module _ {ℓ} {A : Type ℓ} where
  -- `insert before x xs` puts `x` in front of the first element that does not come before it.
  unfoldable pub insert : (A → A → Bool) → A → List A → List A
  insert before x [] = x ∷ []
  insert before x (y ∷ ys) =
      let rest = insert before x ys in if before y x then y ∷ rest else x ∷ y ∷ ys

  -- `sorted`, which keeps the order of equals
  unfoldable pub sort : (A → A → Bool) → List A → List A
  unfolding insert
  sort before [] = []
  sort before (x ∷ xs) = insert before x (sort before xs)

  some_of-insert :
      (p : A → Bool) (before : A → A → Bool) (x : A) (xs : List A)
      → some_of p (insert before x xs) ≡ (p x || some_of p xs)
  unfolding insert
  some_of-insert p before x [] = refl
  some_of-insert p before x (y ∷ ys) = ground (arith, some_of-insert p before x ys)

  pub some_of-sort :
      (p : A → Bool) (before : A → A → Bool) (xs : List A)
      → some_of p (sort before xs) ≡ some_of p xs
  unfolding sort
  some_of-sort p before [] = refl
  some_of-sort p before (x ∷ xs) =
      ground (arith, some_of-insert p before x (sort before xs), some_of-sort p before xs)

  All-insert {κ} :
      (P : A → Type κ) (before : A → A → Bool) (x : A) (xs : List A)
      → P x
      → All P xs
      → All P (insert before x xs)
  unfolding insert
  All-insert P before x [] p ps = (p, record {})
  All-insert P before x (y ∷ ys) p ps = elim (Bool-cases (before y x)) [
    | inl first ↦ rw (first) (ps.0, All-insert P before x ys p ps.1)
    | inr last ↦ rw (last) (p, ps)
  ]

  pub All-sort {κ} :
      (P : A → Type κ) (before : A → A → Bool) (xs : List A) → All P xs → All P (sort before xs)
  unfolding sort
  All-sort P before [] ps = record {}
  All-sort P before (x ∷ xs) ps =
      All-insert P before x (sort before xs) ps.0 (All-sort P before xs ps.1)

  pub some_of-map {κ} :
      {B : Type κ} (p : A → Bool) (f : B → A) (xs : List B)
      → some_of p (map f xs) ≡ some_of (λ x. p (f x)) xs
  some_of-map p f [] = refl
  some_of-map p f (x ∷ xs) = ground (arith, some_of-map p f xs)

module _ {ℓ} {A : Type ℓ} ⦃e : Comparable A⦄ where
  -- The elements of `set(xs)`, each at its last place.
  unfoldable pub unique : List A → List A
  unique [] = []
  unique (x ∷ xs) = let rest = unique xs in if contains xs x then rest else x ∷ rest

  contains-some_of : (xs : List A) (a : A) → contains xs a ≡ some_of (λ x. x == a) xs
  contains-some_of [] a = refl
  contains-some_of (x ∷ xs) a = ground (arith, contains-some_of xs a)

  pub contains-sort :
      (before : A → A → Bool) (xs : List A) (a : A) → contains (sort before xs) a ≡ contains xs a
  contains-sort before xs a = ground (
    arith,
    contains-some_of (sort before xs) a,
    contains-some_of xs a,
    some_of-sort (λ x. x == a) before xs,
  )

-- The order of two sequences: that of the first place where they differ.
sequence_before {ℓ} : {A : Type ℓ} ⦃e : Comparable A⦄ → (A → A → Bool) → List A → List A → Bool
sequence_before before [] [] = false
sequence_before before [] (y ∷ ys) = true
sequence_before before (x ∷ xs) [] = false
sequence_before before (x ∷ xs) (y ∷ ys) =
    let rest = sequence_before before xs ys in if x == y then rest else before x y

unfoldable pub text_before : Text → Text → Bool
unfolding sequence_before
text_before s t = sequence_before ltb s t

unfoldable pub texts_before : List Text → List Text → Bool
unfolding sequence_before text_before
texts_before s t = sequence_before text_before s t
