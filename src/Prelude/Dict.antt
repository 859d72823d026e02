-- ===== src/Prelude/Dict.antt =====
-- Python's `dict` in insertion order, over keys with a Boolean equality.
use mathlib.Core.Path.{◌≡◌, refl}
use mathlib.Core.Logic.{inl, inr}
use mathlib.Core.Bool.{Bool, true}
use mathlib.Core.Option.{Option, none, some}
use mathlib.Core.List.{List, [], ◌∷◌}
use native.Mathlib.Omega.{arith}
use shrap_firm.Prelude.Tests.{if◌then◌else◌, Bool-cases}
use shrap_firm.Prelude.Lists.{some_of, All, All-weaken}
use shrap_firm.Prelude.Equality.{Comparable, ◌==◌, equal_refl}

abbrev pub Dict {ℓ κ} : Type ℓ → Type κ → Type (ℓ ⊔ κ)
Dict K V = List (K × V)

module _ {ℓ κ} {K : Type ℓ} {V : Type κ} ⦃e : Comparable K⦄ where
  -- `d.get(k)`
  unfoldable pub get : Dict K V → K → Option V
  get [] k = none
  get ((j, v) ∷ d) k = if j == k then some v else get d k

  -- `d[k] = v`
  unfoldable pub put : Dict K V → K → V → Dict K V
  put [] k v = (k, v) ∷ []
  put ((j, w) ∷ d) k v = if j == k then (j, v) ∷ d else (j, w) ∷ put d k v

  -- `d.pop(k, None)`, `del d[k]`
  unfoldable pub remove : Dict K V → K → Dict K V
  remove [] k = []
  remove ((j, w) ∷ d) k = let rest = remove d k in if j == k then rest else (j, w) ∷ rest

  pub get-nil : (k : K) → get [] k ≡ none
  unfolding get
  get-nil k = refl

  pub get-put :
      (d : Dict K V) (k j : K) (v : V) → get (put d k v) j ≡ (if k == j then some v else get d j)
  unfolding get put
  get-put [] k j v = refl
  get-put ((i, w) ∷ d) k j v =
      ground (arith, e.equal_iff i k, e.equal_iff i j, e.equal_iff k j, get-put d k j v)

  pub get-remove :
      (d : Dict K V) (k j : K) → get (remove d k) j ≡ (if k == j then none else get d j)
  unfolding get remove
  get-remove [] k j = ground arith
  get-remove ((i, w) ∷ d) k j =
      ground (arith, e.equal_iff i k, e.equal_iff i j, e.equal_iff k j, get-remove d k j)

  -- No key stands twice.
  abbrev pub Distinct : Dict K V → Type (ℓ ⊔ κ)
  Distinct [] = Unit
  Distinct ((k, v) ∷ d) = (get d k ≡ none) × Distinct d

  pub Distinct-put : (d : Dict K V) (k : K) (v : V) → Distinct d → Distinct (put d k v)
  unfolding get put
  Distinct-put [] k v distinct = (refl, distinct)
  Distinct-put ((j, w) ∷ d) k v distinct = elim (Bool-cases (j == k)) [
    | inl same ↦ rw (same) distinct
    | inr other ↦ rw (other) (
      ground (arith, get-put d k j v, e.equal_iff j k, e.equal_iff k j, distinct.0),
      Distinct-put d k v distinct.1,
    )
  ]

  -- A test on the entries, by the keys.
  pub some_of-get :
      (p : K × V → Bool) (d : Dict K V) (k : K) (v : V)
      → get d k ≡ some v
      → p (k, v) ≡ true
      → some_of p d ≡ true
  unfolding get
  some_of-get p [] k v at good = ground arith
  some_of-get p ((j, w) ∷ d) k v at good = ground (arith, e.equal_iff j k, some_of-get p d k v)

  pub get-some_of :
      (p : K × V → Bool) (d : Dict K V)
      → Distinct d
      → some_of p d ≡ true
      → (k : K) × (v : V) × (get d k ≡ some v) × (p (k, v) ≡ true)
  unfolding get
  get-some_of p [] distinct good = ground arith
  get-some_of p ((j, w) ∷ d) distinct good = elim (Bool-cases (p (j, w))) [
    | inl here ↦ (j, w, ground (arith, equal_refl j), here)
    | inr later ↦
        let (k, v, at, holds) = get-some_of p d distinct.1 (ground arith) in
        (k, v, ground (arith, e.equal_iff j k, distinct.0), holds)
  ]

  -- Each entry is the one that its key finds.
  pub entries-get : (d : Dict K V) → Distinct d → All (λ x. get d x.0 ≡ some x.1) d
  unfolding get
  entries-get [] distinct = record {}
  entries-get ((j, w) ∷ d) distinct = (
    ground (arith, equal_refl j),
    All-weaken _ _ d (λ (k, v) at. ground (arith, e.equal_iff j k, distinct.0, at))
        (entries-get d distinct.1),
  )
