-- ===== src/Risk/Union.antt =====
-- `_Union` of src/shrap/risk_compliance/risk_officer/clusters.py: union-find with path compression. The
-- parents are a dict; `none` is a KeyError, or fuel that ran out.
use shrap_firm.Prelude.{
  ℕ, zero, suc, ◌+◌, ◌≤◌, ◌<◌, ◌≡◌, ◌≢◌, refl, Bool, true, false, not, Option, none, some, List, [],
  ◌∷◌, arith, is_none, if◌then◌else◌, Bool-cases, Option-cases, inl, inr, length, Comparable, ◌==◌,
  contains,
}
use shrap_firm.Prelude.Dict.{Dict, get, put, get-put}
pub mod Forest
pub mod Linked
pub mod Merge

module _ {ℓ} {K : Type ℓ} ⦃e : Comparable K⦄ where
  abbrev pub knows : Dict K K → K → Bool
  knows forest k = not (is_none (get forest k))

  -- `_Union.__init__`, from a dict so far
  unfoldable pub singletons : Dict K K → List K → Dict K K
  singletons forest [] = forest
  singletons forest (item ∷ items) = singletons (put forest item item) items

  -- The first loop of `find`.
  unfoldable pub climb : ℕ → Dict K K → K → Option K
  climb zero forest root = none
  climb (suc fuel) forest root = elim (get forest root) [
    | none ↦ none
    | some parent ↦
        let above = climb fuel forest parent in if parent == root then some root else above
  ]

  -- The second loop of `find`.
  unfoldable pub compress : ℕ → Dict K K → K → K → Option (Dict K K)
  compress zero forest root item = none
  compress (suc fuel) forest root item = elim (get forest item) [
    | none ↦ none
    | some parent ↦
        let rest = compress fuel (put forest item root) root parent in
        if parent == root then some forest else rest
  ]

  abbrev with_root : K → Option (Dict K K) → Option (K × Dict K K)
  with_root root none = none
  with_root root (some forest) = some (root, forest)

  -- `find`: the root, and the parents that it leaves behind
  unfoldable pub find : Dict K K → K → Option (K × Dict K K)
  find forest item = elim (climb (suc (length forest)) forest item) [
    | none ↦ none
    | some root ↦ with_root root (compress (suc (length forest)) forest root item)
  ]

  -- `union`
  unfoldable pub union : Dict K K → K → K → Option (Dict K K)
  union forest left right = elim (find forest left) [
    | none ↦ none
    | some (left_root, first) ↦ elim (find first right) [
      | none ↦ none
      | some (right_root, second) ↦
          some (if left_root == right_root then second else put second right_root left_root)
    ]
  ]
