-- ===== src/Risk/Clusters.antt =====
-- src/shrap/risk_compliance/risk_officer/clusters.py: positions that are really one trade. Python's `sum`
-- of floats and its power `**` are arguments.
use shrap_firm.Prelude.{
  or_empty, ℕ, zero, suc, ◌+◌, ◌-◌, ◌≡◌, refl, Bool, true, false, not, ◌&&◌, ◌||◌, Option, none,
  some, List, [], ◌∷◌, ◌++◌, map, arith, ltb, leb, nat_eq, is_none, if◌then◌else◌, length,
  Comparable, ◌==◌, contains,
}
use shrap_firm.Prelude.Text.{Text, text_Eq}
use shrap_firm.Prelude.Dict.{Dict, get, put}
use shrap_firm.Prelude.Double.{Double, of_count, ◌<=◌, ◌<<◌, same, abs_float}
use shrap_firm.Prelude.Sorting.{sort, unique, text_before, texts_before}
use shrap_firm.Risk.Union.{singletons, find, union}
use shrap_firm.Risk.Exposure.{symbol_of, or_nought}
pub mod Linking
pub mod Groups
pub mod Components

pub record Cluster (F : Type 0) : Type 0 where
  pub tickers : List Text
  pub weight : F

-- `xs[-n:]` for a positive `n`
last : {A : Type 0} → ℕ → List A → List A
last n [] = []
last n (x ∷ xs) = let rest = last n xs in if leb (suc (length xs)) n then x ∷ xs else rest

module _ {F : Type 0} ⦃d : Double F⦄ where
  -- `returns`
  unfoldable pub returns : List F → List F
  returns [] = []
  returns (previous ∷ []) = []
  returns (previous ∷ current ∷ closes) =
      let rest = returns (current ∷ closes) in
      if previous <= d.nought || current <= d.nought
      then rest
      else d.sub (d.div current previous) d.one ∷ rest

  abbrev two : F
  two = d.add d.one d.one

  products : F → F → List F → List F → List F
  products mean_a mean_b (x ∷ xs) (y ∷ ys) =
      d.mul (d.sub x mean_a) (d.sub y mean_b) ∷ products mean_a mean_b xs ys
  products mean_a mean_b _ _ = []

  -- `correlation`
  unfoldable pub correlation : (List F → F) → (F → F → F) → List F → List F → Option F
  unfolding last products of_count
  correlation sum power left right =
      let n = if ltb (length right) (length left) then length right else length left in
      let a = last n left in
      let b = last n right in
      let mean_a = d.div (sum a) (of_count n) in
      let mean_b = d.div (sum b) (of_count n) in
      let cov = sum (products mean_a mean_b a b) in
      let var_a = sum (map (λ x. power (d.sub x mean_a) two) a) in
      let var_b = sum (map (λ y. power (d.sub y mean_b) two) b) in
      let root = d.div d.one two in
      if ltb n 2
      then none
      else if var_a <= d.nought || var_b <= d.nought
      then none
      else some (d.div cov (d.mul (power var_a root) (power var_b root)))

  abbrev at_least : F → Option F → Bool
  at_least threshold none = true
  at_least threshold (some rho) = threshold <= rho

  -- The test of the loop in `cluster_positions`: whether two names are joined.
  unfoldable pub is_correlated :
      (List F → F) → (F → F → F) → F → ℕ → Dict Text (List F) → Text → Text → Bool
  is_correlated sum power threshold min_history history left right =
      let left_returns = returns (or_empty (get history left)) in
      let right_returns = returns (or_empty (get history right)) in
      let n = length left_returns in
      let m = length right_returns in
      ltb (if ltb m n then m else n) min_history
      || at_least threshold (correlation sum power left_returns right_returns)

-- The inner loop: every name after `left`.
unfoldable pub link_row {ℓ} :
    {K : Type ℓ} ⦃e : Comparable K⦄ → (K → K → Bool) → Dict K K → K → List K → Option (Dict K K)
link_row joined forest left [] = some forest
link_row joined forest left (right ∷ rights) =
    elim (if joined left right then union forest left right else some forest) [
      | none ↦ none
      | some next ↦ link_row joined next left rights
    ]

-- The outer loop.
unfoldable pub link_all {ℓ} :
    {K : Type ℓ} ⦃e : Comparable K⦄ → (K → K → Bool) → Dict K K → List K → Option (Dict K K)
link_all joined forest [] = some forest
link_all joined forest (left ∷ rights) = elim (link_row joined forest left rights) [
  | none ↦ none
  | some next ↦ link_all joined next rights
]

-- The loop that fills `grouped`; `find` goes on compressing.
unfoldable pub group {ℓ} :
    {K : Type ℓ} ⦃e : Comparable K⦄ → Dict K K → Dict K (List K) → List K → Option (Dict K (List K))
group forest grouped [] = some grouped
group forest grouped (ticker ∷ tickers) = elim (find forest ticker) [
  | none ↦ none
  | some (root, next) ↦
      group next (put grouped root (or_empty (get grouped root) ++ (ticker ∷ []))) tickers
]

-- `_Union(tickers)`, the loops, and the groups.
unfoldable pub groups_of {ℓ} :
    {K : Type ℓ} ⦃e : Comparable K⦄ → (K → K → Bool) → List K → Option (Dict K (List K))
groups_of joined tickers = elim (link_all joined (singletons [] tickers) tickers) [
  | none ↦ none
  | some forest ↦ group forest [] tickers
]

module _ {F : Type 0} ⦃d : Double F⦄ where
  -- `{t.strip().upper() for t in weights if weights[t] != 0.0}`, sorted
  unfoldable pub held : Dict Text F → List Text
  held weights = sort text_before (unique (names weights))
    where
      names : Dict Text F → List Text
      names [] = []
      names ((t, w) ∷ rest) =
          let more = names rest in if same w d.nought then more else symbol_of t ∷ more

  -- `{t.strip().upper(): w for t, w in weights.items()}`
  unfoldable pub normalised : Dict Text F → Dict Text F → Dict Text F
  normalised so_far [] = so_far
  normalised so_far ((t, w) ∷ rest) = normalised (put so_far (symbol_of t) w) rest

  -- The sort key `(-c.weight, c.tickers)`.
  abbrev pub heavier : Cluster F → Cluster F → Bool
  heavier c k =
      if same (d.neg c.weight) (d.neg k.weight)
      then texts_before c.tickers k.tickers
      else d.neg c.weight << d.neg k.weight

  unfoldable pub cluster_of : (List F → F) → Dict Text F → Text × List Text → Cluster F
  cluster_of sum weights (root, members) = record {
    tickers = sort text_before members;
    weight = sum (map (λ m. abs_float (or_nought (get weights m))) members);
  }

  -- `cluster_positions`; `none` would be a KeyError of the union-find
  unfoldable pub cluster_positions :
      (List F → F)
      → (F → F → F)
      → Dict Text F
      → Dict Text (List F)
      → F
      → ℕ
      → Option (List (Cluster F))
  unfolding normalised cluster_of
  cluster_positions sum power weights history threshold min_history =
      elim (groups_of (is_correlated sum power threshold min_history history) (held weights)) [
        | none ↦ none
        | some grouped ↦ some (sort heavier (map (cluster_of sum (normalised [] weights)) grouped))
      ]

  -- `breaching_cluster`
  unfoldable pub breaching_cluster : List (Cluster F) → F → Option (Cluster F)
  breaching_cluster [] cap = none
  breaching_cluster (cluster ∷ clusters) cap =
      let rest = breaching_cluster clusters cap in
      if cap << cluster.weight then some cluster else rest
