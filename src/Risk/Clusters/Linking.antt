-- ===== src/Risk/Clusters/Linking.antt =====
-- The loops of `cluster_positions` in src/shrap/risk_compliance/risk_officer/clusters.py over every two names.
use shrap_firm.Prelude.{
  ℕ, ◌≡◌, refl, ◌∙◌, Bool, true, false, ◌&&◌, ◌||◌, some, List, [], ◌∷◌, arith, if◌then◌else◌,
  Bool-cases, inl, inr, Comparable, ◌==◌, equal_refl, contains,
}
use shrap_firm.Prelude.Dict.{Dict}
use shrap_firm.Risk.Union.{knows, union}
use shrap_firm.Risk.Union.Forest.{IsForest}
use shrap_firm.Risk.Union.Linked.{IsMerged-refl, IsMerged-trans}
use shrap_firm.Risk.Union.Merge.{pair, Joins, union_lem}
use shrap_firm.Risk.Clusters.{link_row, link_all}

module _ {ℓ} {K : Type ℓ} ⦃e : Comparable K⦄ where
  -- `x` stands before `y` in the list.
  unfoldable pub earlier : List K → K → K → Bool
  earlier [] x y = false
  earlier (t ∷ ts) x y = (x == t && contains ts y) || earlier ts x y

  -- The links of one row, and those of all.
  abbrev row : (K → K → Bool) → K → List K → K → K → Bool
  row joined left rights x y = (x == left && contains rights y) && joined x y

  abbrev pub every : (K → K → Bool) → List K → K → K → Bool
  every joined tickers x y = earlier tickers x y && joined x y

  Joins-trans :
      (forest next after : Dict K K) (rep : K → K) (One Two Both : K → K → Bool)
      → (j : Joins forest rep One next) → Joins next j.roots Two after
      → ((a b : K) → (One a b || Two a b) ≡ Both a b)
      → Joins forest rep Both after
  Joins-trans forest next after rep One Two Both j k both = record {
    roots = k.roots;
    height = k.height;
    is_forest = k.is_forest;
    is_merged = IsMerged-trans rep j.roots k.roots One Two Both j.is_merged k.is_merged both;
    same_items = λ i. k.same_items i ∙ j.same_items i;
  }

  Joins-refl :
      (forest : Dict K K) (rep : K → K) (height : K → ℕ)
      → IsForest forest rep height
      → (Link : K → K → Bool) → ((a b : K) → Link a b ≡ true → rep a ≡ rep b)
      → Joins forest rep Link forest
  Joins-refl forest rep height f Link none_new = record {
    roots = rep;
    height = height;
    is_forest = f;
    is_merged = IsMerged-refl rep Link none_new;
    same_items = λ i. refl;
  }

  Joins-same :
      (forest after : Dict K K) (rep : K → K) (One Two : K → K → Bool)
      → Joins forest rep One after
      → ((a b : K) → One a b ≡ Two a b)
      → Joins forest rep Two after
  Joins-same forest after rep One Two j same =
      Joins-trans forest after after rep One (λ a b. false) Two j
        (Joins-refl after j.roots j.height j.is_forest (λ a b. false) (λ a b l. ground arith))
        (λ a b. ground (arith, same a b))

  -- One pass of the inner loop.
  step_lem :
      (joined : K → K → Bool) (forest : Dict K K) (rep : K → K) (height : K → ℕ)
      → IsForest forest rep height
      → (left right : K) → knows forest left ≡ true
      → knows forest right ≡ true
      → (next : Dict K K) × ((if joined left right then union forest left right else some forest)
          ≡ some next)
        × Joins forest rep (λ x y. pair left right x y && joined x y) next
  step_lem joined forest rep height f left right has_left has_right =
      elim (Bool-cases (joined left right)) [
        | inl holds ↦
            let (next, done, j) = union_lem forest rep height f left right has_left has_right in
            (
              next,
              rw (holds) done,
              Joins-same forest next rep (pair left right)
                  (λ x y. pair left right x y && joined x y) j
                  (λ a b. ground (arith, e.equal_iff a left, e.equal_iff b right)),
            )
        | inr fails ↦ (
          forest,
          rw (fails) refl,
          Joins-refl forest rep height f (λ x y. pair left right x y && joined x y)
              (λ a b l. ground (arith, e.equal_iff a left, e.equal_iff b right)),
        )
      ]

  link_row_lem :
      (joined : K → K → Bool) (forest : Dict K K) (rep : K → K) (height : K → ℕ)
      → IsForest forest rep height
      → (left : K) (rights : List K) → knows forest left ≡ true
      → ((k : K) → contains rights k ≡ true → knows forest k ≡ true)
      → (after : Dict K K) × (link_row joined forest left rights ≡ some after)
        × Joins forest rep (row joined left rights) after
  unfolding link_row
  link_row_lem joined forest rep height f left [] has_left has =
      (forest, refl, Joins-refl forest rep height f (row joined left []) (λ a b l. ground arith))
  link_row_lem joined forest rep height f left (right ∷ rights) has_left has =
      let (next, done, j) =
        step_lem joined forest rep height f left right has_left
          (has right (ground (arith, equal_refl right))) in
      let (after, rest, k) =
        link_row_lem joined next j.roots j.height j.is_forest left rights
          (ground (arith, j.same_items left)) (λ i h. ground (arith, j.same_items i, has i)) in
      (
        after,
        rw (link_row, done) rest,
        Joins-trans forest next after rep (λ x y. pair left right x y && joined x y)
            (row joined left rights) (row joined left (right ∷ rights)) j k
            (λ a b. ground (arith, e.equal_iff b right, e.equal_iff right b)),
      )

  -- The two loops join the forest along every pair of names of which the first stands before the second
  -- and that the test joins.
  pub link_all_lem :
      (joined : K → K → Bool) (forest : Dict K K) (rep : K → K) (height : K → ℕ)
      → IsForest forest rep height
      → (tickers : List K) → ((k : K) → contains tickers k ≡ true → knows forest k ≡ true)
      → (after : Dict K K) × (link_all joined forest tickers ≡ some after)
        × Joins forest rep (every joined tickers) after
  unfolding link_all earlier
  link_all_lem joined forest rep height f [] has =
      (forest, refl, Joins-refl forest rep height f (every joined []) (λ a b l. ground arith))
  link_all_lem joined forest rep height f (left ∷ rights) has =
      let (next, done, j) =
        link_row_lem joined forest rep height f left rights
          (has left (ground (arith, equal_refl left))) (λ k h. has k (ground arith)) in
      let (after, rest, k) =
        link_all_lem joined next j.roots j.height j.is_forest rights
          (λ i h. ground (arith, j.same_items i, has i)) in
      (
        after,
        rw (link_all, done) rest,
        Joins-trans forest next after rep (row joined left rights) (every joined rights)
            (every joined (left ∷ rights)) j k (λ a b. ground arith),
      )
