-- ===== src/Risk/Clusters/Components.antt =====
-- What `cluster_positions` of src/shrap/risk_compliance/risk_officer/clusters.py groups.
use shrap_firm.Prelude.{
  ℕ, ◌≡◌, ◌↔◌, refl, sym, ◌∙◌, Bool, true, ◌&&◌, some, List, [], ◌∷◌, map, arith, contains, some_of,
}
use shrap_firm.Prelude.Text.{Text, text_Eq}
use shrap_firm.Prelude.Dict.{Dict}
use shrap_firm.Prelude.Double.{Double}
use shrap_firm.Prelude.Sorting.{sort, some_of-sort, contains-sort, text_before}
use shrap_firm.Risk.Union.Linked.{Linked}
use shrap_firm.Risk.Clusters.{
  Cluster, cluster_positions, cluster_of, heavier, normalised, is_correlated, held,
}
use shrap_firm.Risk.Clusters.Linking.{earlier}
use shrap_firm.Risk.Clusters.Groups.{together, groups_of_lem}

module _ {F : Type 0} ⦃d : Double F⦄ where
  abbrev pub shares_cluster : Text → Text → List (Cluster F) → Bool
  shares_cluster a b clusters = some_of (λ c. contains c.tickers a && contains c.tickers b) clusters

  together-cluster_of :
      (sum : List F → F) (weights : Dict Text F) (a b : Text) (grouped : Dict Text (List Text))
      → shares_cluster a b (map (cluster_of sum weights) grouped) ≡ together a b grouped
  unfolding cluster_of
  together-cluster_of sum weights a b [] = refl
  together-cluster_of sum weights a b ((root, ms) ∷ grouped) = ground (
    arith,
    contains-sort text_before ms a,
    contains-sort text_before ms b,
    together-cluster_of sum weights a b grouped,
  )

  -- Clustering comes to an end without a KeyError, and two held names share a cluster exactly when
  -- a chain of pairs that the test of the loop joins connects them, each pair being taken once, in the
  -- order of the names. The test joins a pair with too short a history, one whose correlation is not
  -- defined, and one whose correlation reaches the threshold.
  pub cluster_positions_lem :
      (sum : List F → F) (power : F → F → F) (weights : Dict Text F) (history : Dict Text (List F))
      (threshold : F) (min_history : ℕ)
      → let names = held weights in
        let test = is_correlated sum power threshold min_history history in
        (clusters : List (Cluster F)) × (cluster_positions sum power weights history threshold
            min_history
          ≡ some clusters)
        × ((a b : Text)
            → contains names a ≡ true
            → contains names b ≡ true
            → (shares_cluster a b clusters ≡ true)
              ↔ Linked (λ x y. (earlier names x y && test x y) ≡ true) a b)
  unfolding cluster_positions
  cluster_positions_lem sum power weights history threshold min_history =
      let names = held weights in
      let test = is_correlated sum power threshold min_history history in
      let (grouped, done, meets) = groups_of_lem test names in
      let make = cluster_of sum (normalised [] weights) in
      let clusters = sort heavier (map make grouped) in
      (
        clusters,
        rw (cluster_positions, done) refl,
        λ a b has_a has_b.
            let same : shares_cluster a b clusters ≡ together a b grouped =
              some_of-sort (λ c. contains c.tickers a && contains c.tickers b) heavier
                (map make grouped)
              ∙ together-cluster_of sum (normalised [] weights) a b grouped in
            let (there, back) = meets a b has_a has_b in
            (λ h. there (sym same ∙ h), λ h. same ∙ back h),
      )
