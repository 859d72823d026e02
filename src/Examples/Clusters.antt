-- ===== src/Examples/Clusters.antt =====
-- The union-find, the clusters and the check of an order on hundredths.
use shrap_firm.Prelude.{
  ℕ, zero, suc, ◌*◌, leb, if◌then◌else◌, ◌≡◌, ◌⊎◌, ◌↔◌, refl, true, false, some, List, [], ◌∷◌,
  ◌&&◌, ◌∙◌, contains, list_eq,
}
use shrap_firm.Prelude.Text.{
  Text, text_Eq, codes, text_eq, strip, strip_left, strip_right, upper, upper_code, is_space,
}
use shrap_firm.Prelude.Dict.{Dict, get, put}
use shrap_firm.Prelude.Sorting.{sort, insert, unique, text_before, texts_before}
use shrap_firm.Prelude.Double.{of_count, ◌<=◌, ◌<<◌}
use shrap_firm.Risk.Exposure.{symbol_of}
use shrap_firm.Risk.Union.{singletons, climb, compress, find, union, knows}
use shrap_firm.Risk.Union.Forest.{IsForest, find_lem, singletons-IsForest}
use shrap_firm.Risk.Union.Linked.{Linked}
use shrap_firm.Risk.Union.Merge.{pair, Joins, union_lem}
use shrap_firm.Risk.Clusters.{
  Cluster, held, groups_of, link_all, link_row, correlation, cluster_of, group, normalised, returns,
  is_correlated, cluster_positions,
}
use shrap_firm.Risk.Clusters.Linking.{earlier}
use shrap_firm.Risk.Clusters.Components.{shares_cluster, cluster_positions_lem}
use shrap_firm.Risk.Gate.{no_usable}
use shrap_firm.Risk.Breaches.{Fits, check_order, check_order_lem}
use shrap_firm.Examples.Numbers.{
  Hundredths, pos, negsuc, Hundredths_Double, size, le, neg, add, mul, div,
}
use shrap_firm.Examples.Sizes.{holdings, limits}

abbrev names : List Text
names = codes "A" ∷ codes "B" ∷ codes "C" ∷ []

-- B hangs under A.
a_is_known : knows (singletons [] names) (codes "A") ≡ true
unfolding singletons get put text_eq list_eq
a_is_known = refl

b_is_known : knows (singletons [] names) (codes "B") ≡ true
unfolding singletons get put text_eq list_eq
b_is_known = refl

abbrev hung_pair :
    (forest : Dict Text Text) × (union (singletons [] names) (codes "A") (codes "B") ≡ some forest)
    × Joins (singletons [] names) (λ k. k) (pair (codes "A") (codes "B")) forest
hung_pair =
    union_lem (singletons [] names) (λ k. k) (λ k. 0) (singletons-IsForest names).0 (codes "A")
      (codes "B") a_is_known b_is_known

abbrev forest : Dict Text Text
forest = hung_pair.0

find_lem_example :
    (after : Dict Text Text) × (find forest (codes "B")
      ≡ some (hung_pair.2.roots (codes "B"), after))
    × IsForest after hung_pair.2.roots hung_pair.2.height
    × (get after (hung_pair.2.roots (codes "B")) ≡ some (hung_pair.2.roots (codes "B")))
    × ((k : Text) → knows after k ≡ knows forest k)
find_lem_example =
    find_lem forest hung_pair.2.roots hung_pair.2.height hung_pair.2.is_forest (codes "B")
      (hung_pair.2.same_items (codes "B") ∙ b_is_known)

abbrev pub sum : List Hundredths → Hundredths
sum [] = pos 0
sum (x ∷ xs) = add x (sum xs)

-- The square, and the root by counting up.
abbrev root_from : ℕ → ℕ → ℕ → ℕ
root_from zero n k = k
root_from (suc fuel) n k =
    let up = root_from fuel n (suc k) in if leb (suc k * suc k) n then up else k

abbrev pub power : Hundredths → Hundredths → Hundredths
power x y = if y <= pos 50 then pos (root_from 200 (size x * 100) 0) else mul x x

-- A and B rise and fall together, C does not.
abbrev history : Dict Text (List Hundredths)
history =
    (codes "A", pos 100 ∷ pos 200 ∷ pos 100 ∷ pos 300 ∷ [])
    ∷ (codes "B", pos 200 ∷ pos 400 ∷ pos 200 ∷ pos 600 ∷ [])
    ∷ (codes "C", pos 300 ∷ pos 100 ∷ pos 300 ∷ pos 100 ∷ [])
    ∷ []

abbrev weights : Dict Text Hundredths
weights = (codes "a", pos 10) ∷ (codes "B", negsuc 4) ∷ (codes "C", pos 8) ∷ (codes "D", pos 0) ∷ []

correlated_are_one :
    cluster_positions sum power weights history (pos 80) 2
    ≡ some (
        record { tickers = codes "A" ∷ codes "B" ∷ []; weight = pos 15 }
        ∷ record { tickers = codes "C" ∷ []; weight = pos 8 }
        ∷ [])
unfolding cluster_positions groups_of link_all link_row held sort insert unique le add neg mul div
    text_eq list_eq symbol_of upper upper_code strip strip_left strip_right is_space text_before
    texts_before is_correlated returns correlation of_count get put cluster_of group normalised
    climb compress find singletons union
correlated_are_one = refl

unknown_are_one :
    cluster_positions sum power weights history (pos 80) 40
    ≡ some (record { tickers = codes "A" ∷ codes "B" ∷ codes "C" ∷ []; weight = pos 23 } ∷ [])
unfolding cluster_positions groups_of link_all link_row held sort insert unique le add neg mul div
    text_eq list_eq symbol_of upper upper_code strip strip_left strip_right is_space text_before
    texts_before is_correlated returns correlation of_count get put cluster_of group normalised
    climb compress find singletons union
unknown_are_one = refl

cluster_positions_lem_example :
    let names = held weights in
    let test = is_correlated sum power (pos 80) 2 history in
    (clusters : List (Cluster Hundredths)) × (cluster_positions sum power weights history (pos 80) 2
      ≡ some clusters)
    × ((a b : Text)
        → contains names a ≡ true
        → contains names b ≡ true
        → (shares_cluster a b clusters ≡ true)
          ↔ Linked (λ x y. (earlier names x y && test x y) ≡ true) a b)
cluster_positions_lem_example = cluster_positions_lem sum power weights history (pos 80) 2

no_dust : (pos 0 <= pos 0) ≡ true
unfolding le
no_dust = refl

check_order_lem_example :
    let r =
      check_order sum power
        (pos 0)
        holdings
        (codes "gd")
        (codes "buy")
        limits
        history
        (λ x. x)
        (pos 1)
        (pos 900)
        (some (pos 20_000)) in
    let fits =
      Fits sum power (pos 0) holdings (codes "gd") (codes "buy") limits history (pos 20_000) in
    ((pos 0 << pos 900) ≡ true
      → no_usable (some (pos 20_000)) ≡ false
      → fits (pos 900)
      → (r.approved ≡ true) × (r.approved_quantity ≡ pos 900))
    × (r.approved ≡ true
        → (size : Hundredths) × fits size
          × ((r.approved_quantity ≡ size) ⊎ (r.approved_quantity ≡ size)))
check_order_lem_example =
    check_order_lem sum power (pos 0) holdings (codes "gd") (codes "buy") limits history (λ x. x)
      (pos 1) (pos 900) (some (pos 20_000)) no_dust
