-- ===== src/Risk/Union/Forest.antt =====
-- What the parents of src/shrap/risk_compliance/risk_officer/clusters.py's `_Union` always look like, and that
-- both loops of `find` come to an end.
use shrap_firm.Prelude.{
  ℕ, zero, suc, ◌≤◌, ◌<◌, ◌≡◌, ◌≢◌, refl, true, some, List, [], ◌∷◌, arith, if◌then◌else◌,
  Bool-cases, Option-cases, inl, inr, length, Comparable, ◌==◌, contains, ◌||◌,
}
use shrap_firm.Prelude.Dict.{Dict, get, put, get-put, get-nil}
use shrap_firm.Risk.Union.{knows, singletons, climb, compress, find}

module _ {ℓ} {K : Type ℓ} ⦃e : Comparable K⦄ where
  -- The items that are not their own parent.
  unfoldable pub edges : Dict K K → ℕ
  edges [] = 0
  edges ((k, p) ∷ forest) = if p == k then edges forest else suc (edges forest)

  pub edges-le : (forest : Dict K K) → edges forest ≤ length forest
  unfolding edges
  edges-le [] = omega arith
  edges-le ((k, p) ∷ forest) = ground (arith, edges-le forest)

  -- Giving a new parent to an item that has one already, and to one that has none.
  pub edges-put_child :
      (forest : Dict K K) (k p q : K)
      → get forest k ≡ some q
      → q ≢ k
      → p ≢ k
      → edges (put forest k p) ≡ edges forest
  unfolding edges get put
  edges-put_child [] k p q at old new = ground arith
  edges-put_child ((j, o) ∷ forest) k p q at old new = ground (
    arith,
    e.equal_iff j k,
    e.equal_iff o j,
    e.equal_iff p j,
    e.equal_iff p k,
    edges-put_child forest k p q,
  )

  pub edges-put_root :
      (forest : Dict K K) (k p : K)
      → get forest k ≡ some k
      → p ≢ k
      → edges (put forest k p) ≡ suc (edges forest)
  unfolding edges get put
  edges-put_root [] k p at new = ground arith
  edges-put_root ((j, o) ∷ forest) k p at new = ground (
    arith,
    e.equal_iff j k,
    e.equal_iff o j,
    e.equal_iff p j,
    e.equal_iff p k,
    edges-put_root forest k p,
  )

  -- `rep` names the root of every item; it is what the forest stands for. Heights go down on the way
  -- to the root, from at most the number of items that have a parent.
  pub record IsForest (forest : Dict K K) (rep : K → K) (height : K → ℕ) : Type ℓ where
    pub closed : (k p : K) → get forest k ≡ some p → knows forest p ≡ true
    pub linked : (k p : K) → get forest k ≡ some p → rep p ≡ rep k
    pub down : (k p : K) → get forest k ≡ some p → p ≢ k → height p < height k
    pub top : (k : K) → get forest k ≡ some k → (rep k ≡ k) × (height k ≡ 0)
    pub short : (k : K) → height k ≤ edges forest

  -- With fuel above the item's height, the first loop ends at the item's root.
  climb_lem :
      (forest : Dict K K) (rep : K → K) (height : K → ℕ) (f : IsForest forest rep height) (fuel : ℕ)
      (item : K)
      → knows forest item ≡ true
      → height item < fuel
      → (climb fuel forest item ≡ some (rep item)) × (get forest (rep item) ≡ some (rep item))
  unfolding climb
  climb_lem forest rep height f zero item here enough = ground arith
  climb_lem forest rep height f (suc fuel) item here enough =
      elim (Option-cases (get forest item)) [
        | inl missing ↦ ground arith
        | inr (parent, at) ↦ elim (Bool-cases (parent == item)) [
          | inl own ↦
              rw (climb, at)
                (ground (arith, e.equal_iff parent item, f.top item, f.linked item parent at))
          | inr other ↦
              let there = f.closed item parent at in
              let differ : parent ≢ item = λ same. ground (arith, e.equal_iff parent item) in
              let lower = f.down item parent at differ in
              let (up, root) = climb_lem forest rep height f fuel parent there (omega arith) in
              rw (climb, at) (ground (arith, f.linked item parent at))
        ]
      ]

  pub knows-put :
      (forest : Dict K K) (item root : K)
      → knows forest item ≡ true
      → (k : K) → knows (put forest item root) k ≡ knows forest k
  knows-put forest item root here k = ground (arith, get-put forest item k root, e.equal_iff item k)

  -- An item that has a parent is hung on its root.
  put-IsForest :
      (forest : Dict K K) (rep : K → K) (height : K → ℕ)
      → IsForest forest rep height
      → (item parent : K) → get forest item ≡ some parent
      → parent ≢ item
      → get forest (rep item) ≡ some (rep item)
      → IsForest (put forest item (rep item)) rep height
  put-IsForest forest rep height f item parent at child root =
      let new = put forest item (rep item) in
      let apart : rep item ≢ item = λ same. ground arith in
      let read = λ (k : K). get-put forest item k (rep item) in
      record {
        closed = λ k p h.
            ground (arith, read k, read p, e.equal_iff item k, e.equal_iff item p, f.closed k p);
        linked =
            λ k p h. ground (arith, read k, e.equal_iff item k, f.linked k p, f.top (rep item));
        down = λ k p h ne.
            ground
              (arith, read k, e.equal_iff item k, f.down k p, f.top (rep item), f.down item parent);
        top = λ k h. ground (arith, read k, e.equal_iff item k, f.top k);
        short = λ k. ground (arith, f.short k, edges-put_child forest item (rep item) parent);
      }

  -- With fuel above the item's height, the second loop ends, and the forest stands for the same roots.
  compress_lem :
      (forest : Dict K K) (rep : K → K) (height : K → ℕ)
      → IsForest forest rep height
      → (fuel : ℕ) (item : K) → knows forest item ≡ true
      → height item < fuel
      → get forest (rep item) ≡ some (rep item)
      → (after : Dict K K) × (compress fuel forest (rep item) item ≡ some after)
        × IsForest after rep height
        × (get after (rep item) ≡ some (rep item))
        × ((k : K) → knows after k ≡ knows forest k)
  unfolding compress
  compress_lem forest rep height f zero item here enough root = ground arith
  compress_lem forest rep height f (suc fuel) item here enough root =
      elim (Option-cases (get forest item)) [
        | inl missing ↦ ground arith
        | inr (parent, at) ↦ elim (Bool-cases (parent == rep item)) [
          | inl own ↦ (forest, rw (compress, at) (ground arith), f, root, λ k. refl)
          | inr other ↦
              let child : parent ≢ item =
                λ same. ground (arith, f.top item, e.equal_iff parent (rep item)) in
              let new = put forest item (rep item) in
              let g = put-IsForest forest rep height f item parent at child root in
              let same_root = f.linked item parent at in
              let known = knows-put forest item (rep item) here in
              let still : get new (rep parent) ≡ some (rep parent) = ground (
                arith,
                get-put forest item (rep parent) (rep item),
                e.equal_iff item (rep parent),
              ) in
              let (after, ends, h, root_after, knows_same) =
                compress_lem new rep height g fuel parent
                  (ground (arith, known parent, f.closed item parent at))
                  (omega (arith, f.down item parent at child)) still in
              let ends_here : compress fuel new (rep item) parent ≡ some after = cc in
              (
                after,
                rw (compress, at, other) ends_here,
                h,
                ground arith,
                λ k. ground (arith, known k, knows_same k),
              )
        ]
      ]

  -- `find` comes to an end on every item that the forest has: it gives the item's root, and a forest
  -- that stands for the same roots and has the same items.
  pub find_lem :
      (forest : Dict K K) (rep : K → K) (height : K → ℕ)
      → IsForest forest rep height
      → (item : K) → knows forest item ≡ true
      → (after : Dict K K) × (find forest item ≡ some (rep item, after))
        × IsForest after rep height
        × (get after (rep item) ≡ some (rep item))
        × ((k : K) → knows after k ≡ knows forest k)
  unfolding find
  find_lem forest rep height f item here =
      let fuel = suc (length forest) in
      let enough : height item < fuel = omega (arith, f.short item, edges-le forest) in
      let (up, root) = climb_lem forest rep height f fuel item here enough in
      let (after, ends, g, root_after, same) =
        compress_lem forest rep height f fuel item here enough root in
      (after, rw (find, up, ends) refl, g, root_after, same)

  -- Items that are their own parents.
  singletons_lem :
      (forest : Dict K K) (items : List K)
      → ((k p : K) → get forest k ≡ some p → p ≡ k)
      → ((k p : K) → get (singletons forest items) k ≡ some p → p ≡ k)
        × ((k : K) → knows (singletons forest items) k ≡ (contains items k || knows forest k))
  unfolding singletons
  singletons_lem forest [] own = (own, λ k. refl)
  singletons_lem forest (item ∷ items) own =
      let (own_after, has) =
        singletons_lem (put forest item item) items
          (λ k p h. ground (arith, get-put forest item k item, e.equal_iff item k, own k p)) in
      (own_after, λ k. ground (arith, has k, get-put forest item k item, e.equal_iff item k))

  pub singletons-IsForest :
      (items : List K)
      → IsForest (singletons [] items) (λ k. k) (λ k. 0)
        × ((k : K) → knows (singletons [] items) k ≡ contains items k)
  singletons-IsForest items =
      let (own, has) = singletons_lem [] items (λ k p h. ground (arith, get-nil {V = K} k)) in
      (
        record {
          closed = λ k p h. ground (arith, own k p h);
          linked = λ k p h. own k p h;
          down = λ k p h ne. ground (arith, own k p h);
          top = λ k h. (refl, refl);
          short = λ k. omega arith;
        },
        λ k. ground (arith, has k, get-nil {V = K} k),
      )
