-- ===== src/Risk/Union/Merge.antt =====
-- `union` of src/shrap/risk_compliance/risk_officer/clusters.py joins two groups and keeps the others.
use shrap_firm.Prelude.{
  ℕ, suc, ◌≡◌, ◌≢◌, refl, sym, Bool, ◌&&◌, equal_refl, true, some, arith, if◌then◌else◌, Bool-cases,
  Option-cases, inl, inr, Comparable, ◌==◌,
}
use shrap_firm.Prelude.Dict.{Dict, get, put, get-put}
use shrap_firm.Risk.Union.{knows, union}
use shrap_firm.Risk.Union.Forest.{IsForest, edges-put_root, knows-put, find_lem}
use shrap_firm.Risk.Union.Linked.{Linked, link, back, chain, Extended, IsMerged, IsMerged-refl}

module _ {ℓ} {K : Type ℓ} ⦃e : Comparable K⦄ where
  -- The roots after the group of `right` went under `left`.
  abbrev hung : (K → K) → K → K → K → K
  hung rep left right k = if rep right == rep k then rep left else rep k

  abbrev raised : (K → K) → (K → ℕ) → K → K → ℕ
  raised rep height right k = if rep right == rep k then suc (height k) else height k

  abbrev pub pair : K → K → K → K → Bool
  pair left right x y = x == left && y == right

  hung-IsForest :
      (forest : Dict K K) (rep : K → K) (height : K → ℕ)
      → IsForest forest rep height
      → (left right : K) → get forest (rep left) ≡ some (rep left)
      → get forest (rep right) ≡ some (rep right)
      → rep left ≢ rep right
      → IsForest (put forest (rep right) (rep left)) (hung rep left right) (raised rep height right)
  hung-IsForest forest rep height f left right root_left root_right apart =
      let new = put forest (rep right) (rep left) in
      let read = λ (k : K). get-put forest (rep right) k (rep left) in
      let both = λ (x y : K). e.equal_iff x y in
      record {
        closed = λ k p h.
            ground (arith, read k, read p, both (rep right) k, both (rep right) p, f.closed k p);
        linked = λ k p h. ground (
          arith,
          read k,
          both (rep right) k,
          both (rep right) (rep k),
          both (rep right) (rep p),
          f.linked k p,
          f.top (rep right),
          f.top (rep left),
          both (rep right) (rep (rep left)),
        );
        down = λ k p h ne. ground (
          arith,
          read k,
          both (rep right) k,
          both (rep right) (rep k),
          both (rep right) (rep p),
          f.linked k p,
          f.down k p,
          f.top (rep right),
          f.top (rep left),
          both (rep right) (rep (rep left)),
        );
        top = λ k h. ground (arith, read k, both (rep right) k, both (rep right) (rep k), f.top k);
        short = λ k. ground (
          arith,
          f.short k,
          edges-put_root forest (rep right) (rep left),
          both (rep right) (rep k),
        );
      }

  hung-IsMerged :
      (rep : K → K) (left right : K) → IsMerged rep (hung rep left right) (pair left right)
  hung-IsMerged rep left right =
      let Goal = Linked (Extended rep (pair left right)) in
      let across : (a : K) → rep right ≡ rep a → Goal a left = λ a h.
        chain (link (inl (sym h)))
          (back (link (inr (ground (arith, equal_refl left, equal_refl right))))) in
      let both = λ (x : K). e.equal_iff (rep right) (rep x) in
      record {
        found = λ a b h. elim (Bool-cases (rep right == rep a)) [
          | inl at_a ↦ elim (Bool-cases (rep right == rep b)) [
            | inl at_b ↦ link (inl (ground (arith, both a, both b)))
            | inr off_b ↦
                chain (across a ((both a).0 at_a)) (link (inl (ground (arith, both a, both b))))
          ]
          | inr off_a ↦ elim (Bool-cases (rep right == rep b)) [
            | inl at_b ↦
                chain (link (inl (ground (arith, both a, both b))))
                  (back (across b ((both b).0 at_b)))
            | inr off_b ↦ link (inl (ground (arith, both a, both b)))
          ]
        ];
        kept = λ a b h. ground (arith, both a, both b);
        joined = λ a b h.
            ground (arith, both a, both b, both right, e.equal_iff a left, e.equal_iff b right, h);
      }

  -- A forest after some unions: which roots it stands for, and that it knows the same items.
  pub record Joins (forest : Dict K K) (rep : K → K) (Link : K → K → Bool) (after : Dict K K)
      : Type ℓ where
    pub roots : K → K
    pub height : K → ℕ
    pub is_forest : IsForest after roots height
    pub is_merged : IsMerged rep roots Link
    pub same_items : (k : K) → knows after k ≡ knows forest k

  root_stays :
      (forest : Dict K K) (rep : K → K) (height : K → ℕ)
      → IsForest forest rep height
      → (k : K) → knows forest k ≡ true
      → height k ≡ 0
      → get forest k ≡ some k
  root_stays forest rep height f k has flat = elim (Option-cases (get forest k)) [
    | inl missing ↦ ground arith
    | inr (parent, at) ↦ elim (Bool-cases (parent == k)) [
      | inl own ↦ ground (arith, e.equal_iff parent k)
      | inr other ↦
          let child : parent ≢ k = λ same. ground (arith, e.equal_iff parent k) in
          ground (arith, f.down k parent at child)
    ]
  ]

  pub union_lem :
      (forest : Dict K K) (rep : K → K) (height : K → ℕ)
      → IsForest forest rep height
      → (left right : K) → knows forest left ≡ true
      → knows forest right ≡ true
      → (after : Dict K K) × (union forest left right ≡ some after)
        × Joins forest rep (pair left right) after
  unfolding union
  union_lem forest rep height f left right has_left has_right =
      let (first, one, g, left_root, same) = find_lem forest rep height f left has_left in
      let (second, two, h, right_root, again) =
        find_lem first rep height g right (ground (arith, same right)) in
      let both = e.equal_iff (rep left) (rep right) in
      let same_items : (k : K) → knows second k ≡ knows forest k =
        λ k. ground (arith, same k, again k) in
      elim (Bool-cases (rep left == rep right)) [
        | inl equal ↦ (
          second,
          rw (union, one, two, equal) refl,
          record {
            roots = rep;
            height = height;
            is_forest = h;
            is_merged =
                IsMerged-refl rep (pair left right)
                  (λ a b l. ground (arith, both, e.equal_iff a left, e.equal_iff b right, l));
            same_items = same_items;
          },
        )
        | inr differ ↦
            let still : get second (rep left) ≡ some (rep left) =
              root_stays second rep height h (rep left) (ground (arith, again (rep left)))
                ((g.top (rep left) left_root).1) in
            let apart : rep left ≢ rep right = λ same_root. ground (arith, both) in
            (
              put second (rep right) (rep left),
              rw (union, one, two, differ) refl,
              record {
                roots = hung rep left right;
                height = raised rep height right;
                is_forest = hung-IsForest second rep height h left right still right_root apart;
                is_merged = hung-IsMerged rep left right;
                same_items = λ k.
                    ground (
                      arith,
                      same_items k,
                      knows-put second (rep right) (rep left) (ground arith) k,
                    );
              },
            )
      ]
