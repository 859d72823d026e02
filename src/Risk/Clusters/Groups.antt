-- ===== src/Risk/Clusters/Groups.antt =====
-- The groups that `cluster_positions` of src/shrap/risk_compliance/risk_officer/clusters.py collects.
use shrap_firm.Prelude.{
  or_empty, ℕ, ◌≡◌, ◌↔◌, refl, sym, Bool, true, false, ◌&&◌, ◌||◌, some, List, [], ◌∷◌, ◌++◌, arith,
  is_none, Bool-cases, inl, inr, Comparable, ◌==◌, equal_refl, contains, some_of, Option-cases,
}
use shrap_firm.Prelude.Text.{text_Eq}
use shrap_firm.Prelude.Dict.{
  Dict, get, put, get-put, get-nil, Distinct, Distinct-put, some_of-get, get-some_of,
}
use shrap_firm.Risk.Union.{knows, singletons}
use shrap_firm.Risk.Union.Forest.{IsForest, find_lem, singletons-IsForest}
use shrap_firm.Risk.Union.Linked.{Linked, link, Linked-same, Extended, Linked-bind, Linked-respects}
use shrap_firm.Risk.Clusters.{group, groups_of}
use shrap_firm.Risk.Clusters.Linking.{every, link_all_lem}

module _ {ℓ} {K : Type ℓ} ⦃e : Comparable K⦄ where
  -- The entries are the groups of the items seen so far, under their roots.
  record IsGrouped (rep : K → K) (seen : K → Bool) (grouped : Dict K (List K)) : Type ℓ where
    pub distinct : Distinct grouped
    pub members :
        (r : K) (ms : List K)
        → get grouped r ≡ some ms
        → (x : K) → contains ms x ≡ (seen x && rep x == r)
    pub covered : (x : K) → seen x ≡ true → is_none (get grouped (rep x)) ≡ false

  contains-append :
      (xs : List K) (t x : K) → contains (xs ++ (t ∷ [])) x ≡ (contains xs x || t == x)
  contains-append [] t x = ground arith
  contains-append (y ∷ xs) t x = ground (arith, contains-append xs t x)

  add-IsGrouped :
      (rep : K → K) (seen : K → Bool) (grouped : Dict K (List K))
      → IsGrouped rep seen grouped
      → (ticker : K)
      → IsGrouped rep
          (λ x. seen x || ticker == x)
          (put grouped (rep ticker) (or_empty (get grouped (rep ticker)) ++ (ticker ∷ [])))
  add-IsGrouped rep seen grouped g ticker =
      let root = rep ticker in
      let old = or_empty (get grouped root) in
      let read = λ (k : K). get-put grouped root k (old ++ (ticker ∷ [])) in
      let old_members : (x : K) → contains old x ≡ (seen x && rep x == root) = λ x.
        elim (Option-cases (get grouped root)) [
          | inl missing ↦ ground (arith, g.covered x, e.equal_iff (rep x) root)
          | inr (ms, at) ↦ ground (arith, g.members root ms at x)
        ] in
      record {
        distinct = Distinct-put grouped root (old ++ (ticker ∷ [])) g.distinct;
        members = λ r ms at x. elim (Bool-cases (root == r)) [
          | inl own ↦
              let whole : old ++ (ticker ∷ []) ≡ ms = ground (arith, read r) in
              rw (sym whole) (
                ground (
                  arith,
                  contains-append old ticker x,
                  old_members x,
                  e.equal_iff root r,
                  e.equal_iff ticker x,
                  e.equal_iff (rep x) r,
                ))
          | inr other ↦
              let kept : get grouped r ≡ some ms = ground (arith, read r) in
              ground (
                arith,
                g.members r ms kept x,
                e.equal_iff root r,
                e.equal_iff ticker x,
                e.equal_iff (rep x) r,
              )
        ];
        covered = λ x h.
            ground
              (arith, read (rep x), e.equal_iff root (rep x), e.equal_iff ticker x, g.covered x);
      }

  IsGrouped-same :
      (rep : K → K) (one two : K → Bool) (grouped : Dict K (List K))
      → IsGrouped rep one grouped
      → ((x : K) → one x ≡ two x)
      → IsGrouped rep two grouped
  IsGrouped-same rep one two grouped g same = record {
    distinct = g.distinct;
    members = λ r ms at x. ground (arith, g.members r ms at x, same x);
    covered = λ x h. ground (arith, g.covered x, same x);
  }

  group_lem :
      (forest : Dict K K) (rep : K → K) (height : K → ℕ)
      → IsForest forest rep height
      → (seen : K → Bool) (grouped : Dict K (List K)) → IsGrouped rep seen grouped
      → (tickers : List K) → ((k : K) → contains tickers k ≡ true → knows forest k ≡ true)
      → (after : Dict K (List K)) × (group forest grouped tickers ≡ some after)
        × IsGrouped rep (λ x. seen x || contains tickers x) after
  unfolding group
  group_lem forest rep height f seen grouped g [] has = (
    grouped,
    refl,
    IsGrouped-same rep seen (λ x. seen x || contains [] x) grouped g (λ x. ground arith),
  )
  group_lem forest rep height f seen grouped g (ticker ∷ tickers) has =
      let (next, found, h, root, same) =
        find_lem forest rep height f ticker (has ticker (ground (arith, equal_refl ticker))) in
      let (after, rest, k) =
        group_lem next rep height h (λ x. seen x || ticker == x)
          (put grouped (rep ticker) (or_empty (get grouped (rep ticker)) ++ (ticker ∷ [])))
          (add-IsGrouped rep seen grouped g ticker) tickers
          (λ i at. ground (arith, same i, has i)) in
      (
        after,
        rw (group, found) rest,
        IsGrouped-same rep (λ x. (seen x || ticker == x) || contains tickers x)
            (λ x. seen x || contains (ticker ∷ tickers) x) after k (λ x. ground arith),
      )

  -- The names that a group holds, for every group.
  abbrev pub together : K → K → Dict K (List K) → Bool
  together a b grouped = some_of (λ entry. contains entry.1 a && contains entry.1 b) grouped

  together_lem :
      (rep : K → K) (seen : K → Bool) (grouped : Dict K (List K))
      → IsGrouped rep seen grouped
      → (a b : K) → seen a ≡ true
      → seen b ≡ true
      → (together a b grouped ≡ true) ↔ (rep a ≡ rep b)
  together_lem rep seen grouped g a b has_a has_b = (
    λ h.
        let test : K × List K → Bool = λ entry. contains entry.1 a && contains entry.1 b in
        let (root, ms, at, both) = get-some_of test grouped g.distinct h in
        ground (
          arith,
          g.members root ms at a,
          g.members root ms at b,
          e.equal_iff (rep a) root,
          e.equal_iff (rep b) root,
        ),
    λ h. elim (Option-cases (get grouped (rep a))) [
      | inl missing ↦ ground (arith, g.covered a)
      | inr (ms, at) ↦
          some_of-get (λ entry. contains entry.1 a && contains entry.1 b) grouped (rep a) ms at
            (ground (
              arith,
              g.members (rep a) ms at a,
              g.members (rep a) ms at b,
              e.equal_iff (rep b) (rep a),
              equal_refl (rep a),
            ))
    ],
  )

  -- The union-find and the loops come to an end without an error, and two of the names stand in one
  -- group exactly when joined pairs connect them.
  pub groups_of_lem :
      (joined : K → K → Bool) (tickers : List K)
      → (grouped : Dict K (List K)) × (groups_of joined tickers ≡ some grouped)
        × ((a b : K)
            → contains tickers a ≡ true
            → contains tickers b ≡ true
            → (together a b grouped ≡ true) ↔ Linked (λ x y. every joined tickers x y ≡ true) a b)
  unfolding groups_of
  groups_of_lem joined tickers =
      let (start, has) = singletons-IsForest tickers in
      let (forest, linked, j) =
        link_all_lem joined (singletons [] tickers) (λ k. k) (λ k. 0) start tickers
          (λ k h. ground (arith, has k)) in
      let (grouped, done, g) =
        group_lem forest j.roots j.height j.is_forest (λ x. false) []
          (record {
            distinct = record {};
            members = λ r ms at. ground (arith, get-nil {V = List K} r);
            covered = λ x h. ground arith;
          })
          tickers (λ k h. ground (arith, has k, j.same_items k)) in
      let m = j.is_merged in
      let Link = λ (x y : K). every joined tickers x y ≡ true in
      (
        grouped,
        rw (groups_of, linked) done,
        λ a b has_a has_b.
            let same = together_lem j.roots (λ x. contains tickers x) grouped g a b has_a has_b in
            (
              λ h.
                  Linked-bind (Extended (λ k. k) (every joined tickers)) Link
                    (λ x y l. elim l [ inl h ↦ Linked-same Link h | inr h ↦ link h ])
                    (m.found a b (same.0 h)),
              λ h. same.1 (Linked-respects Link j.roots (λ x y l. m.joined x y l) h),
            ),
      )
