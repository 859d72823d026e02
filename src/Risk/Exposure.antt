-- ===== src/Risk/Exposure.antt =====
-- src/shrap/risk_compliance/risk_officer/exposure.py: an account's book, and the book after an order.
use shrap_firm.Prelude.{
  ◌≡◌, ◌≢◌, refl, inl, inr, Bool, not, Option, none, some, List, map, [], ◌∷◌, ◌++◌, ◌∙◌, ap, arith,
  ◌==◌, keep, if◌then◌else◌, Bool-cases,
}
use shrap_firm.Prelude.Text.{Text, text_Eq, text_eq_iff, strip, upper}
use shrap_firm.Prelude.Dict.{Dict, get, put, get-put, get-nil}
use shrap_firm.Prelude.Double.{Double, ◌<=◌, same, abs_float}

pub record Position (F : Type 0) : Type 0 where
  pub ticker : Text
  pub quantity : F
  pub market_value : F

pub record BookExposure (F : Type 0) : Type 0 where
  pub nav : F
  pub positions : List (Position F)

-- `ticker.strip().upper()`
unfoldable pub symbol_of : Text → Text
symbol_of ticker = upper (strip ticker)

module _ {F : Type 0} ⦃d : Double F⦄ where
  -- `BookExposure.__post_init__`; `none` is ExposureUnavailable
  unfoldable pub make_book : BookExposure F → Option (BookExposure F)
  make_book b = if b.nav <= d.nought then none else some b

  abbrev pub or_nought : Option F → F
  or_nought none = d.nought
  or_nought (some x) = x

  -- The loops of `by_ticker` and `shares_by_ticker`.
  unfoldable pub add_up : (Position F → F) → Dict Text F → List (Position F) → Dict Text F
  add_up f totals [] = totals
  add_up f totals (p ∷ ps) =
      let key = symbol_of p.ticker in
      add_up f (put totals key (d.add (or_nought (get totals key)) (f p))) ps

  unfoldable pub by_ticker : BookExposure F → Dict Text F
  unfolding add_up
  by_ticker b = add_up (λ p. p.market_value) [] b.positions

  unfoldable pub shares_by_ticker : BookExposure F → Dict Text F
  unfolding add_up
  shares_by_ticker b = add_up (λ p. p.quantity) [] b.positions

  unfoldable pub shares : BookExposure F → Text → F
  shares b ticker = or_nought (get (shares_by_ticker b) (symbol_of ticker))

  unfoldable pub weight : BookExposure F → Text → F
  weight b ticker = d.div (or_nought (get (by_ticker b) (symbol_of ticker))) b.nav

  -- `totals.values()`
  abbrev pub values : Dict Text F → List F
  values [] = []
  values ((k, v) ∷ rest) = v ∷ values rest

  -- `gross` and `net`; `sum` is Python's, on floats
  unfoldable pub gross : (List F → F) → BookExposure F → F
  gross sum b = d.div (sum (map (λ v. abs_float v) (values (by_ticker b)))) b.nav

  unfoldable pub net : (List F → F) → BookExposure F → F
  net sum b = d.div (sum (values (by_ticker b))) b.nav

  abbrev pub is_other : Text → Position F → Bool
  is_other key p = not (symbol_of p.ticker == key)

  abbrev projection : Text → F → Position F
  projection key combined = record { ticker = key; quantity = d.nought; market_value = combined }

  -- What the ticker is worth after the order.
  abbrev pub combined_value : BookExposure F → Text → F → F
  combined_value b ticker delta = d.add (or_nought (get (by_ticker b) (symbol_of ticker))) delta

  unfoldable pub projected : BookExposure F → Text → F → BookExposure F
  projected b ticker delta =
      let key = symbol_of ticker in
      let remaining = keep (is_other key) b.positions in
      let combined = combined_value b ticker delta in
      record {
        nav = b.nav;
        positions =
            if same combined d.nought
            then remaining
            else remaining ++ (projection key combined ∷ []);
      }

  -- The total of one ticker, from a total so far.
  total : (Position F → F) → Text → Option F → List (Position F) → Option F
  total f key so_far [] = so_far
  total f key so_far (p ∷ ps) =
      total f key
        (if symbol_of p.ticker == key then some (d.add (or_nought so_far) (f p)) else so_far) ps

  get-add_up :
      (f : Position F → F) (totals : Dict Text F) (ps : List (Position F)) (key : Text)
      → get (add_up f totals ps) key ≡ total f key (get totals key) ps
  unfolding add_up total
  get-add_up f totals [] key = refl
  get-add_up f totals (p ∷ ps) key =
      let own = symbol_of p.ticker in
      let next = d.add (or_nought (get totals own)) (f p) in
      get-add_up f (put totals own next) ps key
      ∙ ap (λ o. total f key o ps)
          (ground (arith, get-put totals own key next, text_eq_iff own key))

  total-keep_same :
      (f : Position F → F) (key : Text) (so_far : Option F) (ps : List (Position F))
      → total f key so_far (keep (is_other key) ps) ≡ so_far
  unfolding total
  total-keep_same f key so_far [] = refl
  total-keep_same f key so_far (p ∷ ps) = ground (arith, total-keep_same f key so_far ps)

  total-keep_other :
      (f : Position F → F) (key other : Text) (so_far : Option F) (ps : List (Position F))
      → key ≢ other
      → total f other so_far (keep (is_other key) ps) ≡ total f other so_far ps
  unfolding total
  total-keep_other f key other so_far [] ne = refl
  total-keep_other f key other so_far (p ∷ ps) ne =
      let own = symbol_of p.ticker in
      let next = if own == other then some (d.add (or_nought so_far) (f p)) else so_far in
      ground (
        arith,
        text_eq_iff own key,
        text_eq_iff own other,
        total-keep_other f key other next ps ne,
        total-keep_other f key other so_far ps ne,
      )

  total-append :
      (f : Position F → F) (key : Text) (ps qs : List (Position F)) (so_far : Option F)
      → total f key so_far (ps ++ qs) ≡ total f key (total f key so_far ps) qs
  unfolding total
  total-append f key [] qs so_far = refl
  total-append f key (p ∷ ps) qs so_far =
      let own = symbol_of p.ticker in
      total-append f key ps qs
        (if own == key then some (d.add (or_nought so_far) (f p)) else so_far)

  -- The totals after an order, from those of the positions that stay.
  get-projected :
      (b : BookExposure F) (ticker : Text) (delta : F) (key : Text)
      → let rest =
          total (λ p. p.market_value) key none (keep (is_other (symbol_of ticker)) b.positions) in
        let worth = combined_value b ticker delta in
        get (by_ticker (projected b ticker delta)) key ≡ (
          if same worth d.nought
          then rest
          else total (λ p. p.market_value) key rest (projection (symbol_of ticker) worth ∷ []))
  unfolding projected by_ticker
  get-projected b ticker delta key =
      let f : Position F → F = λ p. p.market_value in
      let own = symbol_of ticker in
      let remaining = keep (is_other own) b.positions in
      let worth = combined_value b ticker delta in
      let last = projection own worth ∷ [] in
      elim (Bool-cases (same worth d.nought)) [
        | inl zero ↦
            rw (projected, zero)
              (get-add_up f [] remaining key ∙ ap (λ o. total f key o remaining) (get-nil key))
        | inr kept ↦
            rw (projected, kept)
              (get-add_up f [] (remaining ++ last) key
                ∙ ap (λ o. total f key o (remaining ++ last)) (get-nil key)
                ∙ total-append f key remaining last none)
      ]

  -- An order that changes the ticker's value by `delta` gives a book with the same NAV in which
  -- that ticker is worth the sum of its old value and `delta`, or is absent when that is zero,
  -- and in which every other ticker is worth what it was. The ticker is one that is stripped and
  -- upper-case already, and adding to zero is exact.
  pub projected_lem :
      (b : BookExposure F) (ticker : Text) (delta : F)
      → ((x : F) → d.add d.nought x ≡ x)
      → symbol_of ticker ≡ ticker
      → let after = projected b ticker delta in
        let worth = combined_value b ticker delta in
        (after.nav ≡ b.nav)
        × (get (by_ticker after) ticker ≡ (if same worth d.nought then none else some worth))
        × ((other : Text) → ticker ≢ other → get (by_ticker after) other ≡ get (by_ticker b) other)
  unfolding projected by_ticker total
  projected_lem b ticker delta exact normal =
      let f : Position F → F = λ p. p.market_value in
      let own = symbol_of ticker in
      let worth = combined_value b ticker delta in
      let again : symbol_of own ≡ own = rw (normal, normal) refl in
      (
        refl,
        ground (
          arith,
          get-projected b ticker delta ticker,
          total-keep_same f ticker none b.positions,
          text_eq_iff own ticker,
          text_eq_iff (symbol_of own) ticker,
          exact worth,
        ),
        λ other ne. ground (
          arith,
          get-projected b ticker delta other,
          total-keep_other f ticker other none b.positions ne,
          text_eq_iff (symbol_of own) other,
          get-add_up f [] b.positions other,
          get-nil {V = F} other,
        ),
      )
