-- ===== src/Risk/Breaches.antt =====
-- `_breaches`, `_caps`, `_violation` and the closure `violation_at` of
-- src/shrap/risk_compliance/risk_officer/gate.py, and `check_portfolio` with them. The tolerance 1e-12 is an
-- argument, and so are Python's `sum` of floats and its power `**`.
use shrap_firm.Prelude.{
  or_empty, ◌||◌, ◌≡◌, ◌⊎◌, Bool, true, false, Option, none, some, List, [], ◌∷◌, arith,
  if◌then◌else◌, ◌==◌, contains,
}
use shrap_firm.Prelude.Text.{Text, text_Eq, codes, strip, lower}
use shrap_firm.Prelude.Dict.{Dict}
use shrap_firm.Prelude.Double.{Double, IsOrdered, ◌<=◌, ◌<<◌, abs_float}
use shrap_firm.Risk.Exposure.{
  BookExposure, symbol_of, by_ticker, weight, gross, net, projected, or_nought,
}
use shrap_firm.Risk.Limits.{PortfolioLimits}
use shrap_firm.Risk.Clusters.{Cluster, cluster_positions}
use shrap_firm.Risk.Gate.{
  LimitName, ticker_cap, gross_exposure, net_exposure, cluster_cap, PortfolioDecision,
  check_portfolio, check_portfolio_found, check_portfolio_full, check_portfolio_usable, no_usable,
  IsHalving, check_portfolio-le,
}

-- The keys in the order of the dict.
abbrev pub all_limits : List LimitName
all_limits = ticker_cap ∷ gross_exposure ∷ net_exposure ∷ cluster_cap ∷ []

module _ {F : Type 0} ⦃d : Double F⦄ where
  -- `_signed_delta`
  unfoldable pub signed_delta : Text → F → F → F
  signed_delta side quantity price =
      let magnitude = d.mul quantity price in
      if lower (strip side) == codes "sell" then d.neg magnitude else magnitude

  -- `_cluster_weight_for`
  unfoldable pub cluster_weight_for : List (Cluster F) → Text → F
  cluster_weight_for [] ticker = d.nought
  cluster_weight_for (cluster ∷ clusters) ticker =
      let rest = cluster_weight_for clusters ticker in
      if contains cluster.tickers (symbol_of ticker) then cluster.weight else rest

  abbrev weights_of : F → Dict Text F → Dict Text F
  weights_of nav [] = []
  weights_of nav ((t, value) ∷ rest) = (t, d.div value nav) ∷ weights_of nav rest

  -- `_breaches`, a dict with the four keys. `cluster_positions_lem` says that there are clusters.
  unfoldable pub breaches :
      (List F → F)
      → (F → F → F)
      → BookExposure F
      → Text
      → PortfolioLimits F
      → Dict Text (List F)
      → LimitName
      → F
  breaches sum power book ticker limits history ticker_cap = abs_float (weight book ticker)
  breaches sum power book ticker limits history gross_exposure = gross sum book
  breaches sum power book ticker limits history net_exposure = abs_float (net sum book)
  breaches sum power book ticker limits history cluster_cap =
      cluster_weight_for
        (or_empty (
          cluster_positions sum power (weights_of book.nav (by_ticker book)) history
            limits.correlation_threshold limits.min_cluster_history))
        ticker

  -- `_caps`
  unfoldable pub caps : PortfolioLimits F → LimitName → F
  caps limits ticker_cap = limits.max_ticker_weight
  caps limits gross_exposure = limits.max_gross_exposure
  caps limits net_exposure = limits.max_net_exposure
  caps limits cluster_cap = limits.max_cluster_weight

  -- The loop of `_violation`: the name, the reading and the cap.
  unfoldable pub violation :
      F
      → (LimitName → F)
      → (LimitName → F)
      → (LimitName → F)
      → List LimitName
      → Option (LimitName × F × F)
  violation tolerance readings cap baseline [] = none
  violation tolerance readings cap baseline (name ∷ names) =
      let rest = violation tolerance readings cap baseline names in
      if readings name <= d.add (cap name) tolerance
      then rest
      else if readings name <= d.add (baseline name) tolerance
      then rest
      else some (name, readings name, cap name)

  abbrev name_of : Option (LimitName × F × F) → Option LimitName
  name_of none = none
  name_of (some (name, reading, cap)) = some name

  -- A reading that stops no order: within its cap, or not above what it was before.
  abbrev pub allows : F → F → F → F → Bool
  allows tolerance reading cap before =
      reading <= d.add cap tolerance || reading <= d.add before tolerance

  module _ (sum : List F → F) (power : F → F → F) (tolerance : F) (book : BookExposure F)
      (ticker side : Text) (limits : PortfolioLimits F) (history : Dict Text (List F)) where
    -- The readings before the order, and those of a size of it.
    unfoldable pub before : LimitName → F
    before name = breaches sum power book (symbol_of ticker) limits history name

    unfoldable pub after : F → F → LimitName → F
    after price size name =
        let symbol = symbol_of ticker in
        breaches sum power (projected book symbol (signed_delta side size price)) symbol limits
          history name

    -- The closure `violation_at`.
    unfoldable pub violation_at : F → F → Option (LimitName × F × F)
    violation_at price size = violation tolerance (after price size) (caps limits) before all_limits

    -- `check_portfolio` with it; without a usable price the closure is never called.
    unfoldable pub check_order : (F → F) → F → F → Option F → PortfolioDecision F
    check_order truncate probe quantity price =
        check_portfolio truncate probe (λ size. name_of (violation_at (or_nought price) size))
          quantity price

    -- No reading of this size stops the order.
    abbrev pub Fits : F → F → Type 0
    Fits price size =
        (name : LimitName)
        → allows tolerance (after price size name) (caps limits name) (before name) ≡ true

    violation_at_lem : (price size : F) → name_of (violation_at price size) ≡ none → Fits price size
    unfolding violation_at violation
    violation_at_lem price size fits ticker_cap = ground arith
    violation_at_lem price size fits gross_exposure = ground arith
    violation_at_lem price size fits net_exposure = ground arith
    violation_at_lem price size fits cluster_cap = ground arith

    at_violation : (price size : F) → Fits price size → name_of (violation_at price size) ≡ none
    unfolding violation_at violation
    at_violation price size fits =
        ground (arith, fits ticker_cap, fits gross_exposure, fits net_exposure, fits cluster_cap)

    pub check_order_usable :
        (truncate : F → F) (probe quantity : F) (price : Option F)
        → (check_order truncate probe quantity price).approved ≡ true
        → no_usable price ≡ false
    unfolding check_order
    check_order_usable truncate probe quantity price =
        check_portfolio_usable truncate probe
          (λ size. name_of (violation_at (or_nought price) size)) quantity price

    pub check_order-le :
        (truncate : F → F) (probe quantity : F)
        → IsHalving truncate quantity
        → IsOrdered F
        → (price : Option F)
        → let r = check_order truncate probe quantity price in
          r.approved ≡ true
          → ((r.approved_quantity <= quantity) ≡ true) × ((d.nought << r.approved_quantity) ≡ true)
    unfolding check_order
    check_order-le truncate probe quantity halves laws price =
        check_portfolio-le truncate probe (λ size. name_of (violation_at (or_nought price) size))
          quantity halves laws price

    -- An order of a positive size at a usable price that takes no reading both above its cap and
    -- above what it was, each by more than the tolerance, is approved in full. And whatever is
    -- approved is a size of that kind, or such a size truncated, where truncating zero gives no
    -- more than zero.
    pub check_order_lem :
        (truncate : F → F) (probe quantity : F) (price : Option F)
        → (truncate d.nought <= d.nought) ≡ true
        → let r = check_order truncate probe quantity price in
          ((d.nought << quantity) ≡ true
            → no_usable price ≡ false
            → Fits (or_nought price) quantity
            → (r.approved ≡ true) × (r.approved_quantity ≡ quantity))
          × (r.approved ≡ true
              → (size : F) × Fits (or_nought price) size
                × ((r.approved_quantity ≡ size) ⊎ (r.approved_quantity ≡ truncate size)))
    unfolding check_order
    check_order_lem truncate probe quantity price no_dust =
        let worth = or_nought price in
        let over : F → Option LimitName = λ size. name_of (violation_at worth size) in
        (
          λ positive usable fits.
              let free = at_violation worth quantity fits in
              check_portfolio_full truncate probe over quantity price positive usable free,
          λ granted.
              let (size, free, what) =
                check_portfolio_found truncate probe over quantity price no_dust granted in
              (size, violation_at_lem worth size free, what),
        )
