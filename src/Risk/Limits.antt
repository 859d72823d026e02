-- ===== src/Risk/Limits.antt =====
-- src/shrap/risk_compliance/risk_officer/limits.py: the exposure caps, and the regime that tightens them.
use shrap_firm.Prelude.{
  ℕ, ◌≡◌, refl, Bool, true, ◌&&◌, Option, none, some, [], ◌∷◌, arith, leb, if◌then◌else◌,
  Bool-cases, Option-cases, inl, inr,
}
use shrap_firm.Prelude.Text.{Text, text_Eq, codes, strip, lower}
use shrap_firm.Prelude.Dict.{Dict, get}
use shrap_firm.Prelude.Double.{Double, IsOrdered, ◌<=◌, ◌<<◌, min_float}

pub record PortfolioLimits (F : Type 0) : Type 0 where
  pub max_ticker_weight : F
  pub max_gross_exposure : F
  pub max_net_exposure : F
  pub max_cluster_weight : F
  pub max_daily_loss : F
  pub max_strategy_drawdown : F
  pub correlation_threshold : F
  pub min_cluster_history : ℕ

module _ {F : Type 0} ⦃d : Double F⦄ where
  abbrev pub half : F
  half = d.div d.one (d.add d.one d.one)

  -- 0.25, which is also `NO_REGIME_MULTIPLIER`
  abbrev pub quarter : F
  quarter = d.div half (d.add d.one d.one)

  -- The low ends of `REGIME_BANDS`; the high ends are not read.
  abbrev pub regime_bands : Dict Text F
  regime_bands =
      (codes "late-cycle-melt-up", d.add half quarter)
      ∷ (codes "crisis-recovery", d.add half quarter)
      ∷ (codes "stagflation", half)
      ∷ (codes "wartime", quarter)
      ∷ (codes "unknown", quarter)
      ∷ []

  -- The fallback on the label.
  unfoldable pub labelled_multiplier : Option Text → F
  labelled_multiplier none = quarter
  labelled_multiplier (some label) = elim (get regime_bands (lower (strip label))) [
    | none ↦ quarter
    | some known ↦ min_float known d.one
  ]

  -- `regime_multiplier`
  unfoldable pub regime_multiplier : Option Text → Option (F × F) → F
  unfolding labelled_multiplier
  regime_multiplier label none = labelled_multiplier label
  regime_multiplier label (some (a, b)) =
      let low = min_float a b in
      if d.nought << low then min_float low d.one else labelled_multiplier label

  abbrev in_range : F → Bool
  in_range value = d.nought << value && value <= d.one

  -- `PortfolioLimits.__post_init__`: false is the ValueError
  unfoldable pub is_valid : PortfolioLimits F → Bool
  is_valid l =
      (in_range l.max_ticker_weight
        && (in_range l.max_gross_exposure
            && (in_range l.max_net_exposure
                && (in_range l.max_cluster_weight
                    && (in_range l.max_daily_loss && in_range l.max_strategy_drawdown)))))
      && ((d.neg d.one <= l.correlation_threshold && l.correlation_threshold <= d.one)
          && leb 2 l.min_cluster_history)

  -- `scaled_for_regime`
  unfoldable pub scaled_for_regime : F → PortfolioLimits F → PortfolioLimits F
  scaled_for_regime multiplier l = if d.one <= multiplier then l else record l {
    max_ticker_weight = d.mul l.max_ticker_weight multiplier;
    max_gross_exposure = d.mul l.max_gross_exposure multiplier;
    max_net_exposure = d.mul l.max_net_exposure multiplier;
    max_cluster_weight = d.mul l.max_cluster_weight multiplier;
  }

  -- No cap of the one is above the same cap of the other.
  pub record IsWithin (l m : PortfolioLimits F) : Type 0 where
    pub ticker : (l.max_ticker_weight <= m.max_ticker_weight) ≡ true
    pub gross : (l.max_gross_exposure <= m.max_gross_exposure) ≡ true
    pub net : (l.max_net_exposure <= m.max_net_exposure) ≡ true
    pub cluster : (l.max_cluster_weight <= m.max_cluster_weight) ≡ true
    pub daily_loss : l.max_daily_loss ≡ m.max_daily_loss
    pub drawdown : l.max_strategy_drawdown ≡ m.max_strategy_drawdown

  min_float-one : IsOrdered F → (x : F) → (min_float x d.one <= d.one) ≡ true
  min_float-one laws x =
      ground (arith, laws.le_refl d.one, laws.le_total x d.one, laws.le_total d.one x)

  labelled_multiplier-le :
      IsOrdered F
      → (quarter <= d.one) ≡ true
      → (label : Option Text) → (labelled_multiplier label <= d.one) ≡ true
  unfolding labelled_multiplier
  labelled_multiplier-le laws small none = small
  labelled_multiplier-le laws small (some label) =
      elim (Option-cases (get regime_bands (lower (strip label)))) [
        | inl unlisted ↦ ground arith
        | inr (known, listed) ↦ rw (labelled_multiplier, listed) (min_float-one laws known)
      ]

  regime_multiplier-le :
      IsOrdered F
      → (quarter <= d.one) ≡ true
      → (label : Option Text) (band : Option (F × F))
      → (regime_multiplier label band <= d.one) ≡ true
  unfolding regime_multiplier
  regime_multiplier-le laws small label none = labelled_multiplier-le laws small label
  regime_multiplier-le laws small label (some (a, b)) =
      let low = min_float a b in
      let capped = min_float-one laws low in
      let fallback = labelled_multiplier-le laws small label in
      elim (Bool-cases (d.nought << low)) [
        | inl positive ↦ rw (regime_multiplier, positive) capped
        | inr other ↦ rw (regime_multiplier, other) fallback
      ]

  IsWithin-refl : IsOrdered F → (l : PortfolioLimits F) → IsWithin l l
  IsWithin-refl laws l = record {
    ticker = laws.le_refl l.max_ticker_weight;
    gross = laws.le_refl l.max_gross_exposure;
    net = laws.le_refl l.max_net_exposure;
    cluster = laws.le_refl l.max_cluster_weight;
    daily_loss = refl;
    drawdown = refl;
  }

  -- Whatever the label and the band say, the multiplier of a regime is at most one, and the
  -- limits that it gives have no cap above the given one and the same loss and drawdown limits.
  -- The given limits are valid, a quarter is at most one, and multiplying a positive number by
  -- one or less does not raise it.
  pub scaled_for_regime_lem :
      IsOrdered F
      → (quarter <= d.one) ≡ true
      → ((a m : F) → (d.nought << a) ≡ true → (m <= d.one) ≡ true → (d.mul a m <= a) ≡ true)
      → (label : Option Text) (band : Option (F × F)) (l : PortfolioLimits F) → is_valid l ≡ true
      → let m = regime_multiplier label band in
        ((m <= d.one) ≡ true) × IsWithin (scaled_for_regime m l) l
  unfolding scaled_for_regime is_valid
  scaled_for_regime_lem laws small shrinks label band l valid =
      let m = regime_multiplier label band in
      let most_one = regime_multiplier-le laws small label band in
      let smaller = λ (a : F) (p : (d.nought << a) ≡ true). shrinks a m p most_one in
      (
        most_one,
        elim (Bool-cases (d.one <= m)) [
          | inl full ↦ rw (scaled_for_regime, full) (IsWithin-refl laws l)
          | inr part ↦
              rw (scaled_for_regime, part)
                (record {
                  ticker = smaller l.max_ticker_weight (ground arith);
                  gross = smaller l.max_gross_exposure (ground arith);
                  net = smaller l.max_net_exposure (ground arith);
                  cluster = smaller l.max_cluster_weight (ground arith);
                  daily_loss = refl;
                  drawdown = refl;
                })
        ],
      )
