-- ===== src/Risk/Sizing.antt =====
-- src/shrap/risk_compliance/risk_officer/sizing.py and `stage_fraction` of limits.py: how much of a
-- requested quantity a stage, a regime and a belief about skill permit. Of the posterior only its
-- `fraction` is read. The labels of a decision are left out.
use shrap_firm.Prelude.{
  ◌≡◌, Bool, true, false, ◌&&◌, Option, none, some, [], ◌∷◌, arith, if◌then◌else◌,
}
use shrap_firm.Prelude.Text.{Text, text_Eq, codes, strip, lower}
use shrap_firm.Prelude.Dict.{Dict, get}
use shrap_firm.Prelude.Double.{Double, IsOrdered, ◌<=◌, ◌<<◌, min_float, max_float}
use shrap_firm.Risk.Limits.{half, quarter}

module _ {F : Type 0} ⦃d : Double F⦄ where
  -- `MIN_TRADEABLE_NOTIONAL`
  abbrev pub min_tradeable_notional : F
  min_tradeable_notional = d.one

  -- 0.8, as four fifths
  abbrev four_fifths : F
  four_fifths =
      let four = d.add (d.add d.one d.one) (d.add d.one d.one) in d.div four (d.add four d.one)

  -- `STAGE_FRACTIONS`
  abbrev pub stage_fractions : Dict Text F
  stage_fractions =
      (codes "paper", four_fifths)
      ∷ (codes "small-size-paper", quarter)
      ∷ (codes "live-paper", half)
      ∷ []

  abbrev or_quarter : Option F → F
  or_quarter none = quarter
  or_quarter (some fraction) = fraction

  -- `stage_fraction` of a stage that is given
  unfoldable pub stage_fraction : Text → F
  stage_fraction stage = or_quarter (get stage_fractions (lower (strip stage)))

  -- `0.0 < quantity * price < MIN_TRADEABLE_NOTIONAL`
  unfoldable pub is_dust : F → F → Bool
  is_dust quantity price =
      d.nought << d.mul quantity price && d.mul quantity price << min_tradeable_notional

  abbrev is_dust_at : F → Option F → Bool
  is_dust_at quantity none = false
  is_dust_at quantity (some price) = is_dust quantity price

  abbrev or_fraction : F → Option F → F
  or_fraction fraction none = fraction
  or_fraction fraction (some posterior) = posterior

  -- `size_intent`, its `approved_quantity`
  unfoldable pub size_intent : F → Text → F → Option F → Option F → F
  size_intent requested stage multiplier reference_price posterior =
      let scale =
        d.mul (or_fraction (stage_fraction stage) posterior)
          (max_float d.nought (min_float multiplier d.one)) in
      let wanted = if d.nought << requested then d.mul requested scale else d.nought in
      let approved = max_float d.nought (min_float wanted requested) in
      if is_dust_at approved reference_price then d.nought else approved

  -- A positive size is at most what was requested.
  pub size_intent-le :
      IsOrdered F
      → (requested : F) (stage : Text) (multiplier : F) (price posterior : Option F)
      → (d.nought << size_intent requested stage multiplier price posterior) ≡ true
      → (size_intent requested stage multiplier price posterior <= requested) ≡ true
  unfolding size_intent
  size_intent-le laws requested stage multiplier price posterior positive =
      let scale =
        d.mul (or_fraction (stage_fraction stage) posterior)
          (max_float d.nought (min_float multiplier d.one)) in
      let wanted = if d.nought << requested then d.mul requested scale else d.nought in
      ground (
        arith,
        laws.le_refl d.nought,
        laws.le_refl requested,
        laws.le_total requested wanted,
        laws.le_total wanted requested,
      )
