-- ===== src/Risk/Gate.antt =====
-- `check_portfolio` of src/shrap/risk_compliance/risk_officer/gate.py: approve, scale down or veto. What a
-- size would breach, the closure `violation_at`, is an argument: `some` names the limit. So are
-- `truncate`, for `quantize_down`, and the constant BISECTION_PROBE.
-- The notes and the cluster of a decision only explain it and are left out.
use shrap_firm.Prelude.{
  refl, ◌⊎◌, ℕ, zero, suc, ◌≡◌, Bool, true, false, Option, none, some, arith, is_none,
  if◌then◌else◌, Option-cases, inl, inr,
}
use shrap_firm.Prelude.Double.{Double, IsOrdered, ◌<=◌, ◌<<◌, min_float}

-- The keys of `_caps` and `_breaches`.
pub data LimitName : Type 0 where
  ticker_cap gross_exposure net_exposure cluster_cap : LimitName

pub data PortfolioReason : Type 0 where
  no_price invalid_quantity approved_reason scaled_down : PortfolioReason
  exceeds : LimitName → PortfolioReason

pub record PortfolioDecision (F : Type 0) : Type 0 where
  pub approved : Bool
  pub approved_quantity : F
  pub reason_code : PortfolioReason
  pub binding_limit : Option LimitName

abbrev pub bisection_steps : ℕ
bisection_steps = 40

abbrev or_name : Option LimitName → LimitName → LimitName
or_name none name = name
or_name (some found) name = found

-- What `quantize_down` takes from Python's `decimal`: the decimal of a float's shortest text, its cut to
-- `_QUANTUM`, toward zero, and the float of a decimal.
pub record Decimals (F D : Type 0) : Type 0 where
  pub of_repr : F → D
  pub cut : D → D
  pub to_float : D → F

-- `quantize_down`; the cut is total on quantities below 10^19, the precision of a decimal being 28 digits
unfoldable pub quantize_down : {F D : Type 0} → Decimals F D → F → F
quantize_down m quantity = m.to_float (m.cut (m.of_repr quantity))

module _ {F : Type 0} ⦃d : Double F⦄ where
  abbrev pub midpoint : F → F → F
  midpoint low high = d.div (d.add low high) (d.add d.one d.one)

  -- The loop: the lower end after so many halvings.
  unfoldable pub bisect : (F → Option LimitName) → ℕ → F → F → F
  bisect violation_at zero low high = low
  bisect violation_at (suc steps) low high =
      let mid = midpoint low high in
      let fits = is_none (violation_at mid) in
      bisect violation_at steps (if fits then mid else low) (if fits then high else mid)

  abbrev refuse : PortfolioReason → Option LimitName → PortfolioDecision F
  refuse reason limit = record {
    approved = false;
    approved_quantity = d.nought;
    reason_code = reason;
    binding_limit = limit;
  }

  -- The end of `check_portfolio`, when the full size breaches a limit.
  unfoldable pub scale : (F → F) → F → (F → Option LimitName) → F → LimitName → PortfolioDecision F
  scale truncate probe violation_at quantity full =
      let low = truncate (bisect violation_at bisection_steps d.nought quantity) in
      let name = or_name (violation_at (min_float (d.add low probe) quantity)) full in
      if low <= d.nought then refuse (exceeds name) (some name) else record {
        approved = true;
        approved_quantity = low;
        reason_code = scaled_down;
        binding_limit = some name;
      }

  -- `price is None or price <= 0.0`
  abbrev pub no_usable : Option F → Bool
  no_usable none = true
  no_usable (some price) = price <= d.nought

  -- `check_portfolio`
  unfoldable pub check_portfolio :
      (F → F) → F → (F → Option LimitName) → F → Option F → PortfolioDecision F
  check_portfolio truncate probe violation_at quantity price =
      if quantity <= d.nought
      then refuse (if is_none price then no_price else invalid_quantity) none
      else if no_usable price
      then refuse no_price none
      else elim (violation_at quantity) [
        | none ↦ record {
          approved = true;
          approved_quantity = quantity;
          reason_code = approved_reason;
          binding_limit = none;
        }
        | some full ↦ scale truncate probe violation_at quantity full
      ]

  -- The loop ends on a size that fits, or where it began.
  bisect_found :
      (violation_at : F → Option LimitName) (steps : ℕ) (low high : F)
      → (violation_at (bisect violation_at steps low high) ≡ none)
        ⊎ (bisect violation_at steps low high ≡ low)
  unfolding bisect
  bisect_found violation_at zero low high = inr refl
  bisect_found violation_at (suc steps) low high =
      let mid = midpoint low high in
      elim (Option-cases (violation_at mid)) [
        | inl free ↦ elim (bisect_found violation_at steps mid high) [
          | inl fits ↦ rw (bisect, free) (inl fits)
          | inr first ↦ rw (bisect, free) (inl (rw (first) free))
        ]
        | inr (name, over) ↦ rw (bisect, over) (bisect_found violation_at steps low mid)
      ]

  scale_size :
      (truncate : F → F) (probe : F) (violation_at : F → Option LimitName) (quantity : F)
      → (full : LimitName)
      → let r = scale truncate probe violation_at quantity full in
        let size = truncate (bisect violation_at bisection_steps d.nought quantity) in
        r.approved ≡ true → (r.approved_quantity ≡ size) × ((size <= d.nought) ≡ false)
  unfolding scale
  scale_size truncate probe violation_at quantity full granted = ground arith

  pub check_portfolio_full :
      (truncate : F → F) (probe : F) (violation_at : F → Option LimitName) (quantity : F)
      → (price : Option F) → (d.nought << quantity) ≡ true
      → no_usable price ≡ false
      → violation_at quantity ≡ none
      → let r = check_portfolio truncate probe violation_at quantity price in
        (r.approved ≡ true) × (r.approved_quantity ≡ quantity)
  unfolding check_portfolio
  check_portfolio_full truncate probe violation_at quantity price positive usable free =
      ground arith

  -- Whatever is approved is a size that breaches nothing, or such a size truncated.
  pub check_portfolio_found :
      (truncate : F → F) (probe : F) (violation_at : F → Option LimitName) (quantity : F)
      → (price : Option F) → (truncate d.nought <= d.nought) ≡ true
      → let r = check_portfolio truncate probe violation_at quantity price in
        r.approved ≡ true
        → (size : F) × (violation_at size ≡ none)
          × ((r.approved_quantity ≡ size) ⊎ (r.approved_quantity ≡ truncate size))
  unfolding check_portfolio
  check_portfolio_found truncate probe violation_at quantity price no_dust granted =
      elim (Option-cases (violation_at quantity)) [
        | inl free ↦ (quantity, free, inl (ground arith))
        | inr (full, over) ↦
            let size = bisect violation_at bisection_steps d.nought quantity in
            elim (bisect_found violation_at bisection_steps d.nought quantity) [
              | inl fits ↦ (
                size,
                fits,
                inr (ground (arith, scale_size truncate probe violation_at quantity full)),
              )
              | inr first ↦ ground (arith, scale_size truncate probe violation_at quantity full)
            ]
      ]

  -- What the sizes up to the one asked for have to be like for no approval above it: a midpoint lies
  -- between its ends, as it does where their sum does not overflow, and truncation, which is toward
  -- zero, does not raise a size.
  pub record IsHalving (truncate : F → F) (most : F) : Type 0 where
    pub midpoint-ge :
        (a b : F)
        → (d.nought <= a) ≡ true
        → (a <= b) ≡ true
        → (b <= most) ≡ true
        → (a <= midpoint a b) ≡ true
    pub midpoint-le :
        (a b : F)
        → (d.nought <= a) ≡ true
        → (a <= b) ≡ true
        → (b <= most) ≡ true
        → (midpoint a b <= b) ≡ true
    pub truncate-le : (a : F) → (d.nought <= a) ≡ true → (truncate a <= a) ≡ true

  pub IsHalving-below :
      (truncate : F → F) (most less : F)
      → IsOrdered F
      → (less <= most) ≡ true
      → IsHalving truncate most
      → IsHalving truncate less
  IsHalving-below truncate most less laws smaller halves = record {
    midpoint-ge =
        λ a b from up to. halves.midpoint-ge a b from up (laws.le_trans b less most to smaller);
    midpoint-le =
        λ a b from up to. halves.midpoint-le a b from up (laws.le_trans b less most to smaller);
    truncate-le = halves.truncate-le;
  }

  bisect-between :
      (truncate : F → F) (most : F)
      → IsHalving truncate most
      → IsOrdered F
      → (violation_at : F → Option LimitName) (steps : ℕ) (low high : F) → (d.nought <= low) ≡ true
      → (low <= high) ≡ true
      → (high <= most) ≡ true
      → let size = bisect violation_at steps low high in
        ((low <= size) ≡ true) × ((size <= high) ≡ true)
  unfolding bisect
  bisect-between truncate most halves laws violation_at zero low high from below to =
      (laws.le_refl low, below)
  bisect-between truncate most halves laws violation_at (suc steps) low high from below to =
      let mid = midpoint low high in
      let up = halves.midpoint-ge low high from below to in
      let down = halves.midpoint-le low high from below to in
      elim (Option-cases (violation_at mid)) [
        | inl free ↦
            let above = laws.le_trans d.nought low mid from up in
            let (least, greatest) =
              bisect-between truncate most halves laws violation_at steps mid high above down to in
            rw (bisect, free) (laws.le_trans low mid _ up least, greatest)
        | inr (name, over) ↦
            let within = laws.le_trans mid high most down to in
            let (least, greatest) =
              bisect-between truncate most halves laws violation_at steps low mid from up within in
            rw (bisect, over) (least, laws.le_trans _ mid high greatest down)
      ]

  -- An approval is at a usable price.
  pub check_portfolio_usable :
      (truncate : F → F) (probe : F) (violation_at : F → Option LimitName) (quantity : F)
      → (price : Option F)
      → (check_portfolio truncate probe violation_at quantity price).approved ≡ true
      → no_usable price ≡ false
  unfolding check_portfolio
  check_portfolio_usable truncate probe violation_at quantity price granted = ground arith

  -- An approval is for a positive size, at most the one asked for.
  pub check_portfolio-le :
      (truncate : F → F) (probe : F) (violation_at : F → Option LimitName) (quantity : F)
      → IsHalving truncate quantity
      → IsOrdered F
      → (price : Option F)
      → let r = check_portfolio truncate probe violation_at quantity price in
        r.approved ≡ true
        → ((r.approved_quantity <= quantity) ≡ true) × ((d.nought << r.approved_quantity) ≡ true)
  unfolding check_portfolio
  check_portfolio-le truncate probe violation_at quantity halves laws price granted =
      let found = bisect violation_at bisection_steps d.nought quantity in
      let most : (d.nought <= quantity) ≡ true → (truncate found <= quantity) ≡ true = λ h.
        let (least, greatest) =
          bisect-between truncate quantity halves laws violation_at bisection_steps d.nought
            quantity (laws.le_refl d.nought) h (laws.le_refl quantity) in
        laws.le_trans (truncate found) found quantity (halves.truncate-le found least) greatest in
      elim (Option-cases (violation_at quantity)) [
        | inl free ↦ ground (arith, laws.le_refl quantity)
        | inr (full, over) ↦ ground (
          arith,
          laws.le_total quantity d.nought,
          most,
          scale_size truncate probe violation_at quantity full,
        )
      ]
