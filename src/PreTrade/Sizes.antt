-- ===== src/PreTrade/Sizes.antt =====
-- What the deterministic checker of src/shrap/risk_compliance/pre_trade.py approves, and how much.
use shrap_firm.Prelude.{◌≡◌, ◌↔◌, ◌⊎◌, true, false, some, arith, contains}
use shrap_firm.Prelude.Text.{text_Eq, upper}
use shrap_firm.Prelude.Double.{Double, IsOrdered, ◌<=◌, ◌<<◌}
use shrap_firm.PreTrade.Policy.{
  number, numeral, Intent, RiskPolicy, make_policy, parse_requested_quantity, check, is_paper,
}

module _ {F : Type 0} ⦃d : Double F⦄ where
  -- What an intent must be for the policy to approve it.
  pub record IsEligible (p : RiskPolicy F) (i : Intent F) (q : F) : Type 0 where
    pub finite : (i.quantity ≡ number q) ⊎ (i.quantity ≡ numeral q)
    pub paper : is_paper i.mode ≡ true
    pub running : p.kill_switch_active ≡ false
    pub listed :
        (p.universe_check_enabled ≡ false) ⊎ (contains p.allowed_universe (upper i.ticker) ≡ true)
    pub positive : (d.nought << q) ≡ true

  -- The checker approves an intent exactly when its quantity is a finite positive number, or a
  -- string that `float` reads as one, its mode is paper, the kill switch is off and the universe check is off or lists the upper-case ticker.
  pub check_iff_IsEligible :
      (p : RiskPolicy F) (i : Intent F) → ((check p i).approved ≡ true) ↔ (q : F) × IsEligible p i q
  unfolding check
  check_iff_IsEligible p i = (
    λ e. (
      (parse_requested_quantity i.quantity).0,
      record {
        finite = ground arith;
        paper = ground arith;
        running = ground arith;
        listed = ground arith;
        positive = ground arith;
      },
    ),
    λ (q, h). let finite = h.finite in ground arith,
  )

  -- Under a policy that its constructor accepts, an approved quantity is positive and exceeds neither
  -- the requested quantity nor the policy's maximum, and a refusal approves nothing.
  pub check_bounds :
      IsOrdered F
      → (raw p : RiskPolicy F) (i : Intent F) → make_policy raw ≡ some p
      → let r = check p i in
        (r.approved ≡ true
          → ((d.nought << r.approved_quantity) ≡ true)
            × ((r.approved_quantity <= r.requested_quantity) ≡ true)
            × ((r.approved_quantity <= p.max_quantity_per_order) ≡ true))
        × (r.approved ≡ false → r.approved_quantity ≡ d.nought)
  unfolding check make_policy
  check_bounds laws raw p i e =
      let q = (parse_requested_quantity i.quantity).0 in
      let m = p.max_quantity_per_order in
      let refl_q = laws.le_refl q in
      let refl_m = laws.le_refl m in
      let total = laws.le_total m q in
      (λ h. (ground arith, ground arith, ground arith), λ h. ground arith)
