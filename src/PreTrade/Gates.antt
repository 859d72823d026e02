-- ===== src/PreTrade/Gates.antt =====
-- The gates of src/shrap/risk_compliance/pre_trade_checker_agent.py together: each can only tighten, and
-- the rate limiter is asked last.
use shrap_firm.Prelude.{
  ◌≡◌, refl, Bool, true, false, ◌&&◌, Option, none, some, arith, if◌then◌else◌, is_none,
}
use shrap_firm.Prelude.Text.{Text}
use shrap_firm.Prelude.Double.{Double, IsOrdered, ◌<=◌, min_float}
use shrap_firm.PreTrade.Policy.{Intent, RiskPolicy, check, make_policy}
use shrap_firm.PreTrade.Sizes.{check_bounds}
use shrap_firm.PreTrade.Tier3.{Fetch, Cache}
use shrap_firm.PreTrade.Tier3 as Membership
use shrap_firm.PreTrade.RateLimit.{acquire}
use shrap_firm.PreTrade.RateLimit.Redis.{RateRedis}
use shrap_firm.PreTrade.Pipeline.{
  Assessment, Tier3Gate, Limiter, Memory, risk_approved, risk_vetoed, build_risk_decision,
  downgrade_to_veto, scale_down, tier3_step, apply_assessment, portfolio_step, rate_step,
  process_intent_event,
}

-- The membership gate lets the ticker pass, or is switched off.
abbrev pub tier3_passes : Option Tier3Gate → Text → Cache → Bool
tier3_passes none ticker cache = true
tier3_passes (some g) ticker cache = is_none (Membership.check g.ttl g.now ticker g.fetch cache).0

module _ {F : Type 0} ⦃d : Double F⦄ where
  -- The officer approves some of the quantity, or is switched off.
  abbrev pub officer_passes : Option (F → Assessment F) → F → Bool
  officer_passes none q = true
  officer_passes (some assess) q = (assess q).approved

  -- What the officer leaves of a quantity: it scales down, never up.
  abbrev narrow : Option (F → Assessment F) → F → F
  narrow none q = q
  narrow (some assess) q = min_float q (assess q).approved_quantity

  narrow-le :
      IsOrdered F
      → (officer : Option (F → Assessment F)) (q : F)
      → ((narrow officer q <= q) ≡ true)
        × ((assess : F → Assessment F)
            → officer ≡ some assess
            → (narrow officer q <= (assess q).approved_quantity) ≡ true)
  narrow-le laws none q = (laws.le_refl q, λ assess e. ground arith)
  narrow-le laws (some o) q =
      let size = (o q).approved_quantity in
      let total = laws.le_total size q in
      let refl_q = laws.le_refl q in
      let refl_size = laws.le_refl size in (ground arith, λ assess e. ground arith)

  -- Everything before the rate limiter.
  abbrev pub gates_pass :
      RiskPolicy F → Option Tier3Gate → Option (F → Assessment F) → Intent F → Cache → Bool
  gates_pass p gate officer i cache =
      let r = check p i in
      r.approved && (tier3_passes gate r.ticker cache && officer_passes officer r.approved_quantity)

  module _ {S : Type 0} ⦃r : RateRedis S⦄ where
    abbrev pub limiter_passes : Option Limiter → Text → Intent F → S → Bool
    limiter_passes none ticker i s = true
    limiter_passes (some l) ticker i s =
        is_none
          (acquire l.config l.today
            (record { ticker = ticker; account_id = some i.account_id; slot = i.slot }) s).0

    -- An intent reaches the approved stream exactly when the policy approves it and every gate that is
    -- switched on lets it pass; then the order to submit carries the approved quantity. Otherwise it
    -- goes to the vetoed stream with no order to submit.
    pub process_intent_event_iff :
        (p : RiskPolicy F) (gate : Option Tier3Gate) (officer : Option (F → Assessment F))
        (limiter : Option Limiter) (i : Intent F) (m : Memory S)
        → let (stream, x, _) = process_intent_event p gate officer limiter i m in
          let pass =
            gates_pass p gate officer i m.cache
            && limiter_passes limiter (check p i).ticker i m.redis in
          (stream ≡ (if pass then risk_approved else risk_vetoed))
          × (x.intent_quantity ≡ (if pass then some x.approved_quantity else none))
    unfolding process_intent_event build_risk_decision tier3_step portfolio_step apply_assessment
        rate_step downgrade_to_veto scale_down
    process_intent_event_iff p none none none i m = (ground arith, ground arith)
    process_intent_event_iff p none none (some l) i m = (ground arith, ground arith)
    process_intent_event_iff p none (some o) none i m = (ground arith, ground arith)
    process_intent_event_iff p none (some o) (some l) i m = (ground arith, ground arith)
    process_intent_event_iff p (some g) none none i m = (ground arith, ground arith)
    process_intent_event_iff p (some g) none (some l) i m = (ground arith, ground arith)
    process_intent_event_iff p (some g) (some o) none i m = (ground arith, ground arith)
    process_intent_event_iff p (some g) (some o) (some l) i m = (ground arith, ground arith)

    -- A rate slot is claimed only by an order that no other gate refuses: if the policy, the membership
    -- gate or the officer vetoes the intent, Redis is left exactly as it was.
    pub slot_for_survivors :
        (p : RiskPolicy F) (gate : Option Tier3Gate) (officer : Option (F → Assessment F))
        (limiter : Option Limiter) (i : Intent F) (m : Memory S)
        → gates_pass p gate officer i m.cache ≡ false
        → (process_intent_event p gate officer limiter i m).2.redis ≡ m.redis
    unfolding process_intent_event build_risk_decision tier3_step portfolio_step apply_assessment
        rate_step downgrade_to_veto scale_down
    slot_for_survivors p gate officer none i m e = refl
    slot_for_survivors p none none (some l) i m e = ground arith
    slot_for_survivors p none (some o) (some l) i m e = ground arith
    slot_for_survivors p (some g) none (some l) i m e = ground arith
    slot_for_survivors p (some g) (some o) (some l) i m e = ground arith

    order_size :
        (p : RiskPolicy F) (gate : Option Tier3Gate) (officer : Option (F → Assessment F))
        (limiter : Option Limiter) (i : Intent F) (m : Memory S) (q : F)
        → (process_intent_event p gate officer limiter i m).1.intent_quantity ≡ some q
        → ((check p i).approved ≡ true) × (q ≡ narrow officer (check p i).approved_quantity)
    unfolding process_intent_event build_risk_decision tier3_step portfolio_step apply_assessment
        rate_step downgrade_to_veto scale_down
    order_size p none none none i m q e = ground arith
    order_size p none none (some l) i m q e = ground arith
    order_size p none (some o) none i m q e = ground arith
    order_size p none (some o) (some l) i m q e = ground arith
    order_size p (some g) none none i m q e = ground arith
    order_size p (some g) none (some l) i m q e = ground arith
    order_size p (some g) (some o) none i m q e = ground arith
    order_size p (some g) (some o) (some l) i m q e = ground arith

    -- No gate raises a size: under a policy that its constructor accepts, the quantity of an order to
    -- submit exceeds neither the requested quantity, nor the policy's maximum, nor what the officer
    -- approved.
    pub order-le :
        IsOrdered F
        → (raw p : RiskPolicy F) (gate : Option Tier3Gate) (officer : Option (F → Assessment F))
          (limiter : Option Limiter) (i : Intent F) (m : Memory S) (q : F)
        → make_policy raw ≡ some p
        → (process_intent_event p gate officer limiter i m).1.intent_quantity ≡ some q
        → ((q <= (check p i).requested_quantity) ≡ true)
          × ((q <= p.max_quantity_per_order) ≡ true)
          × ((assess : F → Assessment F)
              → officer ≡ some assess
              → (q <= (assess (check p i).approved_quantity).approved_quantity) ≡ true)
    order-le laws raw p gate officer limiter i m q accepted e =
        let r = check p i in
        let (approved, size) = order_size p gate officer limiter i m q e in
        let (_, below_request, below_max) = (check_bounds laws raw p i accepted).0 approved in
        let (below_check, below_officer) = narrow-le laws officer r.approved_quantity in
        rw size (
          laws.le_trans _ _ _ below_check below_request,
          laws.le_trans _ _ _ below_check below_max,
          below_officer,
        )
