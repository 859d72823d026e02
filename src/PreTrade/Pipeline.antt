-- ===== src/PreTrade/Pipeline.antt =====
-- src/shrap/risk_compliance/pre_trade_checker_agent.py: one intent through the gates. The Risk Officer's
-- assessment is an argument, a function of the quantity that reaches it; a gate that is switched off
-- is `none`. The audit row is left out: its failure is swallowed and changes no decision.
use shrap_firm.Prelude.{ℕ, Bool, true, false, not, Option, none, some, if◌then◌else◌}
use shrap_firm.Prelude.Text.{Text}
use shrap_firm.Prelude.Double.{Double, ◌<<◌}
use shrap_firm.PreTrade.Policy.{Reason, portfolio, Intent, RiskPolicy, check}
use shrap_firm.PreTrade.Tier3.{Fetch, Cache}
use shrap_firm.PreTrade.Tier3 as Membership
use shrap_firm.PreTrade.RateLimit.{RateLimitConfig, Request, acquire}
use shrap_firm.PreTrade.RateLimit.Redis.{RateRedis}

-- The fields of the decision payload that later gates read or write. `intent_quantity` is the quantity
-- in `approved_intent_payload`, which the Execution Agent submits; a veto removes that payload.
pub record Decision (F : Type 0) : Type 0 where
  pub approved : Bool
  pub reason_code : Reason
  pub ticker : Text
  pub approved_quantity : F
  pub intent_quantity : Option F

-- The officer's verdict on one quantity.
pub record Assessment (F : Type 0) : Type 0 where
  pub approved : Bool
  pub approved_quantity : F
  pub reason_code : Text

-- The Tier 3 gate for one call: its time to live, the clock and what the query would give.
pub record Tier3Gate : Type 0 where
  pub ttl : ℕ
  pub now : ℕ
  pub fetch : Fetch

-- The rate limiter for one call: its settings and the day's label.
pub record Limiter : Type 0 where
  pub config : RateLimitConfig
  pub today : Text

-- What the gates remember.
pub record Memory (S : Type 0) : Type 0 where
  pub cache : Cache
  pub redis : S

pub data Stream : Type 0 where
  risk_approved risk_vetoed : Stream

module _ {F : Type 0} ⦃d : Double F⦄ where
  -- `build_risk_decision_payload`
  unfoldable pub build_risk_decision : RiskPolicy F → Intent F → Decision F
  build_risk_decision p i =
      let r = check p i in
      record {
        approved = r.approved;
        reason_code = r.reason_code;
        ticker = r.ticker;
        approved_quantity = r.approved_quantity;
        intent_quantity = if r.approved then some r.approved_quantity else none;
      }

  -- `_downgrade_to_veto`
  unfoldable pub downgrade_to_veto : Reason → Decision F → Decision F
  downgrade_to_veto reason x = record x {
    approved = false;
    reason_code = reason;
    approved_quantity = d.nought;
    intent_quantity = none;
  }

  -- `_scale_down`
  unfoldable pub scale_down : F → Reason → Decision F → Decision F
  scale_down quantity reason x = record x {
    approved = true;
    reason_code = reason;
    approved_quantity = quantity;
    intent_quantity = elim x.intent_quantity [ none ↦ none | some old ↦ some quantity ];
  }

  abbrev pub apply_veto : Option Reason → Decision F → Decision F
  apply_veto none x = x
  apply_veto (some reason) x = downgrade_to_veto reason x

  -- The Tier 3 step of `process_intent_event`.
  unfoldable pub tier3_step : Option Tier3Gate → Decision F → Cache → Decision F × Cache
  tier3_step none x cache = (x, cache)
  tier3_step (some g) x cache =
      if x.approved
      then (let (veto, cache') = Membership.check g.ttl g.now x.ticker g.fetch cache in
          (apply_veto veto x, cache'))
      else (x, cache)

  -- `_apply_portfolio_gate`, with the assessment at hand
  unfoldable pub apply_assessment : Assessment F → Decision F → Decision F
  apply_assessment a x =
      if not a.approved
      then downgrade_to_veto (portfolio a.reason_code) x
      else if a.approved_quantity << x.approved_quantity
      then scale_down a.approved_quantity (portfolio a.reason_code) x
      else x

  unfoldable pub portfolio_step : Option (F → Assessment F) → Decision F → Decision F
  portfolio_step none x = x
  portfolio_step (some assess) x =
      if x.approved then apply_assessment (assess x.approved_quantity) x else x

  module _ {S : Type 0} ⦃r : RateRedis S⦄ where
    -- The rate step of `process_intent_event`.
    unfoldable pub rate_step : Option Limiter → Intent F → Decision F → S → Decision F × S
    rate_step none i x s = (x, s)
    rate_step (some l) i x s =
        if x.approved
        then (let q : Request = record {
          ticker = x.ticker;
          account_id = some i.account_id;
          slot = i.slot;
        } in
            let (veto, s') = acquire l.config l.today q s in (apply_veto veto x, s'))
        else (x, s)

    -- `process_intent_event`: the stream that the result goes to, the payload, and what is remembered.
    unfoldable pub process_intent_event :
        RiskPolicy F
        → Option Tier3Gate
        → Option (F → Assessment F)
        → Option Limiter
        → Intent F
        → Memory S
        → Stream × Decision F × Memory S
    unfolding tier3_step portfolio_step rate_step build_risk_decision
    process_intent_event p gate officer limiter i m =
        let (after_tier3, cache) = tier3_step gate (build_risk_decision p i) m.cache in
        let assessed = portfolio_step officer after_tier3 in
        let (final, redis) = rate_step limiter i assessed m.redis in
        (
          if final.approved then risk_approved else risk_vetoed,
          final,
          record { cache = cache; redis = redis },
        )
