-- ===== src/Examples/Gates.antt =====
-- Intents at the gates before the trade.
use shrap_firm.Prelude.{
  ◌-◌, ◌≤◌, ◌≡◌, ◌⊎◌, ◌↔◌, refl, true, false, ◌&&◌, none, some, List, [], ◌∷◌, arith, list_eq,
  if◌then◌else◌,
}
use shrap_firm.Prelude.Text.{Text, text_Eq, text_eq, codes, strip, upper, lower, is_space}
use shrap_firm.Prelude.Dict.{get, put}
use shrap_firm.Prelude.Double.{◌<=◌}
use shrap_firm.PreTrade.Policy.{
  Intent, RiskPolicy, number, numeral, check, make_policy, size, parse_requested_quantity, is_paper,
}
use shrap_firm.PreTrade.Tier3 as Membership
use shrap_firm.PreTrade.Tier3.{
  Fetch, raises, answers, Lookup, cache_after, is_active, vouched, symbol_of, check_fails_closed,
  consult, is_active_row,
}
use shrap_firm.PreTrade.RateLimit.{
  Request, account_of, day_key, acquire, count_order, claim, cooldown_key,
}
use shrap_firm.PreTrade.RateLimit.Cap.{grants, grants-le}
use shrap_firm.PreTrade.RateLimit.Isolation.{IsReadable, acquire_isolated}
use shrap_firm.PreTrade.Pipeline.{
  Assessment, Tier3Gate, Limiter, Memory, risk_approved, risk_vetoed, process_intent_event,
  build_risk_decision, tier3_step, portfolio_step, apply_assessment, rate_step, downgrade_to_veto,
  scale_down,
}
use shrap_firm.PreTrade.Gates.{
  gates_pass, limiter_passes, process_intent_event_iff, slot_for_survivors, order-le,
}
use shrap_firm.PreTrade.Sizes.{IsEligible, check_iff_IsEligible}
use shrap_firm.Examples.Numbers.{Hundredths, pos, Hundredths_Double, Hundredths-IsOrdered, le}
use shrap_firm.Examples.Stores.{Keys, Keys_Redis, Keys-IsRedis, count_of, set_key}

abbrev policy : RiskPolicy Hundredths
policy = record {
  allowed_universe = codes "TSLA" ∷ [];
  universe_check_enabled = true;
  max_quantity_per_order = pos 1000;
  kill_switch_active = false;
}

abbrev buy : Intent Hundredths
buy = record {
  ticker = codes "tsla";
  quantity = number (pos 2500);
  mode = some (codes "paper");
  side = codes "buy";
  account_id = codes "PA1";
  slot = none;
}

abbrev gate : Tier3Gate
gate = record { ttl = 60; now = 100; fetch = answers (some (codes "Active ")) }

abbrev shut_gate : Tier3Gate
shut_gate = record { ttl = 60; now = 100; fetch = raises }

-- An officer who approves at most four shares.
abbrev officer : Hundredths → Assessment Hundredths
officer q = record {
  approved = true;
  approved_quantity = pos 400;
  reason_code = codes "GROSS_EXPOSURE";
}

abbrev limiter : Limiter
limiter = record {
  config = record { max_orders_per_day = 2; symbol_cooldown_seconds = 900 };
  today = codes "20260901";
}

abbrev blank : Keys
blank = record { counters = []; holds = [] }

abbrev memory : Memory Keys
memory = record { cache = []; redis = blank }

abbrev request : Text → Text → Request
request ticker account = record { ticker = ticker; account_id = some account; slot = none }

-- The same intent with its quantity as a string.
abbrev spelled : Intent Hundredths
spelled = record buy { quantity = numeral (pos 2500) }

spelled_too : (check policy spelled).approved ≡ true
unfolding check size parse_requested_quantity is_paper le upper text_eq list_eq
spelled_too = refl

check_iff_IsEligible_example :
    ((check policy spelled).approved ≡ true) ↔ (q : Hundredths) × IsEligible policy spelled q
check_iff_IsEligible_example = check_iff_IsEligible policy spelled

policy_made : make_policy policy ≡ some policy
unfolding make_policy le upper
policy_made = refl

-- A minute ago the query answered; now it fails, and the cache vouches.
abbrev lookups : List Lookup
lookups = record { at = 70; ticker = codes "tsla"; fetch = answers (some (codes "active")) } ∷ []

cached_pass : (Membership.check 60 100 (codes " TSLA") raises (cache_after 60 lookups)).0 ≡ none
unfolding Membership.check cache_after consult symbol_of is_active_row strip upper lower is_space
    get put text_eq list_eq
cached_pass = refl

check_fails_closed_example :
    (is_active raises ≡ true) ⊎ (vouched 60 100 (symbol_of (codes " TSLA")) lookups ≡ true)
check_fails_closed_example = check_fails_closed 60 100 (codes " TSLA") raises lookups cached_pass

abbrev requests : List Request
requests =
    request (codes "TSLA") (codes "PA1")
    ∷ request (codes "AVGO") (codes "PA1")
    ∷ request (codes "GD") (codes "PA2")
    ∷ request (codes "QQQ") (codes "PA1")
    ∷ []

grants-le_example :
    grants limiter.config (codes "20260901") (codes "PA1") requests blank
    ≤ 2 - Keys-IsRedis.count (day_key (codes "20260901") (codes "PA1")) blank
grants-le_example =
    grants-le Keys-IsRedis limiter.config (codes "20260901") (codes "PA1") requests blank
      (omega arith)

readable :
    IsReadable
      (codes "20260901")
      (account_of (some (codes "PA2")))
      (account_of (some (codes "PA1")))
unfolding account_of strip is_space
readable = record {
  plain_day = refl;
  plain_a = refl;
  plain_b = refl;
  distinct = λ e. ground arith;
  not_day_a = λ e. ground arith;
  not_day_b = λ e. ground arith;
}

acquire_isolated_example :
    (acquire limiter.config
      (codes "20260901")
      (request (codes "TSLA") (codes "PA1"))
      (acquire limiter.config (codes "20260901") (request (codes "TSLA") (codes "PA2")) blank).1).0
    ≡ (acquire limiter.config (codes "20260901") (request (codes "TSLA") (codes "PA1")) blank).0
acquire_isolated_example =
    acquire_isolated Keys-IsRedis limiter.config (codes "20260901")
      (request (codes "TSLA") (codes "PA1")) (request (codes "TSLA") (codes "PA2")) blank readable

process_intent_event_iff_example :
    let (stream, x, _) =
      process_intent_event policy (some gate) (some officer) (some limiter) buy memory in
    let pass =
      gates_pass policy (some gate) (some officer) buy []
      && limiter_passes (some limiter) (check policy buy).ticker buy blank in
    (stream ≡ (if pass then risk_approved else risk_vetoed))
    × (x.intent_quantity ≡ (if pass then some x.approved_quantity else none))
process_intent_event_iff_example =
    process_intent_event_iff policy (some gate) (some officer) (some limiter) buy memory

refused : gates_pass policy (some shut_gate) (some officer) buy [] ≡ false
unfolding check size parse_requested_quantity is_paper Membership.check consult symbol_of
    is_active_row strip upper lower is_space get put text_eq list_eq le
refused = refl

slot_for_survivors_example :
    (process_intent_event policy (some shut_gate) (some officer) (some limiter) buy memory).2.redis
    ≡ blank
slot_for_survivors_example =
    slot_for_survivors policy (some shut_gate) (some officer) (some limiter) buy memory refused

order_placed :
    (process_intent_event policy
      (some gate)
      (some officer)
      (some limiter)
      buy
      memory).1.intent_quantity
    ≡ some (pos 400)
unfolding process_intent_event build_risk_decision tier3_step portfolio_step apply_assessment
    rate_step downgrade_to_veto scale_down check size parse_requested_quantity is_paper
    Membership.check consult symbol_of is_active_row strip upper lower is_space get put text_eq
    list_eq le acquire count_order count_of claim cooldown_key set_key
order_placed = refl

order-le_example :
    ((pos 400 <= (check policy buy).requested_quantity) ≡ true)
    × ((pos 400 <= pos 1000) ≡ true)
    × ((assess : Hundredths → Assessment Hundredths)
        → some officer ≡ some assess
        → (pos 400 <= (assess (check policy buy).approved_quantity).approved_quantity) ≡ true)
order-le_example =
    order-le Hundredths-IsOrdered policy policy (some gate) (some officer) (some limiter) buy memory
      (pos 400) policy_made order_placed
