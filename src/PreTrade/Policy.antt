-- ===== src/PreTrade/Policy.antt =====
-- src/shrap/risk_compliance/pre_trade.py: the deterministic checker. Quantities are floats; the values
-- that a JSON field can hold instead of one are told apart by `RawQuantity`.
use shrap_firm.Prelude.{
  Bool, true, false, ◌&&◌, not, Option, none, some, List, map, ◌==◌, contains, if◌then◌else◌,
}
use shrap_firm.Prelude.Text.{Text, text_Eq, codes, upper}
use shrap_firm.Prelude.Double.{Double, ◌<=◌, ◌<<◌, min_float}

-- What `intent.get("quantity", 0)` holds, by what `float` makes of it: a number, or a string that `float`
-- reads as one (`numeral`), that is finite; one that is not finite; and an object or a string that `float`
-- refuses by a TypeError or a ValueError. An integer too large for a float is left out.
pub data RawQuantity (F : Type 0) : Type 0 where
  boolean : Bool → RawQuantity F
  number numeral : F → RawQuantity F
  not_finite unreadable : RawQuantity F

pub record Intent (F : Type 0) : Type 0 where
  pub ticker : Text
  pub quantity : RawQuantity F
  pub mode : Option Text
  pub side : Text
  pub account_id : Text
  pub slot : Option Text

pub record RiskPolicy (F : Type 0) : Type 0 where
  pub allowed_universe : List Text
  pub universe_check_enabled : Bool
  pub max_quantity_per_order : F
  pub kill_switch_active : Bool

-- The reason codes of this module and of the gates after it.
pub data Reason : Type 0 where
  invalid_quantity real_money_forbidden kill_switch ticker_not_in_universe : Reason
  scaled_down_max_quantity approved_reason : Reason
  ticker_not_in_tier3 tier3_state_unavailable : Reason
  daily_cap symbol_cooldown : Reason
  portfolio : Text → Reason

pub record PreTradeDecision (F : Type 0) : Type 0 where
  pub approved : Bool
  pub reason_code : Reason
  pub ticker : Text
  pub requested_quantity : F
  pub approved_quantity : F

-- `intent.get("mode") == "paper"`
unfoldable pub is_paper : Option Text → Bool
is_paper none = false
is_paper (some m) = m == codes "paper"

module _ {F : Type 0} ⦃d : Double F⦄ where
  -- `RiskPolicy.__post_init__`; `none` is the ValueError
  unfoldable pub make_policy : RiskPolicy F → Option (RiskPolicy F)
  make_policy p =
      if p.max_quantity_per_order <= d.nought
      then none
      else some (record p { allowed_universe = map upper p.allowed_universe })

  -- `_parse_requested_quantity`: the value, and whether there was an error
  unfoldable pub parse_requested_quantity : RawQuantity F → F × Bool
  parse_requested_quantity (boolean b) = (d.nought, true)
  parse_requested_quantity (number q) = (q, false)
  parse_requested_quantity (numeral q) = (q, false)
  parse_requested_quantity not_finite = (d.nought, true)
  parse_requested_quantity unreadable = (d.nought, true)

  abbrev veto : Reason → Text → F → PreTradeDecision F
  veto reason ticker requested = record {
    approved = false;
    reason_code = reason;
    ticker = ticker;
    requested_quantity = requested;
    approved_quantity = d.nought;
  }

  -- The end of `check`: the size that is approved.
  unfoldable pub size : RiskPolicy F → Text → F → PreTradeDecision F
  size p ticker requested =
      let fit = min_float requested p.max_quantity_per_order in
      record {
        approved = true;
        reason_code = if fit << requested then scaled_down_max_quantity else approved_reason;
        ticker = ticker;
        requested_quantity = requested;
        approved_quantity = fit;
      }

  -- `PreTradeChecker.check`
  unfoldable pub check : RiskPolicy F → Intent F → PreTradeDecision F
  unfolding size parse_requested_quantity
  check p i =
      let ticker = upper i.ticker in
      let (requested, malformed) = parse_requested_quantity i.quantity in
      if malformed
      then veto invalid_quantity ticker requested
      else if not (is_paper i.mode)
      then veto real_money_forbidden ticker requested
      else if p.kill_switch_active
      then veto kill_switch ticker requested
      else if p.universe_check_enabled && not (contains p.allowed_universe ticker)
      then veto ticker_not_in_universe ticker requested
      else if requested <= d.nought
      then veto invalid_quantity ticker requested
      else size p ticker requested
