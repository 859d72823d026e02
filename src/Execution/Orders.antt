-- ===== src/Execution/Orders.antt =====
-- src/shrap/trading_floor/execution_agent.py: the routing of an approved intent to an account, and
-- the order that is built from it. A JSON field that the code reads through
-- `str` is the text that `str` gives. `floor` is `math.floor`, with `none` for its OverflowError.
use shrap_firm.Prelude.{Bool, false, ◌&&◌, ◌||◌, not, Option, none, some, [], ◌==◌, if◌then◌else◌}
use shrap_firm.Execution.Errors.{value_error, other_error, Attempt, returned, raised, and_then}
use shrap_firm.Prelude.Text.{Text, text_Eq, codes, upper, lower, strip, is_empty}
use shrap_firm.Prelude.Double.{Double, ◌<=◌}

-- `resolve_account_id`, on the number that the broker gave; `none` is AccountMismatchError
unfoldable pub resolve_account_id : Text → Text → Option Text
resolve_account_id number configured =
    let actual = strip number in
    if is_empty actual
    then none
    else if not (is_empty configured) && not (configured == actual)
    then none
    else some actual

-- What `float(...)` does on the quantity: a number, a ValueError, or a TypeError.
pub data Quantity (F : Type 0) : Type 0 where
  number : F → Quantity F
  not_a_number wrong_type : Quantity F

pub record IntentPayload (F : Type 0) : Type 0 where
  pub mode : Option Text
  pub ticker : Text
  pub side : Text
  pub quantity : Quantity F
  pub account_id : Text

-- `approved` is the test `is True`; `intent` is `none` when the field is not an object.
pub record RiskPayload (F : Type 0) : Type 0 where
  pub approved : Bool
  pub intent : Option (IntentPayload F)

pub record RiskEvent (F : Type 0) : Type 0 where
  pub event_id : Text
  pub payload : Option (RiskPayload F)

pub data Routing : Type 0 where
  mine other_account unroutable : Routing

-- The order sent to the broker: a market order for the day. `qty` is the quantity that
-- `_format_quantity` renders.
pub record Order (F : Type 0) : Type 0 where
  pub symbol : Text
  pub qty : F
  pub side : Text
  pub client_order_id : Text

module _ {F : Type 0} where
  unfoldable pub intent_of : RiskEvent F → Option (IntentPayload F)
  intent_of e = elim e.payload [ none ↦ none | some p ↦ p.intent ]

  -- The account that the intent names, or the empty text.
  unfoldable pub intent_account : RiskEvent F → Text
  unfolding intent_of
  intent_account e = elim (intent_of e) [ none ↦ [] | some i ↦ strip i.account_id ]

  -- `route_for_account`
  unfoldable pub route_for_account : RiskEvent F → Text → Routing
  route_for_account e account =
      if is_empty (intent_account e)
      then unroutable
      else if intent_account e == account
      then mine
      else other_account

  abbrev pub read_quantity : Quantity F → Attempt F
  read_quantity (number q) = returned q
  read_quantity not_a_number = raised value_error
  read_quantity wrong_type = raised other_error

  abbrev pub order : Text → IntentPayload F → F → Order F
  order id i amount = record {
    symbol = upper (strip i.ticker);
    qty = amount;
    side = lower (strip i.side);
    client_order_id = id;
  }

abbrev pub is_side : Text → Bool
is_side side = side == codes "buy" || side == codes "sell"

-- `approved_intent.get("mode") != "paper"`
abbrev pub is_paper_mode : Option Text → Bool
is_paper_mode none = false
is_paper_mode (some mode) = mode == codes "paper"

module _ {F : Type 0} ⦃d : Double F⦄ where
  -- The floor for an asset that the venue does not take a fraction of.
  unfoldable pub whole_order : Text → IntentPayload F → F → Attempt (Order F)
  whole_order id i whole =
      if whole <= d.nought then raised value_error else returned (order id i whole)

module _ {F : Type 0} ⦃d : Double F⦄ (floor : F → Option F) where
  abbrev pub floored : F → Attempt F
  floored q = elim (floor q) [ none ↦ raised other_error | some whole ↦ returned whole ]

  -- The end of `build_paper_order`, from the quantity on.
  unfoldable pub order_of : Text → IntentPayload F → Bool → F → Attempt (Order F)
  unfolding whole_order
  order_of id i fractionable q =
      if q <= d.nought
      then raised value_error
      else if fractionable
      then returned (order id i q)
      else and_then (floored q) (whole_order id i)

  unfoldable pub order_for : Text → IntentPayload F → Bool → Attempt (Order F)
  unfolding order_of
  order_for id i fractionable =
      if not (is_paper_mode i.mode)
      then raised value_error
      else if is_empty (strip i.ticker)
      then raised value_error
      else if not (is_side (lower (strip i.side)))
      then raised value_error
      else and_then (read_quantity i.quantity) (order_of id i fractionable)

  -- `build_paper_order`
  unfoldable pub build_paper_order : RiskEvent F → Bool → Attempt (Order F)
  unfolding order_for
  build_paper_order e fractionable = elim e.payload [
    | none ↦ raised value_error
    | some p ↦ if not p.approved then raised value_error else elim p.intent [
      | none ↦ raised value_error
      | some i ↦ order_for e.event_id i fractionable
    ]
  ]
