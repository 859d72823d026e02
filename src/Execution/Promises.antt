-- ===== src/Execution/Promises.antt =====
-- What `build_paper_order` of src/shrap/trading_floor/execution_agent.py gives: an order for its event, or
-- one of three errors.
use shrap_firm.Prelude.{
  ◌≡◌, ◌⊎◌, inl, inr, Bool, true, false, Option, some, arith, Bool-cases, Option-cases,
}
use shrap_firm.Execution.Errors.{
  Failure, value_error, other_error, Attempt, returned, raised, and_then-returned,
}
use shrap_firm.Prelude.Text.{Text, text_Eq, text_eq_iff, codes, lower, upper, strip}
use shrap_firm.Prelude.Double.{Double, ◌<=◌, ◌<<◌}
use shrap_firm.Execution.Orders.{
  Quantity, number, not_a_number, wrong_type, IntentPayload, RiskPayload, RiskEvent, Order,
  read_quantity, floored, whole_order, order_of, is_side, order_for, build_paper_order,
}

module _ {F : Type 0} ⦃d : Double F⦄ (floor : F → Option F) where
  -- What an order for an event promises: it carries the event's id; the event is an approved paper
  -- intent with this ticker and side, to buy or sell a positive quantity; and the order is for that
  -- quantity, or for its positive floor where no fraction of the asset is taken.
  pub record IsOrderFor (e : RiskEvent F) (fractionable : Bool) (o : Order F) : Type 0 where
    pub same_id : o.client_order_id ≡ e.event_id
    pub positive : (d.nought << o.qty) ≡ true
    pub payload : RiskPayload F
    pub intent : IntentPayload F
    pub carried : e.payload ≡ some payload
    pub is_approved : payload.approved ≡ true
    pub holds : payload.intent ≡ some intent
    pub paper : intent.mode ≡ some (codes "paper")
    pub symbol : o.symbol ≡ upper (strip intent.ticker)
    pub side : o.side ≡ lower (strip intent.side)
    pub buys_or_sells : is_side o.side ≡ true
    pub wanted : F
    pub asked : intent.quantity ≡ number wanted
    pub asked_positive : (d.nought << wanted) ≡ true
    pub in_full : fractionable ≡ true → o.qty ≡ wanted
    pub floored_to : fractionable ≡ false → floor wanted ≡ some o.qty

  -- The same of an intent and a quantity that was read.
  abbrev IsSized : Text → IntentPayload F → Bool → F → Order F → Type 0
  IsSized id i fractionable q o =
      (o.client_order_id ≡ id)
      × ((d.nought << o.qty) ≡ true)
      × (o.symbol ≡ upper (strip i.ticker))
      × (o.side ≡ lower (strip i.side))
      × ((d.nought << q) ≡ true)
      × (fractionable ≡ true → o.qty ≡ q)
      × (fractionable ≡ false → floor q ≡ some o.qty)

  floored_of : (q whole : F) → floored floor q ≡ returned whole → floor q ≡ some whole
  floored_of q whole cut = elim (Option-cases (floor q)) [
    | inl over ↦ ground arith
    | inr (n, found) ↦ ground arith
  ]

  order_of-IsSized :
      (id : Text) (i : IntentPayload F) (fractionable : Bool) (q : F) (o : Order F)
      → order_of floor id i fractionable q ≡ returned o
      → IsSized id i fractionable q o
  unfolding order_of whole_order
  order_of-IsSized id i fractionable q o e = elim (Bool-cases (q <= d.nought)) [
    | inl small ↦ ground arith
    | inr large ↦ elim (Bool-cases fractionable) [
      | inl granted ↦ ground arith
      | inr refused ↦
          let (whole, cut, built) =
            and_then-returned (floored floor q) (whole_order id i) o (ground arith) in
          let found = floored_of q whole cut in ground arith
    ]
  ]

  read_quantity_of : (raw : Quantity F) (q : F) → read_quantity raw ≡ returned q → raw ≡ number q
  read_quantity_of (number a) q e = ground arith
  read_quantity_of not_a_number q e = ground arith
  read_quantity_of wrong_type q e = ground arith

  order_for_lem :
      (id : Text) (i : IntentPayload F) (fractionable : Bool) (o : Order F)
      → order_for floor id i fractionable ≡ returned o
      → (q : F) × (i.quantity ≡ number q)
        × IsSized id i fractionable q o
        × (is_side o.side ≡ true)
        × (i.mode ≡ some (codes "paper"))
  unfolding order_for
  order_for_lem id i fractionable o e =
      let (q, read, built) =
        and_then-returned (read_quantity i.quantity) (order_of floor id i fractionable) o
          (ground arith) in
      let sized = order_of-IsSized id i fractionable q o built in
      let same_side = sized.3 in
      elim (Option-cases i.mode) [
        | inl absent ↦ ground arith
        | inr (mode, present) ↦ (
          q,
          read_quantity_of i.quantity q read,
          sized,
          ground arith,
          ground (arith, text_eq_iff mode (codes "paper")),
        )
      ]

  -- Every order that is built is an order for its event.
  pub build_paper_order-IsOrderFor :
      (e : RiskEvent F) (fractionable : Bool) (o : Order F)
      → build_paper_order floor e fractionable ≡ returned o
      → IsOrderFor e fractionable o
  unfolding build_paper_order
  build_paper_order-IsOrderFor e fractionable o built = elim (Option-cases e.payload) [
    | inl absent ↦ ground arith
    | inr (p, carried) ↦ elim (Bool-cases p.approved) [
      | inr refused ↦ ground arith
      | inl granted ↦ elim (Option-cases p.intent) [
        | inl missing ↦ ground arith
        | inr (i, holds) ↦
            let (q, asked, sized, side, paper) =
              order_for_lem e.event_id i fractionable o (ground arith) in
            record {
              same_id = sized.0;
              positive = sized.1;
              payload = p;
              intent = i;
              carried = carried;
              is_approved = granted;
              holds = holds;
              paper = paper;
              symbol = sized.2;
              side = sized.3;
              buys_or_sells = side;
              wanted = q;
              asked = asked;
              asked_positive = sized.4;
              in_full = sized.5;
              floored_to = sized.6;
            }
      ]
    ]
  ]

  abbrev IsRefusal : Attempt (Order F) → Type 0
  IsRefusal (returned o) = Unit
  IsRefusal (raised f) = (f ≡ value_error) ⊎ (f ≡ other_error)

  order_of-IsRefusal :
      (id : Text) (i : IntentPayload F) (fractionable : Bool) (q : F)
      → IsRefusal (order_of floor id i fractionable q)
  unfolding order_of whole_order
  order_of-IsRefusal id i fractionable q = ground arith

  order_for-IsRefusal :
      (id : Text) (i : IntentPayload F) (fractionable : Bool)
      → IsRefusal (order_for floor id i fractionable)
  unfolding order_for
  order_for-IsRefusal id i fractionable = ground (arith, order_of-IsRefusal id i fractionable)

  -- `build_paper_order` raises nothing but a ValueError, a TypeError or an OverflowError.
  pub build_paper_order-refusal :
      (e : RiskEvent F) (fractionable : Bool) (f : Failure)
      → build_paper_order floor e fractionable ≡ raised f
      → (f ≡ value_error) ⊎ (f ≡ other_error)
  unfolding build_paper_order
  build_paper_order-refusal e fractionable f refused = elim (Option-cases e.payload) [
    | inl absent ↦ ground arith
    | inr (p, carried) ↦ elim (Option-cases p.intent) [
      | inl missing ↦ ground arith
      | inr (i, holds) ↦ ground (arith, order_for-IsRefusal e.event_id i fractionable)
    ]
  ]
