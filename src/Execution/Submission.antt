-- ===== src/Execution/Submission.antt =====
-- `process_risk_event` and `poll_once` of src/shrap/trading_floor/execution_agent.py: one pass of the
-- loop that submits orders. The broker, the stream and the consumer group are outside: each call may
-- change the world `W` and may raise. A read
-- that raises ends the pass before the loop, with nothing done, and is left out.
use shrap_firm.Prelude.{
  ℕ, ◌+◌, ◌≡◌, ◌⊎◌, refl, inl, inr, Bool, true, false, Option, none, some, List, [], ◌∷◌, arith,
  map, contains, if◌then◌else◌,
}
use shrap_firm.Prelude.Text.{Text, text_Eq, upper, strip, is_empty}
use shrap_firm.Prelude.Double.{Double}
use shrap_firm.Execution.Errors.{
  Failure, value_error, http_status, other_error, Attempt, returned, raised, and_then,
  is_duplicate_order_error,
}
use shrap_firm.Execution.Orders.{
  RiskEvent, intent_of, mine, other_account, unroutable, route_for_account, Order,
  build_paper_order,
}

-- The calls that the loop makes: `PaperBroker` (submit_order gives the broker's order id), the
-- publication of the submitted event, and the acknowledgement of an event by its id. The adapter's
-- `is_fractionable` catches every exception.
pub record Services (F W : Type 0) : Type 0 where
  pub is_fractionable : Text → W → Bool × W
  pub submit_order : Order F → W → Attempt Text × W
  pub publish_submitted : Text → Order F → W → Attempt {0} Unit × W
  pub acknowledge : Text → W → Attempt {0} Unit × W

-- How the handling of one event ends: it is acknowledged, counted or not; the batch stops without its
-- acknowledgement; or an exception leaves `poll_once` altogether.
pub data Ending : Type 0 where
  acked : Bool → Ending
  stopped : Ending
  escaped : Ending

pub Ending-cases :
    (n : Ending) → ((counted : Bool) × (n ≡ acked counted)) ⊎ ((n ≡ stopped) ⊎ (n ≡ escaped))
Ending-cases (acked counted) = inl (counted, refl)
Ending-cases stopped = inr (inl refl)
Ending-cases escaped = inr (inr refl)

-- What one pass did: the events acknowledged, the events that were left, in order, and the count.
pub record Pass (F : Type 0) : Type 0 where
  pub done : List (RiskEvent F)
  pub left : List (RiskEvent F)
  pub processed : ℕ

-- The errors after which the event is acknowledged and skipped.
unfoldable pub is_skipped : Failure → Bool
is_skipped value_error = true
is_skipped f = is_duplicate_order_error f

pub is_skipped_lem :
    (f : Failure)
    → (is_skipped f ≡ false) ⊎ ((f ≡ value_error) ⊎ (is_duplicate_order_error f ≡ true))
unfolding is_skipped
is_skipped_lem value_error = inr (inl refl)
is_skipped_lem (http_status n m) = ground arith
is_skipped_lem other_error = ground arith

module _ {F W : Type 0} ⦃d : Double F⦄ (floor : F → Option F) (services : Services F W) where
  -- The ticker that the broker is asked about.
  unfoldable pub ticker_of : RiskEvent F → Text
  ticker_of e = elim (intent_of e) [ none ↦ [] | some i ↦ upper (strip i.ticker) ]

  -- Whether a fraction of the asset is legal; not asked when there is no ticker.
  unfoldable pub fractionable_for : RiskEvent F → W → Bool × W
  fractionable_for e w =
      if is_empty (ticker_of e) then (false, w) else services.is_fractionable (ticker_of e) w

  -- `submit_order` and what follows it.
  unfoldable pub submit : RiskEvent F → Order F → W → Attempt {0} Unit × W
  submit e o w =
      let (answer, w') = services.submit_order o w in
      elim answer [
        | raised f ↦ (raised f, w')
        | returned id ↦ services.publish_submitted e.event_id o w'
      ]

  -- `process_risk_event`
  unfoldable pub process_risk_event : RiskEvent F → W → Attempt {0} Unit × W
  unfolding submit
  process_risk_event e w =
      let (fractionable, w') = fractionable_for e w in
      elim (build_paper_order floor e fractionable) [
        | raised f ↦ (raised f, w')
        | returned o ↦ submit e o w'
      ]

  -- `subscriber.ack(event)`
  unfoldable pub ack : RiskEvent F → Bool → W → Attempt Bool × W
  ack e counted w =
      let (answer, w') = services.acknowledge e.event_id w in
      (and_then answer (λ _. returned counted), w')

  -- The `try` block: whether the event counts as processed.
  unfoldable pub attempt_event : Text → RiskEvent F → W → Attempt Bool × W
  attempt_event account e w = elim (route_for_account e account) [
    | other_account ↦ ack e false w
    | unroutable ↦ ack e false w
    | mine ↦
        let (answer, w') = process_risk_event e w in
        elim answer [ raised f ↦ (raised f, w') | returned u ↦ ack e true w' ]
  ]

  abbrev ending_of : Attempt Bool → Ending
  ending_of (returned counted) = acked counted
  ending_of (raised f) = escaped

  -- The `except` blocks.
  unfoldable pub recover : RiskEvent F → Failure → W → Ending × W
  recover e f w =
      let (answer, w') = ack e false w in
      if is_skipped f then (ending_of answer, w') else (stopped, w)

  -- The end of the loop's body, by what the `try` block gave.
  unfoldable pub finish : RiskEvent F → Attempt Bool → W → Ending × W
  finish e (returned counted) w = (acked counted, w)
  finish e (raised f) w = recover e f w

  -- The body of the loop.
  unfoldable pub handle : Text → RiskEvent F → W → Ending × W
  unfolding finish
  handle account e w = let (answer, w') = attempt_event account e w in finish e answer w'

  abbrev count : Bool → ℕ
  count b = if b then 1 else 0

  -- The loop of `poll_once` over a batch, with the events that it acknowledged.
  unfoldable pub poll_once : Text → List (RiskEvent F) → W → Pass F × W
  poll_once account [] w = (record { done = []; left = []; processed = 0 }, w)
  poll_once account (e ∷ es) w =
      let (ending, w') = handle account e w in
      elim ending [
        | acked counted ↦
            let (rest, w'') = poll_once account es w' in
            (
              record {
                done = e ∷ rest.done;
                left = rest.left;
                processed = count counted + rest.processed;
              },
              w'',
            )
        | stopped ↦ (record { done = []; left = e ∷ es; processed = 0 }, w')
        | escaped ↦ (record { done = []; left = e ∷ es; processed = 0 }, w')
      ]

-- An order with this client order id stands in the book.
abbrev pub has : {F : Type 0} → List (Order F) → Text → Bool
has orders id = contains (map (λ o. o.client_order_id) orders) id

-- What the loop relies on. `book` is the list of the orders that the broker has accepted, newest first.
-- A submission adds at most its own order, never one whose id is there, has added it when it returns, and
-- answers "duplicate" only when the id is there; it may also fail with the order accepted. The other
-- calls leave the book alone.
pub record IsBroker {F W : Type 0} (services : Services F W) (book : W → List (Order F))
    : Type 0 where
  pub fractionable_book : (t : Text) (w : W) → book (services.is_fractionable t w).1 ≡ book w
  pub submit_once :
      (o : Order F) (w : W)
      → has (book w) o.client_order_id ≡ true
      → book (services.submit_order o w).1 ≡ book w
  pub submit_book :
      (o : Order F) (w : W)
      → (book (services.submit_order o w).1 ≡ book w)
        ⊎ (book (services.submit_order o w).1 ≡ o ∷ book w)
  pub submit_returned :
      (o : Order F) (w : W) (id : Text)
      → (services.submit_order o w).0 ≡ returned id
      → has (book (services.submit_order o w).1) o.client_order_id ≡ true
  pub submit_duplicate :
      (o : Order F) (w : W) (f : Failure)
      → (services.submit_order o w).0 ≡ raised f
      → is_duplicate_order_error f ≡ true
      → has (book (services.submit_order o w).1) o.client_order_id ≡ true
  pub publish_book :
      (e : Text) (o : Order F) (w : W) → book (services.publish_submitted e o w).1 ≡ book w
  pub acknowledge_book : (e : Text) (w : W) → book (services.acknowledge e w).1 ≡ book w
