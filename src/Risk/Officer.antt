-- ===== src/Risk/Officer.antt =====
-- `RiskOfficer.assess` of src/shrap/risk_compliance/risk_officer/officer.py. What the services answer is
-- an argument, and an exception of a read is `unread`. Of an assessment the notes, the cluster and
-- the labels only explain it and are left out.
use shrap_firm.Prelude.{
  or_empty, ℕ, ◌≡◌, refl, Bool, true, false, not, Option, none, some, List, [], ◌∷◌, arith,
  if◌then◌else◌, ◌==◌,
}
use shrap_firm.Prelude.Text.{Text, text_Eq, codes, strip, lower, is_empty}
use shrap_firm.Prelude.Dict.{Dict, get}
use shrap_firm.Prelude.Sorting.{sort, unique, text_before}
use shrap_firm.Prelude.Double.{Double, ◌<=◌, ◌<<◌, min_float}
use shrap_firm.Risk.Switches.{Board, blocks_intent, reduces_position}
use shrap_firm.Risk.Monitor.{EquityPoint, last_equity}
use shrap_firm.Risk.Limits.{PortfolioLimits, regime_multiplier, scaled_for_regime}
use shrap_firm.Risk.Exposure.{Position, BookExposure, symbol_of, by_ticker, shares, or_nought}
use shrap_firm.Risk.Freshness.{build_book}
use shrap_firm.Risk.Sizing.{is_dust, size_intent}
use shrap_firm.Risk.Gate.{PortfolioReason, PortfolioDecision}
use shrap_firm.Risk.Breaches.{check_order}
pub mod Approvals
pub mod Bounds

-- The answer of a read.
pub data Read {ℓ} (A : Type ℓ) : Type ℓ where
  unread : Read A
  answer : A → Read A

-- The columns of research.strategies that the officer reads.
pub record Listing : Type 0 where
  pub account_id : Option Text
  pub status : Option Text

-- What the stores answer while one intent is assessed. Without a posterior lookup it is `none`; of a
-- posterior the fraction counts.
pub record Stores (F : Type 0) : Type 0 where
  pub registry : Text → Read (Option Listing)
  pub switches : Read Board
  pub latest_positions : Text → Read (List (Position F) × Option ℕ)
  pub equity_series : Text → Read (List (EquityPoint F))
  pub latest_close : Text → Read (Option F)
  pub price_history : List Text → Read (Dict Text (List F))
  pub latest_posterior : Option (Text → Read (Option F))

pub record Question (F : Type 0) : Type 0 where
  pub ticker : Text
  pub side : Text
  pub quantity : F
  pub strategy_ids : List Text
  pub regime_label : Option Text
  pub regime_band : Option (F × F)
  pub now : ℕ

pub data OfficerReason : Type 0 where
  unknown_strategy risk_state_unavailable no_account below_broker_minimum : OfficerReason
  sell_without_position posterior_unavailable sized_to_zero : OfficerReason
  kill_switch_active : Text → OfficerReason
  portfolio_gate : PortfolioReason → OfficerReason

pub record RiskAssessment (F : Type 0) : Type 0 where
  pub approved : Bool
  pub approved_quantity : F
  pub reason_code : OfficerReason

-- What the sizing says: a refusal or a quantity.
pub data Sized (F : Type 0) : Type 0 where
  refuse : OfficerReason → Sized F
  take : F → Sized F

abbrev pub is_sell : Text → Bool
is_sell side = lower (strip side) == codes "sell"

abbrev pub answered {ℓ} : {A : Type ℓ} → A → Read A → A
answered missing unread = missing
answered missing (answer a) = a

-- Python's set display and `sorted`.
abbrev keys_of {ℓ} : {A : Type ℓ} → Dict Text A → List Text
keys_of [] = []
keys_of ((k, v) ∷ d) = k ∷ keys_of d

module _ {F : Type 0} ⦃d : Double F⦄ where
  -- `RiskAssessment.refused`
  abbrev pub refused : OfficerReason → RiskAssessment F
  refused reason = record { approved = false; approved_quantity = d.nought; reason_code = reason }

  abbrev assessment_of : PortfolioDecision F → RiskAssessment F
  assessment_of x = record {
    approved = x.approved;
    approved_quantity = x.approved_quantity;
    reason_code = portfolio_gate x.reason_code;
  }

  -- The branch of `assess` for an order that adds risk.
  unfoldable pub size_entry : Stores F → Text → Text → F → Option F → F → Sized F
  size_entry stores strategy_id stage multiplier price quantity = elim stores.latest_posterior [
    | none ↦ take (size_intent quantity stage multiplier price none)
    | some lookup ↦ elim (lookup strategy_id) [
      | unread ↦ refuse posterior_unavailable
      | answer posterior ↦ take (size_intent quantity stage multiplier price posterior)
    ]
  ]

  -- The sizing in `assess`: a sell at a price above zero, and everything else.
  unfoldable pub size_sell : F → F → F → Sized F
  size_sell held price quantity =
      let closing = min_float quantity held in
      if held <= d.nought
      then refuse sell_without_position
      else if is_dust closing price
      then refuse below_broker_minimum
      else take closing

  unfoldable pub size_order : Bool → F → Option F → Bool → F → Sized F → Sized F
  size_order sell held none reducing quantity entry = if reducing then take quantity else entry
  size_order sell held (some price) reducing quantity entry =
      if not (price <= d.nought)
      then (if sell
          then size_sell held price quantity
          else if reducing
          then take quantity
          else entry)
      else if reducing
      then take quantity
      else entry

  -- `(quantity * (price or 0.0)) * (-1.0 if sell else 1.0)`
  abbrev pub signed_value : F → Option F → Bool → F
  signed_value quantity price sell =
      d.mul (d.mul quantity (or_nought price)) (if sell then d.neg d.one else d.one)

  module _ (sum : List F → F) (power : F → F → F) (tolerance : F) (truncate : F → F) (probe : F)
      (stores : Stores F) (q : Question F) where
    -- The read of the history, and the call of `check_portfolio`.
    abbrev pub history_for : BookExposure F → Dict Text (List F)
    history_for book = answered [] (
        stores.price_history
          (sort text_before (unique (symbol_of q.ticker ∷ keys_of (by_ticker book)))))

    unfoldable pub gate : BookExposure F → PortfolioLimits F → Option F → F → RiskAssessment F
    gate book limits price quantity = assessment_of (
        check_order sum power tolerance book (symbol_of q.ticker) q.side limits (history_for book)
          truncate probe quantity price)

    unfoldable pub gate_sized :
        BookExposure F → PortfolioLimits F → Option F → Sized F → RiskAssessment F
    gate_sized book limits price (refuse reason) = refused reason
    gate_sized book limits price (take quantity) =
        if quantity <= d.nought then refused sized_to_zero else gate book limits price quantity

    -- `assess`, from the book on.
    unfoldable pub assess_book :
        PortfolioLimits F → Text → Text → Board → BookExposure F → RiskAssessment F
    assess_book limits strategy_id stage board book =
        let multiplier = regime_multiplier q.regime_label q.regime_band in
        let symbol = symbol_of q.ticker in
        let held_value = or_nought (get (by_ticker book) symbol) in
        let price = answered none (stores.latest_close symbol) in
        let sell = is_sell q.side in
        let delta = signed_value q.quantity price sell in
        let entry = size_entry stores strategy_id stage multiplier price q.quantity in
        elim (blocks_intent board q.strategy_ids held_value delta) [
          | some name ↦ refused (kill_switch_active name)
          | none ↦ gate_sized book (scaled_for_regime multiplier limits) price (
              size_order sell (shares book symbol) price (reduces_position held_value delta)
                q.quantity entry)
        ]

    -- `assess`, once the account is known.
    unfoldable pub assess_account : PortfolioLimits F → Text → Text → Text → RiskAssessment F
    assess_account limits strategy_id account_id stage = elim stores.switches [
      | unread ↦ refused risk_state_unavailable
      | answer board ↦ elim (stores.latest_positions account_id) [
        | unread ↦ refused risk_state_unavailable
        | answer (positions, observed_at) ↦ elim (stores.equity_series account_id) [
          | unread ↦ refused risk_state_unavailable
          | answer [] ↦ refused risk_state_unavailable
          | answer (first ∷ rest) ↦
              elim (build_book (last_equity first rest) positions observed_at q.now) [
                | none ↦ refused risk_state_unavailable
                | some book ↦ assess_book limits strategy_id stage board book
              ]
        ]
      ]
    ]

    -- `assess`
    unfoldable pub assess : PortfolioLimits F → RiskAssessment F
    assess limits = elim q.strategy_ids [
      | [] ↦ refused unknown_strategy
      | strategy_id ∷ others ↦ elim (stores.registry strategy_id) [
        | unread ↦ refused risk_state_unavailable
        | answer none ↦ refused unknown_strategy
        | answer (some listing) ↦
            if is_empty (or_empty listing.account_id)
            then refused no_account
            else assess_account limits strategy_id (or_empty listing.account_id)
                (or_empty listing.status)
      ]
    ]
