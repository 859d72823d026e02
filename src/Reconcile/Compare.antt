-- ===== src/Reconcile/Compare.antt =====
-- src/shrap/agents/operations/reconciliation_agent/records.py: the comparison of two views of the orders.
use shrap_firm.Prelude.{
  ℕ, suc, Bool, true, false, Option, none, some, List, [], ◌∷◌, ◌++◌, if◌then◌else◌, is_none,
  length, option_eq,
}
use shrap_firm.Prelude.Text.{Text, text_Eq, is_empty, strip, lower}
use shrap_firm.Prelude.Dict.{Dict, get, put}

pub record StoredOrderState : Type 0 where
  pub broker_order_id : Text
  pub status : Option Text
  pub symbol : Option Text

pub record BrokerOrderState : Type 0 where
  pub broker_order_id : Text
  pub status : Text
  pub symbol : Option Text

pub data DiscrepancyKind : Type 0 where
  missing_in_store missing_at_broker status_mismatch : DiscrepancyKind

pub record Discrepancy : Type 0 where
  pub kind : DiscrepancyKind
  pub broker_order_id : Text
  pub stored_status : Option Text
  pub broker_status : Option Text
  pub symbol : Option Text

pub record ReconciliationReport : Type 0 where
  pub stored_orders : ℕ
  pub broker_orders : ℕ
  pub matched : ℕ
  pub discrepancies : List Discrepancy

abbrev pub is_nil {ℓ} : {A : Type ℓ} → List A → Bool
is_nil [] = true
is_nil (_ ∷ _) = false

-- `is_clean`
abbrev pub is_clean : ReconciliationReport → Bool
is_clean r = is_nil r.discrepancies

-- `_normalized_status`
unfoldable pub normalized_status : Option Text → Option Text
normalized_status none = none
normalized_status (some s) = some (lower (strip s))

-- The two dict comprehensions: a later order replaces an earlier one with the same id.
unfoldable pub index_from {ℓ} : {A : Type ℓ} → (A → Text) → Dict Text A → List A → Dict Text A
index_from id_of d [] = d
index_from id_of d (a ∷ as_) = index_from id_of (put d (id_of a) a) as_

unfoldable pub stored_by_id : List StoredOrderState → Dict Text StoredOrderState
unfolding index_from
stored_by_id stored = index_from (λ s. s.broker_order_id) [] stored

unfoldable pub broker_by_id : List BrokerOrderState → Dict Text BrokerOrderState
unfolding index_from
broker_by_id orders = index_from (λ b. b.broker_order_id) [] orders

-- `broker_state.symbol or stored_state.symbol`
abbrev or_symbol : Option Text → Option Text → Option Text
or_symbol none other = other
or_symbol (some s) other = if is_empty s then other else some s

abbrev in_store : Text → BrokerOrderState → Discrepancy
in_store id b = record {
  kind = missing_in_store;
  broker_order_id = id;
  stored_status = none;
  broker_status = some b.status;
  symbol = b.symbol;
}

abbrev mismatch : Text → StoredOrderState → BrokerOrderState → Discrepancy
mismatch id s b = record {
  kind = status_mismatch;
  broker_order_id = id;
  stored_status = s.status;
  broker_status = some b.status;
  symbol = or_symbol b.symbol s.symbol;
}

abbrev at_broker : Text → StoredOrderState → Discrepancy
at_broker id s = record {
  kind = missing_at_broker;
  broker_order_id = id;
  stored_status = s.status;
  broker_status = none;
  symbol = s.symbol;
}

-- The first loop: how many orders match, and what diverges.
unfoldable pub walk_broker :
    Dict Text StoredOrderState → Dict Text BrokerOrderState → ℕ × List Discrepancy
walk_broker stored [] = (0, [])
walk_broker stored ((id, b) ∷ orders) =
    let (matched, rest) = walk_broker stored orders in
    elim (get stored id) [
      | none ↦ (matched, in_store id b ∷ rest)
      | some s ↦
          if option_eq (normalized_status s.status) (normalized_status (some b.status))
          then (suc matched, rest)
          else (matched, mismatch id s b ∷ rest)
    ]

-- The second loop.
unfoldable pub walk_stored :
    Dict Text BrokerOrderState → Dict Text StoredOrderState → List Discrepancy
walk_stored orders [] = []
walk_stored orders ((id, s) ∷ stored) =
    let rest = walk_stored orders stored in
    if is_none (get orders id) then at_broker id s ∷ rest else rest

-- `compare_orders`
unfoldable pub compare_orders : List StoredOrderState → List BrokerOrderState → ReconciliationReport
unfolding stored_by_id broker_by_id walk_broker walk_stored
compare_orders stored orders =
    let stored_index = stored_by_id stored in
    let broker_index = broker_by_id orders in
    let (matched, diverging) = walk_broker stored_index broker_index in
    record {
      stored_orders = length stored_index;
      broker_orders = length broker_index;
      matched = matched;
      discrepancies = diverging ++ walk_stored broker_index stored_index;
    }
