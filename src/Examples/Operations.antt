-- ===== src/Examples/Operations.antt =====
-- Health checks, market phases, latched switches, the reconciliation of orders, and cadences.
use shrap_firm.Prelude.{
  ℕ, ◌+◌, ◌≤◌, ◌<◌, ◌≡◌, ◌⊎◌, ◌↔◌, refl, Bool, true, false, not, none, some, List, [], ◌∷◌, arith,
  contains, length, keep, if◌then◌else◌,
}
use shrap_firm.Prelude.Text.{Text, text_Eq, codes}
use shrap_firm.Prelude.Dict.{get}
use shrap_firm.Ops.HealthState.{
  Thresholds, CheckResult, good, down, checks_after, or_fresh, alone, of_check, checks_separate,
  confirms, degraded_confirmed, recovered_confirmed, bad_run, good_run, confirms_lem,
}
use shrap_firm.Ops.MarketPhase.{
  Transition, Schedule, pre_open, opened, after_hours, due, current, current_from, next_after,
  current-next_after, IsSorted,
}
use shrap_firm.Reconcile.Compare.{
  StoredOrderState, BrokerOrderState, Discrepancy, missing_in_store, compare_orders, stored_by_id,
  broker_by_id,
}
use shrap_firm.Reconcile.Clean.{
  stored_view, broker_view, compare_orders-clean, compare_orders_counts, count_of, about, expected,
  is_at_broker,
}
use shrap_firm.Reconcile.Tracker.{
  observe, open_after, previous, discrepancy_key, observe_edges, key_Eq,
}
use shrap_firm.Runner.Cadence.{
  Reads, read_cadence, mapping, whole, not_finite, read_cadence-IsValid,
}

abbrev thresholds : Thresholds
thresholds = record { degradation = 2; recovery = 2 }

abbrev result : Text → Bool → CheckResult
result name fine = record { name = name; status = if fine then good else down }

abbrev results : List CheckResult
results =
    result (codes "redis") false ∷ result (codes "db") true ∷ result (codes "redis") false ∷ []

checks_separate_example :
    or_fresh (get (checks_after thresholds results) (codes "redis"))
    ≡ alone thresholds (of_check (codes "redis") results)
checks_separate_example = checks_separate thresholds (codes "redis") results

confirms_lem_example :
    let r = result (codes "redis") false in
    let older = result (codes "redis") false ∷ [] in
    (confirms thresholds r older ≡ some degraded_confirmed
      ↔ ((alone thresholds older).declared_degraded ≡ false) × (2 ≤ bad_run (r ∷ older)))
    × (confirms thresholds r older ≡ some recovered_confirmed
        ↔ ((alone thresholds older).declared_degraded ≡ true) × (2 ≤ good_run (r ∷ older)))
    × ((alone thresholds (r ∷ older)).declared_degraded ≡ elim (confirms thresholds r older) [
      | none ↦ (alone thresholds older).declared_degraded
      | some degraded_confirmed ↦ true
      | some recovered_confirmed ↦ false
    ])
confirms_lem_example =
    confirms_lem thresholds (result (codes "redis") false) (result (codes "redis") false ∷ [])

abbrev schedule : Schedule
schedule =
    record { at = 100; phase = pre_open; session_date = 1; is_early_close = false }
    ∷ record { at = 200; phase = opened; session_date = 1; is_early_close = false }
    ∷ record { at = 300; phase = after_hours; session_date = 1; is_early_close = false }
    ∷ []

schedule-IsSorted : IsSorted schedule
schedule-IsSorted = ground arith

abbrev market_open : Transition
market_open = record { at = 200; phase = opened; session_date = 1; is_early_close = false }

abbrev market_close : Transition
market_close = record { at = 300; phase = after_hours; session_date = 1; is_early_close = false }

now_open : current 250 schedule ≡ some market_open
unfolding current current_from
now_open = refl

next_close : next_after 250 schedule ≡ some market_close
unfolding next_after
next_close = refl

current-next_after_example :
    (200 ≤ 250)
    × (due 200 250 schedule ≡ [])
    × (250 < 300)
    × ((moment : ℕ) → moment < 300 → due 250 moment schedule ≡ [])
current-next_after_example =
    current-next_after 250 schedule market_open market_close schedule-IsSorted now_open next_close

abbrev stored : List StoredOrderState
stored =
    record { broker_order_id = codes "b1"; status = some (codes "Filled "); symbol = none } ∷ []

abbrev at_broker : List BrokerOrderState
at_broker =
    record { broker_order_id = codes "b1"; status = codes "filled"; symbol = none }
    ∷ record { broker_order_id = codes "b2"; status = codes "new"; symbol = none }
    ∷ []

compare_orders-clean_example :
    (compare_orders stored at_broker).discrepancies ≡ []
    ↔ ((id : Text) → stored_view (stored_by_id stored) id ≡ broker_view (broker_by_id at_broker) id)
compare_orders-clean_example = compare_orders-clean stored at_broker

compare_orders_counts_example :
    let r = compare_orders stored at_broker in
    ((id : Text)
      → about id r.discrepancies
        ≡ expected (get (stored_by_id stored) id) (get (broker_by_id at_broker) id))
    × (r.matched + count_of (λ x. not (is_at_broker x)) r.discrepancies ≡ r.broker_orders)
compare_orders_counts_example = compare_orders_counts stored at_broker

abbrev missing : Discrepancy
missing = record {
  kind = missing_in_store;
  broker_order_id = codes "b2";
  stored_status = none;
  broker_status = some (codes "new");
  symbol = none;
}

observe_edges_example :
    let delta = (observe (open_after ((missing ∷ []) ∷ [])) (missing ∷ [])).0 in
    (delta.appeared
      ≡ keep
          (λ x. not (contains (previous ((missing ∷ []) ∷ [])) (discrepancy_key x)))
          (missing ∷ []))
    × (length delta.appeared + delta.suppressed ≡ 1)
observe_edges_example = observe_edges ((missing ∷ []) ∷ []) (missing ∷ [])

read_cadence-IsValid_example :
    Reads (read_cadence (mapping (codes "intraday") (whole 15)))
    ⊎ ((kind : Text) × (mapping (codes "intraday") (whole 15) ≡ mapping kind not_finite))
read_cadence-IsValid_example = read_cadence-IsValid (mapping (codes "intraday") (whole 15))
