-- ===== src/Runner/Planner.antt =====
-- src/shrap/research/strategy_runner/engine.py, `_plan_strategy` and `plan_session`, and `upsert` of
-- store.py: the signals of a pass over the strategies of one account, and what it stamps.
use shrap_firm.Prelude.{
  ℕ, zero, suc, ◌≡◌, ◌↔◌, refl, Bool, true, false, not, ◌&&◌, ◌||◌, Option, none, some, List, [],
  ◌∷◌, ◌++◌, map, arith, ltb, nat_eq, nat_eq_iff, if◌then◌else◌, some_of, length, Comparable, ◌==◌,
  pair_Eq, option_eq, nat_Eq,
}
use shrap_firm.Prelude.Text.{Text, text_Eq, upper}
use shrap_firm.Prelude.Dict.{Dict, get, put}
use shrap_firm.Prelude.Double.{Double, ◌<=◌, ◌<<◌, of_count}
use shrap_firm.Runner.Cadence.{Slot, session_slot, slot_for}
use shrap_firm.Runner.Sizing.{is_dormant}
use shrap_firm.Runner.Engine.{
  Side, RunnerSignalConfig, TargetState, StoredState, StrategyInput, PlannedSignal,
  PlannedStateWrite, SkipReason, ran_already, no_tickers, missing_bars, insufficient_bars, failed,
  StrategyPlan, Desk, Move, or_nothing, already_ran, decide,
}
pub mod Shape
pub mod LongOnly
pub mod Once

module _ {F : Type 0} ⦃d : Double F⦄ where
  abbrev flat_target : TargetState F
  flat_target = record {
    last_target = d.nought;
    last_side = none;
    last_session_date = none;
    last_quantity = d.nought;
    last_slot = session_slot;
  }

  abbrev pub or_flat : Option (TargetState F) → TargetState F
  or_flat none = flat_target
  or_flat (some row) = row

  abbrev side_after : Option (Side × F) → Option Side → Option Side
  side_after none old = old
  side_after (some (side, quantity)) old = some side

  -- What the account holds of the ticker.
  abbrev pub position_of : Desk F → Text → F
  position_of desk ticker = or_nothing (get desk.held (upper ticker))

  module _ (config : RunnerSignalConfig F) (desk : Desk F) (item : StrategyInput F)
      (stored : StoredState F) (equity : F) where
    abbrev pub slot_of : Slot
    slot_of = slot_for item.cadence desk.hour desk.minute

    abbrev pub dormant : Bool
    dormant = is_dormant desk.regime_label item.regime_fit item.regime_kill

    -- The weight after the regime router: a dormant strategy enters nothing.
    abbrev pub routed : F → F → F
    routed weight position =
        if dormant && (d.nought << weight && not (d.nought << position)) then d.nought else weight

    abbrev pub signals_of : Text → Option (Side × F) → List (PlannedSignal F)
    signals_of ticker none = []
    signals_of ticker (some (side, quantity)) =
        record {
          strategy_id = item.strategy_id;
          account_id = desk.account_id;
          ticker = upper ticker;
          side = side;
          quantity = quantity;
          slot = slot_of;
        }
        ∷ []

    abbrev write_of : Text → Option Side → F → F → PlannedStateWrite F
    write_of ticker side target quantity = record {
      strategy_id = item.strategy_id;
      ticker = ticker;
      last_target = target;
      last_side = side;
      last_session_date = desk.session_date;
      last_quantity = quantity;
      last_slot = slot_of;
    }

    -- The loop body: the signals and the write; `none` is an exception.
    unfoldable pub plan_ticker :
        (Text → F) → Text → Option (List (PlannedSignal F) × PlannedStateWrite F)
    plan_ticker weights ticker =
        let position = position_of desk ticker in
        let prev = or_flat (get stored (item.strategy_id, ticker)) in
        let weight = routed (weights ticker) position in
        if position << d.nought
        then some ([], write_of ticker prev.last_side d.nought d.nought)
        else elim (decide config desk.buy_scale equity weight position prev.last_quantity
            (item.closes ticker)) [
              | none ↦ none
              | some move ↦ some (
                signals_of ticker move.order,
                write_of ticker (side_after move.order prev.last_side) move.target move.quantity,
              )
            ]

    unfoldable pub plan_tickers :
        (Text → F) → List Text → Option (List (PlannedSignal F) × List (PlannedStateWrite F))
    plan_tickers weights [] = some ([], [])
    plan_tickers weights (ticker ∷ tickers) = elim (plan_ticker weights ticker) [
      | none ↦ none
      | some (signals, write) ↦ elim (plan_tickers weights tickers) [
        | none ↦ none
        | some (more, writes) ↦ some (signals ++ more, write ∷ writes)
      ]
    ]

    -- `_skip`
    abbrev pub skip : SkipReason → StrategyPlan F
    skip reason = record {
      strategy_id = item.strategy_id;
      skip_reason = some reason;
      signals = [];
      state_writes = [];
    }

    abbrev planned : Option (List (PlannedSignal F) × List (PlannedStateWrite F)) → StrategyPlan F
    planned none = skip failed
    planned (some (signals, writes)) = record {
      strategy_id = item.strategy_id;
      skip_reason = none;
      signals = signals;
      state_writes = writes;
    }

    -- `_plan_strategy` from the bars on.
    unfoldable pub plan_on_bars : ℕ → StrategyPlan F
    plan_on_bars warmup = elim item.n_bars [
      | none ↦ skip failed
      | some n ↦
          if ltb n (if nat_eq warmup 0 then 1 else warmup)
          then skip insufficient_bars
          else elim item.weights [
            | none ↦ skip failed
            | some weights ↦ planned (plan_tickers weights item.tickers)
          ]
    ]

    -- `_plan_strategy`
    unfoldable pub plan_strategy : StrategyPlan F
    plan_strategy =
        if already_ran item.strategy_id item.tickers stored desk.session_date slot_of
        then skip ran_already
        else elim item.tickers [
          | [] ↦ skip no_tickers
          | first ∷ others ↦ elim item.warmup [
            | none ↦ skip failed
            | some warmup ↦
                if some_of (λ ticker. not (item.has_bars ticker)) item.tickers
                then skip missing_bars
                else plan_on_bars warmup
          ]
        ]

  -- `allocate_equity`; `none` is SizingRefused
  unfoldable pub allocate_equity : F → ℕ → F → Option F
  allocate_equity equity n_strategies max_gross_exposure =
      if nat_eq n_strategies 0
      then some d.nought
      else if max_gross_exposure <= d.nought
      then none
      else some (d.div (d.mul equity max_gross_exposure) (of_count n_strategies))

  -- `plan_session`: every strategy has an equal share of the account; `none` is SizingRefused.
  unfoldable pub plan_session :
      RunnerSignalConfig F
      → Desk F
      → StoredState F
      → F
      → List (StrategyInput F)
      → Option (List (StrategyPlan F))
  plan_session config desk stored equity items =
      elim (allocate_equity equity (length items) config.max_gross_exposure) [
        | none ↦ none
        | some budget ↦ some (map (λ item. plan_strategy config desk item stored budget) items)
      ]

  -- `upsert` of store.py
  unfoldable pub upsert : PlannedStateWrite F → StoredState F → StoredState F
  upsert w stored =
      put stored (w.strategy_id, w.ticker)
        (record {
          last_target = w.last_target;
          last_side = w.last_side;
          last_session_date = some w.last_session_date;
          last_quantity = w.last_quantity;
          last_slot = w.last_slot;
        })

  unfoldable pub upsert_all : List (PlannedStateWrite F) → StoredState F → StoredState F
  upsert_all [] stored = stored
  upsert_all (w ∷ ws) stored = upsert_all ws (upsert w stored)
