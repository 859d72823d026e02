-- ===== src/Runner/Closing.antt =====
-- src/shrap/research/strategy_runner/exit_planner.py, and `run_exit_pass` of
-- src/shrap/agents/research/strategy_runner/runner.py that runs it. Times are floats, as `time.monotonic`
-- gives them. What a pass publishes is a list; a crash cuts it short.
use shrap_firm.Prelude.{
  ◌≡◌, Bool, ◌||◌, not, Option, none, some, List, [], ◌∷◌, ◌++◌, map, if◌then◌else◌, keep, is_none,
  or_empty,
}
use shrap_firm.Prelude.Text.{Text, text_Eq, is_empty, strip, upper}
use shrap_firm.Prelude.Dict.{Dict, get, put}
use shrap_firm.Prelude.Double.{Double, ◌<<◌}
use shrap_firm.Prelude.Sorting.{sort, text_before}
use shrap_firm.Risk.Exits.{PositionPnL, ExitRule, ExitDecision, is_armed, evaluate_exits}
use shrap_firm.Runner.Engine.{Side, side_sell}
use shrap_firm.Runner.Pass.{Assigned}
pub mod Grounds
pub mod Once

-- The sell of one exit, with the decision that it comes from. The ticker is that of the payload.
pub record ExitSignal (F : Type 0) : Type 0 where
  pub strategy_id : Text
  pub account_id : Text
  pub ticker : Text
  pub side : Side
  pub quantity : F
  pub decision : ExitDecision F

-- What `latest_positions_pnl` answers for an account, with the time of the snapshot; `none` if it raises.
abbrev pub PnLBooks : Type 0 → Type 0
PnLBooks F = Text → Option (List (PositionPnL F) × Option F)

-- What was published, and when the exit of each ticker was last emitted.
pub record ExitPass (F : Type 0) : Type 0 where
  pub signals : List (ExitSignal F)
  pub emitted_at : Dict Text F

abbrev account_first : Text × Text → Text × Text → Bool
account_first x y = text_before x.0 y.0

module _ {F : Type 0} ⦃d : Double F⦄ where
  abbrev exit_signal : Text → Text → ExitDecision F → ExitSignal F
  exit_signal strategy_id account_id x = record {
    strategy_id = strategy_id;
    account_id = account_id;
    ticker = upper x.ticker;
    side = side_sell;
    quantity = x.quantity;
    decision = x;
  }

  -- `plan_exits`
  unfoldable pub plan_exits :
      F → ExitRule F → List Text → Text → Option Text → List (PositionPnL F) → List (ExitSignal F)
  plan_exits min_notional rule suppressed account none positions = []
  plan_exits min_notional rule suppressed account (some id) positions =
      if is_empty (strip id)
      then []
      else map (exit_signal id account) (evaluate_exits min_notional rule suppressed positions)

  -- The loop of `strategy_by_account`, over the records by strategy.
  unfoldable pub assign_first : Dict Text Text → List (Assigned F) → Dict Text Text
  assign_first assigned [] = assigned
  assign_first assigned (r ∷ rest) =
      let account = or_empty r.account_id in
      let id = r.input.strategy_id in
      assign_first
        (if is_empty account || (is_empty id || not (is_none (get assigned account)))
          then assigned
          else put assigned account id)
        rest

  abbrev by_strategy : Assigned F → Assigned F → Bool
  by_strategy r s = text_before r.input.strategy_id s.input.strategy_id

  -- `strategy_by_account`
  unfoldable pub strategy_by_account : List (Assigned F) → Dict Text Text
  strategy_by_account records = assign_first [] (sort by_strategy records)

  -- `suppressed_tickers`
  unfoldable pub suppressed_tickers : Dict Text F → F → F → List Text
  suppressed_tickers emitted_at now window =
      map (λ x. x.0) (keep (λ x. d.sub now x.1 << window) emitted_at)

  -- The loop over the accounts.
  unfoldable pub exit_accounts :
      F → ExitRule F → List Text → PnLBooks F → List (Text × Text) → List (ExitSignal F)
  exit_accounts min_notional rule suppressed books [] = []
  exit_accounts min_notional rule suppressed books ((account, id) ∷ rest) =
      let others = exit_accounts min_notional rule suppressed books rest in
      elim (books account) [
        | none ↦ others
        | some (positions, observed_at) ↦
            if is_none observed_at
            then others
            else plan_exits min_notional rule suppressed account (some id) positions ++ others
      ]

  -- `emitted_at[decision.ticker] = now`, for each that was published
  unfoldable pub mark_emitted : F → List (ExitSignal F) → Dict Text F → Dict Text F
  mark_emitted now [] emitted_at = emitted_at
  mark_emitted now (s ∷ rest) emitted_at =
      mark_emitted now rest (put emitted_at s.decision.ticker now)

  -- `run_exit_pass`
  unfoldable pub run_exit_pass :
      F → ExitRule F → PnLBooks F → List (Assigned F) → F → F → Dict Text F → ExitPass F
  run_exit_pass min_notional rule books records now window emitted_at =
      let assigned = sort account_first (strategy_by_account records) in
      let suppressed = suppressed_tickers emitted_at now window in
      let signals = exit_accounts min_notional rule suppressed books assigned in
      if not (is_armed rule)
      then record { signals = []; emitted_at = emitted_at }
      else record { signals = signals; emitted_at = mark_emitted now signals emitted_at }
