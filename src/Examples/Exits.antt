-- ===== src/Examples/Exits.antt =====
-- Two exit passes of the Strategy Runner, on hundredths: a stop-loss, and the tick after it.
use shrap_firm.Prelude.{◌≡◌, ◌≢◌, refl, true, none, some, List, [], ◌∷◌, All, length, list_eq}
use shrap_firm.Prelude.Text.{
  Text, codes, text_eq, upper, upper_code, strip, strip_left, strip_right, is_space,
}
use shrap_firm.Prelude.Dict.{get, put}
use shrap_firm.Prelude.Double.{◌<<◌}
use shrap_firm.Prelude.Sorting.{sort, insert, text_before}
use shrap_firm.Risk.Exits.{
  PositionPnL, ExitRule, evaluate_exits, evaluate_all, evaluate_position, since_entry, intraday,
  decide, stopped, profited, is_armed,
}
use shrap_firm.Runner.Cadence as Cadence
use shrap_firm.Runner.Engine.{StrategyInput}
use shrap_firm.Runner.Pass.{Assigned}
use shrap_firm.Runner.Closing.{
  PnLBooks, plan_exits, assign_first, strategy_by_account, suppressed_tickers, exit_accounts,
  mark_emitted, run_exit_pass,
}
use shrap_firm.Runner.Closing.Grounds.{IsClosing, run_exit_pass-IsClosing}
use shrap_firm.Runner.Closing.Once.{run_exit_pass_once}
use shrap_firm.Examples.Numbers.{
  Hundredths, pos, negsuc, Hundredths_Double, Hundredths-IsOrdered, le, neg, add,
}

-- Eight hundredths of a loss close a position.
abbrev rule : ExitRule Hundredths
rule = record {
  take_profit_pct = some (pos 20);
  stop_loss_pct = some (pos 8);
  intraday_take_profit_pct = none;
  intraday_stop_loss_pct = none;
}

abbrev position : Text → Hundredths → PositionPnL Hundredths
position ticker pct = record {
  ticker = ticker;
  quantity = pos 400;
  market_value = pos 90_000;
  unrealized_plpc = some pct;
  unrealized_intraday_plpc = none;
}

abbrev books : PnLBooks Hundredths
books account =
    some (position (codes "TSLA") (negsuc 9) ∷ position (codes "GD") (pos 5) ∷ [], some (pos 100))

abbrev momentum : StrategyInput Hundredths
momentum = record {
  strategy_id = codes "momentum";
  tickers = codes "TSLA" ∷ [];
  cadence = Cadence.intraday 5;
  regime_fit = none;
  regime_kill = none;
  has_bars = λ ticker. true;
  warmup = none;
  n_bars = none;
  weights = none;
  closes = λ ticker. none;
}

abbrev records : List (Assigned Hundredths)
records =
    record { account_id = some (codes "paper-1"); input = momentum }
    ∷ record { account_id = none; input = momentum }
    ∷ []

sells_one : length (run_exit_pass (pos 100) rule books records (pos 500) (pos 900) []).signals ≡ 1
unfolding run_exit_pass exit_accounts plan_exits strategy_by_account assign_first suppressed_tickers
    mark_emitted evaluate_exits evaluate_all evaluate_position since_entry intraday decide stopped
    profited is_armed sort insert text_before get put text_eq list_eq upper upper_code strip
    strip_left strip_right is_space le neg add
sells_one = refl

run_exit_pass-IsClosing_example :
    All
      (IsClosing
        (pos 100)
        rule
        (suppressed_tickers [] (pos 500) (pos 900))
        books
        (strategy_by_account records))
      (run_exit_pass (pos 100) rule books records (pos 500) (pos 900) []).signals
run_exit_pass-IsClosing_example =
    run_exit_pass-IsClosing Hundredths-IsOrdered (pos 100) rule books records (pos 500) (pos 900) []

soon : (add (pos 800) (neg (pos 500)) << pos 900) ≡ true
unfolding le neg add
soon = refl

run_exit_pass_once_example :
    let first = run_exit_pass (pos 100) rule books records (pos 500) (pos 900) [] in
    let second = run_exit_pass (pos 100) rule books records (pos 800) (pos 900) first.emitted_at in
    All (λ s. All (λ t. t.decision.ticker ≢ s.decision.ticker) second.signals) first.signals
run_exit_pass_once_example =
    run_exit_pass_once Hundredths-IsOrdered (pos 100) rule rule books books records records
      (pos 500) (pos 800) (pos 900) (pos 900) [] soon
