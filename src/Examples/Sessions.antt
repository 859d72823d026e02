-- ===== src/Examples/Sessions.antt =====
-- One strategy of the Strategy Runner in one session, on hundredths: it leaves one name and enters another.
use shrap_firm.Prelude.{
  ℕ, ◌≡◌, refl, true, if◌then◌else◌, none, some, List, [], ◌∷◌, All, length, ◌==◌, list_eq,
  option_eq,
}
use shrap_firm.Prelude.Text.{Text, text_Eq, codes, text_eq, upper, upper_code}
use shrap_firm.Prelude.Dict.{get, put}
use shrap_firm.Prelude.Double.{of_count}
use shrap_firm.Runner.Cadence.{intraday, clock, slot_for}
use shrap_firm.Runner.Sizing.{assert_equity_usable, size_position, is_dormant}
use shrap_firm.Runner.Engine.{
  side_buy, side_sell, RunnerSignalConfig, StrategyInput, ran_already, Desk, plan_resize, enter,
  resize, decide, already_ran,
}
use shrap_firm.Runner.Planner.{
  plan_ticker, plan_tickers, plan_on_bars, plan_strategy, allocate_equity, plan_session, upsert_all,
}
use shrap_firm.Runner.Pass.{
  Assigned, Books, Moment, due, group_by_account, effects_of, fresh_scale, usable_equity,
  run_accounts, run_pass,
}
use shrap_firm.Prelude.Sorting.{sort, insert, text_before}
use shrap_firm.Runner.Planner.LongOnly.{IsLong, plan_strategy-IsLong}
use shrap_firm.Runner.Planner.Once.{plan_strategy_once}
use shrap_firm.Examples.Numbers.{
  Hundredths, pos, Hundredths_Double, Hundredths-IsOrdered, le, neg, add, mul, div,
}

abbrev config : RunnerSignalConfig Hundredths
config = record {
  max_quantity = pos 10_000;
  max_gross_exposure = pos 100;
  resize_band = some (pos 25);
  resize_min_notional = pos 2_500;
}

abbrev desk_at : ℕ → ℕ → Desk Hundredths
desk_at hour minute = record {
  session_date = 20_000;
  hour = hour;
  minute = minute;
  held = (codes "TSLA", pos 375) ∷ [];
  regime_label = some (codes "wartime");
  account_id = codes "paper-1";
  buy_scale = some (pos 60);
}

abbrev weight_of : Text → Hundredths
weight_of ticker = if ticker == codes "GD" then pos 10 else pos 0

abbrev momentum : StrategyInput Hundredths
momentum = record {
  strategy_id = codes "momentum";
  tickers = codes "TSLA" ∷ codes "GD" ∷ [];
  cadence = intraday 5;
  regime_fit = none;
  regime_kill = some (codes "crisis-recovery" ∷ []);
  has_bars = λ ticker. true;
  warmup = some 20;
  n_bars = some 90;
  weights = some weight_of;
  closes = λ ticker. some (pos 20_000);
}

leaves_and_enters :
    (plan_strategy config (desk_at 14 22) momentum [] (pos 1_000_000)).signals
    ≡ record {
      strategy_id = codes "momentum";
      account_id = codes "paper-1";
      ticker = codes "TSLA";
      side = side_sell;
      quantity = pos 375;
      slot = clock 14 20;
    }
      ∷ record {
        strategy_id = codes "momentum";
        account_id = codes "paper-1";
        ticker = codes "GD";
        side = side_buy;
        quantity = pos 500;
        slot = clock 14 20;
      }
      ∷ []
unfolding plan_strategy already_ran plan_on_bars plan_tickers plan_ticker decide enter resize
    plan_resize size_position is_dormant slot_for get text_eq list_eq upper upper_code le add neg
    mul div option_eq
leaves_and_enters = refl

ran : (plan_strategy config (desk_at 14 22) momentum [] (pos 1_000_000)).skip_reason ≡ none
unfolding plan_strategy already_ran plan_on_bars plan_tickers plan_ticker decide enter resize
    plan_resize size_position is_dormant slot_for get text_eq list_eq upper upper_code le add neg
    mul div option_eq
ran = refl

plan_strategy-IsLong_example :
    All
      (IsLong config (desk_at 14 22) momentum)
      (plan_strategy config (desk_at 14 22) momentum [] (pos 1_000_000)).signals
plan_strategy-IsLong_example =
    plan_strategy-IsLong Hundredths-IsOrdered config (desk_at 14 22) momentum [] (pos 1_000_000)

same_slot : slot_for (intraday 5) 14 24 ≡ slot_for (intraday 5) 14 22
unfolding slot_for
same_slot = refl

-- Two minutes later.
plan_strategy_once_example :
    let first = plan_strategy config (desk_at 14 22) momentum [] (pos 1_000_000) in
    let second =
      plan_strategy config
        (desk_at 14 24)
        momentum
        (upsert_all first.state_writes [])
        (pos 900_000) in
    (second.skip_reason ≡ some ran_already) × (second.signals ≡ [])
plan_strategy_once_example =
    plan_strategy_once config (desk_at 14 22) momentum [] (pos 1_000_000) ran config (desk_at 14 24)
      momentum (pos 900_000) refl refl refl same_slot

abbrev books : Books Hundredths
books = record {
  latest_equity = λ account. (some (pos 1_000_000), some 49_000);
  latest_positions = λ account. ((codes "TSLA", pos 375) ∷ [], some 49_000);
  latest_buy_scale = λ account. (none, none);
}

abbrev moment : Moment
moment = record { session_date = 20_000; now = 50_000; hour = 14; minute = 22; regime_label = none }

abbrev assigned : List (Assigned Hundredths)
assigned =
    record { account_id = some (codes "paper-1"); input = momentum }
    ∷ record { account_id = none; input = momentum }
    ∷ []

four_effects : length (run_pass config moment books [] assigned).effects ≡ 4
unfolding run_pass run_accounts due group_by_account effects_of usable_equity assert_equity_usable
    fresh_scale plan_session allocate_equity plan_strategy already_ran plan_on_bars plan_tickers
    plan_ticker decide enter resize plan_resize size_position is_dormant slot_for get put sort
    insert text_before text_eq list_eq upper upper_code le add neg mul div option_eq of_count
four_effects = refl
