-- ===== src/Examples/Approvals.antt =====
-- One approval of the Risk Officer on hundredths: a sell of half of what an account holds.
use shrap_firm.Prelude.{
  ◌≡◌, refl, true, not, ◌&&◌, ◌||◌, some_of, none, some, List, [], ◌∷◌, ◌==◌, list_eq,
}
use shrap_firm.Prelude.Text.{
  text_Eq, codes, text_eq, strip, strip_left, strip_right, upper, upper_code, lower, lower_code,
  is_space,
}
use shrap_firm.Prelude.Double.{of_count}
use shrap_firm.Prelude.Dict.{get, put}
use shrap_firm.Prelude.Sorting.{sort, insert, unique, text_before, texts_before}
use shrap_firm.Risk.Switches.{
  Board, set_switch, clear_switch, switch_daily_loss, is_active, blocking_switch, blocking_strategy,
  blocks_intent, reduces_position, strategy_switch,
}
use shrap_firm.Risk.Limits.{regime_multiplier, labelled_multiplier, scaled_for_regime}
use shrap_firm.Risk.Exposure.{
  make_book, symbol_of, add_up, by_ticker, shares_by_ticker, shares, weight, gross, net, projected,
}
use shrap_firm.Risk.Freshness.{are_usable, build_book}
use shrap_firm.Risk.Sizing.{is_dust, size_intent, stage_fraction}
use shrap_firm.Risk.Union.{singletons, climb, compress, find, union}
use shrap_firm.Risk.Clusters.{
  groups_of, link_all, link_row, correlation, cluster_of, group, normalised, held, returns,
  is_correlated, cluster_positions,
}
use shrap_firm.Risk.Gate.{check_portfolio}
use shrap_firm.Risk.Breaches.{
  signed_delta, cluster_weight_for, breaches, caps, violation, before, after, violation_at,
  check_order,
}
use shrap_firm.Risk.Officer.{
  unread, answer, Stores, Question, size_entry, size_sell, size_order, gate, gate_sized,
  assess_book, assess_account, assess,
}
use shrap_firm.Risk.Officer.Approvals.{IsGrounded, assess-IsGrounded}
use shrap_firm.Risk.Officer.Bounds.{IsSound, assess-IsSound}
use shrap_firm.Risk.Monitor.{severity, session_loss, peak_drawdown, drawdown_from}
use shrap_firm.Risk.Sweep.{
  Assignment, expire_daily_loss, is_expired, check_daily_loss, check_strategy_drawdown, observe,
  watch, watch_all, sweep, trips,
}
use shrap_firm.Risk.Sweep.Switching.{sweep_lem}
use shrap_firm.Examples.Numbers.{
  Hundredths, pos, Hundredths_Double, Hundredths-IsOrdered, le, neg, add, mul, div,
}
use shrap_firm.Examples.Sizes.{holdings, limits, tenths, tenths-IsHalving}
use shrap_firm.Risk.Gate.{quantize_down}
use shrap_firm.Examples.Clusters.{sum, power}

abbrev stores : Stores Hundredths
stores = record {
  registry = λ id.
      answer (some (record { account_id = some (codes "desk"); status = some (codes "paper") }));
  switches = answer [];
  latest_positions = λ account. answer (holdings.positions, some 1_000);
  equity_series = λ account. answer (record { at = 900; equity = pos 1_000_000 } ∷ []);
  latest_close = λ symbol. answer (some (pos 30_000));
  price_history = λ symbols. answer [];
  latest_posterior = none;
}

abbrev question : Question Hundredths
question = record {
  ticker = codes "gd ";
  side = codes "SELL";
  quantity = pos 50;
  strategy_ids = codes "momentum" ∷ [];
  regime_label = some (codes "wartime");
  regime_band = none;
  now = 2_000;
}

sell_is_approved :
    (assess sum power (pos 0) (quantize_down tenths) (pos 1) stores question limits).approved ≡ true
unfolding assess assess_account assess_book gate_sized gate size_order size_sell size_entry is_dust
    size_intent stage_fraction build_book are_usable make_book symbol_of add_up by_ticker
    shares_by_ticker shares weight gross net projected regime_multiplier labelled_multiplier
    scaled_for_regime is_active blocking_switch blocking_strategy blocks_intent reduces_position
    strategy_switch check_portfolio check_order violation_at violation before after breaches caps
    cluster_weight_for signed_delta cluster_positions groups_of link_all link_row held sort insert
    unique le add neg mul div text_eq list_eq upper upper_code lower lower_code strip strip_left
    strip_right is_space text_before texts_before is_correlated returns correlation of_count get put
    cluster_of group normalised climb compress find singletons union
sell_is_approved = refl

assess-IsGrounded_example :
    IsGrounded sum power (pos 0) (quantize_down tenths) (pos 1) stores question limits
assess-IsGrounded_example =
    assess-IsGrounded sum power (pos 0) (quantize_down tenths) (pos 1) stores question limits
      sell_is_approved

assess-IsSound_example :
    let r = assess sum power (pos 0) (quantize_down tenths) (pos 1) stores question limits in
    (g : IsGrounded sum power (pos 0) (quantize_down tenths) (pos 1) stores question limits)
    × IsSound sum power
        (pos 0)
        (quantize_down tenths)
        (pos 1)
        stores
        question
        limits
        g.board
        (record { nav = g.nav; positions = g.positions })
        r.approved_quantity
assess-IsSound_example =
    assess-IsSound sum power (pos 0) (quantize_down tenths) (pos 1) stores question
      Hundredths-IsOrdered (tenths-IsHalving question.quantity) limits sell_is_approved

-- Down two and a half percent on the second day, with a switch left from the first.
abbrev watched : List (Assignment Hundredths)
watched =
    record {
      strategy_id = codes "momentum";
      equity_series = answer (
          record { at = 86_500; equity = pos 1_000_000 }
          ∷ record { at = 90_000; equity = pos 960_000 }
          ∷ []);
    }
    ∷ record { strategy_id = codes "reversion"; equity_series = unread }
    ∷ []

abbrev left_over : Board
left_over =
    (
      codes "daily_loss",
      record {
        name = codes "daily_loss";
        active = true;
        actor = codes "risk-officer/monitor";
        reason = codes "loss";
        at = 50_000;
      },
    )
    ∷ []

still_set :
    is_active (sweep (pos 75) limits 1 90_100 watched left_over).board (codes "daily_loss") ≡ true
unfolding sweep watch_all watch observe check_daily_loss check_strategy_drawdown session_loss
    severity expire_daily_loss set_switch clear_switch is_active get put sort insert text_eq list_eq
    le add neg mul div strategy_switch strip strip_left strip_right is_space peak_drawdown
    drawdown_from
still_set = refl

sweep_lem_example :
    is_active (sweep (pos 75) limits 1 90_100 watched left_over).board (codes "daily_loss") ≡ (
      some_of (trips (pos 75) limits 1 (codes "daily_loss")) watched
      || (is_active left_over (codes "daily_loss")
          && not (switch_daily_loss == codes "daily_loss" && is_expired 1 left_over)))
sweep_lem_example = sweep_lem (pos 75) limits 1 90_100 watched left_over (codes "daily_loss")
