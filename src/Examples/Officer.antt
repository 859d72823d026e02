-- ===== src/Examples/Officer.antt =====
-- The switches, the exits and the drawdown of the Risk Officer.
use shrap_firm.Prelude.{◌≡◌, refl, true, false, not, none, some, List, [], ◌∷◌, ◌++◌, if◌then◌else◌}
use shrap_firm.Prelude.Text.{text_Eq, codes}
use shrap_firm.Prelude.Double.{◌<=◌}
use shrap_firm.Risk.Monitor.{
  EquityPoint, peak_drawdown, drawdown_from, falls_from, IsGreatest, peak_drawdown_lem,
}
use shrap_firm.Risk.Exits.{PositionPnL, ExitRule, stop_loss, evaluate_exits, stop_loss_fires}
use shrap_firm.Examples.Numbers.{
  Hundredths, pos, negsuc, Hundredths_Double, Hundredths-IsOrdered, le, neg, add, div,
}

abbrev position : PositionPnL Hundredths
position = record {
  ticker = codes "TSLA";
  quantity = pos 400;
  market_value = pos 90000;
  unrealized_plpc = some (negsuc 9);
  unrealized_intraday_plpc = none;
}

abbrev rule : ExitRule Hundredths
rule = record {
  take_profit_pct = some (pos 20);
  stop_loss_pct = some (pos 8);
  intraday_take_profit_pct = none;
  intraday_stop_loss_pct = none;
}

reached : (negsuc 9 <= neg (pos 8)) ≡ true
unfolding le neg
reached = refl

held : (pos 0 <= pos 400) ≡ true
unfolding le
held = refl

long : not (pos 400 <= pos 0) ≡ true
unfolding le
long = refl

tradeable :
    not (pos 100 <= (if not (pos 0 <= pos 90000) then neg (pos 90000) else pos 90000)) ≡ false
unfolding le neg
tradeable = refl

-- Another position stands before it, and one that makes a profit after it.
abbrev flat : PositionPnL Hundredths
flat = record position { ticker = codes "GD"; quantity = pos 0 }

abbrev winner : PositionPnL Hundredths
winner = record position { ticker = codes "AAPL"; unrealized_plpc = some (pos 25) }

stop_loss_fires_example :
    evaluate_exits (pos 100) rule [] (flat ∷ position ∷ winner ∷ [])
    ≡ evaluate_exits (pos 100) rule [] (flat ∷ [])
      ++ record {
        ticker = codes "TSLA";
        quantity = pos 400;
        reason = stop_loss;
        measured_pct = negsuc 9;
        threshold_pct = pos 8;
      }
        ∷ evaluate_exits (pos 100) rule [] (winner ∷ [])
stop_loss_fires_example =
    stop_loss_fires (pos 100) rule [] (flat ∷ []) position (winner ∷ []) (pos 8) (negsuc 9) refl
      refl reached held long refl tradeable

abbrev points : List (EquityPoint Hundredths)
points =
    record { at = 1; equity = pos 10000 }
    ∷ record { at = 2; equity = pos 12000 }
    ∷ record { at = 3; equity = pos 9000 }
    ∷ []

worst : peak_drawdown points ≡ some (pos 25)
unfolding peak_drawdown drawdown_from le neg add div
worst = refl

peak_drawdown_lem_example :
    (p : EquityPoint Hundredths) × (q : EquityPoint Hundredths) × (ps : List
      (EquityPoint Hundredths))
    × (points ≡ p ∷ q ∷ ps)
    × IsGreatest (pos 25) (pos 0) (falls_from p.equity (q ∷ ps))
peak_drawdown_lem_example = peak_drawdown_lem Hundredths-IsOrdered points (pos 25) worst
