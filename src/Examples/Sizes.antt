-- ===== src/Examples/Sizes.antt =====
-- The book, the limits and the portfolio gate of the Risk Officer on hundredths.
use shrap_firm.Prelude.{
  ℕ, suc, ◌*◌, ◌/◌, ◌≤◌, ◌≡◌, ◌≢◌, refl, true, not, none, some, [], ◌∷◌, arith, if◌then◌else◌,
}
use shrap_firm.Prelude.Text.{Text, text_Eq, codes, strip, upper, is_space}
use shrap_firm.Prelude.Dict.{get}
use shrap_firm.Prelude.Double.{◌<=◌, same}
use shrap_firm.Risk.Exposure.{
  BookExposure, symbol_of, by_ticker, combined_value, projected, projected_lem,
}
use shrap_firm.Risk.Limits.{
  PortfolioLimits, quarter, is_valid, regime_multiplier, scaled_for_regime, IsWithin,
  scaled_for_regime_lem,
}
use shrap_firm.Risk.Gate.{midpoint, IsHalving, Decimals, quantize_down}
use shrap_firm.Examples.Numbers.{
  Hundredths, pos, negsuc, Hundredths_Double, Hundredths-IsOrdered, le, neg, neg_of, add, mul, div,
}

abbrev pub holdings : BookExposure Hundredths
holdings = record {
  nav = pos 1_000_000;
  positions =
      record { ticker = codes "tsla"; quantity = pos 400; market_value = pos 90_000 }
      ∷ record { ticker = codes "GD"; quantity = pos 100; market_value = pos 30_000 }
      ∷ [];
}

add-nought : (x : Hundredths) → add (pos 0) x ≡ x
unfolding add
add-nought (pos n) = ground arith
add-nought (negsuc n) = ground arith

tsla_is_normal : symbol_of (codes "TSLA") ≡ codes "TSLA"
unfolding symbol_of strip upper is_space
tsla_is_normal = refl

projected_lem_example :
    let after = projected holdings (codes "TSLA") (negsuc 19_999) in
    let worth = combined_value holdings (codes "TSLA") (negsuc 19_999) in
    (after.nav ≡ pos 1_000_000)
    × (get (by_ticker after) (codes "TSLA") ≡ (if same worth (pos 0) then none else some worth))
    × ((other : Text)
        → codes "TSLA" ≢ other
        → get (by_ticker after) other ≡ get (by_ticker holdings) other)
projected_lem_example =
    projected_lem holdings (codes "TSLA") (negsuc 19_999) add-nought tsla_is_normal

abbrev pub limits : PortfolioLimits Hundredths
limits = record {
  max_ticker_weight = pos 20;
  max_gross_exposure = pos 100;
  max_net_exposure = pos 100;
  max_cluster_weight = pos 15;
  max_daily_loss = pos 2;
  max_strategy_drawdown = pos 25;
  correlation_threshold = pos 80;
  min_cluster_history = 40;
}

limits_are_valid : is_valid limits ≡ true
unfolding is_valid le neg
limits_are_valid = refl

quarter-le : (quarter {F = Hundredths} <= pos 100) ≡ true
unfolding le div add
quarter-le = refl

product-le : (n k : ℕ) → k ≤ 100 → n * k / 100 ≤ n
product-le n k h = let bound : n * k ≤ n * 100 = grind arith in omega arith

shrinks :
    (a m : Hundredths) → not (le a (pos 0)) ≡ true → le m (pos 100) ≡ true → le (mul a m) a ≡ true
unfolding le mul
shrinks (pos n) (pos k) positive small = ground (arith, product-le n k)
shrinks (pos n) (negsuc k) positive small = ground arith
shrinks (negsuc n) m positive small = ground arith

scaled_for_regime_lem_example :
    let m = regime_multiplier (some (codes "wartime")) (some (pos 50, pos 75)) in
    ((m <= pos 100) ≡ true) × IsWithin (scaled_for_regime m limits) limits
scaled_for_regime_lem_example =
    scaled_for_regime_lem Hundredths-IsOrdered quarter-le shrinks (some (codes "wartime"))
      (some (pos 50, pos 75)) limits limits_are_valid

low-midpoint : (a b : Hundredths) → le a b ≡ true → le a (midpoint a b) ≡ true
unfolding le add div
low-midpoint (pos a) (pos b) h = ground arith
low-midpoint (pos a) (negsuc b) h = ground arith
low-midpoint (negsuc a) (pos b) h = ground arith
low-midpoint (negsuc a) (negsuc b) h = ground arith

midpoint-high : (a b : Hundredths) → le a b ≡ true → le (midpoint a b) b ≡ true
unfolding le add div
midpoint-high (pos a) (pos b) h = ground arith
midpoint-high (pos a) (negsuc b) h = ground arith
midpoint-high (negsuc a) (pos b) h = ground arith
midpoint-high (negsuc a) (negsuc b) h = ground arith

-- A decimal is a number of hundredths, and the broker takes tenths.
abbrev cut_to_tenth : Hundredths → Hundredths
cut_to_tenth (pos n) = pos (n / 10 * 10)
cut_to_tenth (negsuc n) = neg_of (suc n / 10 * 10)

abbrev pub tenths : Decimals Hundredths Hundredths
tenths = record { of_repr = λ x. x; cut = cut_to_tenth; to_float = λ x. x }

tenth-le : (a : Hundredths) → le (pos 0) a ≡ true → le (quantize_down tenths a) a ≡ true
unfolding le quantize_down
tenth-le (pos n) positive = ground arith
tenth-le (negsuc n) positive = ground arith

pub tenths-IsHalving : (most : Hundredths) → IsHalving (quantize_down tenths) most
tenths-IsHalving most = record {
  midpoint-ge = λ a b from up to. low-midpoint a b up;
  midpoint-le = λ a b from up to. midpoint-high a b up;
  truncate-le = tenth-le;
}
