-- ===== src/Risk/Exits.antt =====
-- src/shrap/risk_compliance/risk_officer/exits.py: take a profit, or cut a loss. `min_notional` is
-- `MIN_TRADEABLE_NOTIONAL`.
use shrap_firm.Prelude.{
  ◌≡◌, inl, inr, Bool, true, false, ◌&&◌, ◌||◌, not, Option, none, some, List, [], ◌∷◌, ◌++◌, refl,
  arith, contains, if◌then◌else◌, is_none, Bool-cases, Option-cases,
}
use shrap_firm.Prelude.Text.{Text, text_Eq}
use shrap_firm.Prelude.Double.{Double, IsOrdered, ◌<=◌, ◌<<◌, same, abs_float}

pub record PositionPnL (F : Type 0) : Type 0 where
  pub ticker : Text
  pub quantity : F
  pub market_value : F
  pub unrealized_plpc : Option F
  pub unrealized_intraday_plpc : Option F

pub record ExitRule (F : Type 0) : Type 0 where
  pub take_profit_pct : Option F
  pub stop_loss_pct : Option F
  pub intraday_take_profit_pct : Option F
  pub intraday_stop_loss_pct : Option F

pub data ExitReason : Type 0 where
  take_profit stop_loss intraday_take_profit intraday_stop_loss : ExitReason

pub record ExitDecision (F : Type 0) : Type 0 where
  pub ticker : Text
  pub quantity : F
  pub reason : ExitReason
  pub measured_pct : F
  pub threshold_pct : F

module _ {F : Type 0} ⦃d : Double F⦄ where
  abbrev usable : Option F → Bool
  usable none = true
  usable (some v) = d.nought << v

  -- `ExitRule.__post_init__`
  unfoldable pub is_valid_rule : ExitRule F → Bool
  is_valid_rule r =
      usable r.take_profit_pct
      && (usable r.stop_loss_pct
          && (usable r.intraday_take_profit_pct && usable r.intraday_stop_loss_pct))

  -- One threshold against one reading: the threshold, if the reading is at or below its negative.
  unfoldable pub stopped : Option F → F → Option F
  stopped none pct = none
  stopped (some t) pct = if pct <= d.neg t then some t else none

  unfoldable pub profited : Option F → F → Option F
  profited none pct = none
  profited (some t) pct = if t <= pct then some t else none

  abbrev decision : PositionPnL F → ExitReason → F → F → ExitDecision F
  decision p reason pct t = record {
    ticker = p.ticker;
    quantity = abs_float p.quantity;
    reason = reason;
    measured_pct = pct;
    threshold_pct = t;
  }

  -- The stop before the profit, for one reading.
  unfoldable pub decide :
      PositionPnL F → ExitReason → ExitReason → Option F → Option F → F → Option (ExitDecision F)
  unfolding stopped profited
  decide p loss gain stop take pct = elim (stopped stop pct) [
    | some t ↦ some (decision p loss pct t)
    | none ↦ elim (profited take pct) [ some t ↦ some (decision p gain pct t) | none ↦ none ]
  ]

  unfoldable pub since_entry : ExitRule F → PositionPnL F → Option (ExitDecision F)
  unfolding decide
  since_entry r p = elim p.unrealized_plpc [
    | none ↦ none
    | some pct ↦ decide p stop_loss take_profit r.stop_loss_pct r.take_profit_pct pct
  ]

  unfoldable pub intraday : ExitRule F → PositionPnL F → Option (ExitDecision F)
  unfolding decide
  intraday r p = elim p.unrealized_intraday_plpc [
    | none ↦ none
    | some pct ↦
        decide p intraday_stop_loss intraday_take_profit r.intraday_stop_loss_pct
          r.intraday_take_profit_pct pct
  ]

  -- The body of the loop: at most one decision for a position.
  unfoldable pub evaluate_position :
      F → ExitRule F → List Text → PositionPnL F → Option (ExitDecision F)
  unfolding since_entry intraday
  evaluate_position min_notional r suppressed p =
      if contains suppressed p.ticker
      then none
      else if p.quantity << d.nought
      then none
      else if same p.quantity d.nought
      then none
      else if abs_float p.market_value << min_notional
      then none
      else elim (since_entry r p) [ some x ↦ some x | none ↦ intraday r p ]

  -- `is_armed`
  unfoldable pub is_armed : ExitRule F → Bool
  is_armed r =
      not (is_none r.take_profit_pct)
      || (not (is_none r.stop_loss_pct)
          || (not (is_none r.intraday_take_profit_pct) || not (is_none r.intraday_stop_loss_pct)))

  unfoldable pub evaluate_all :
      F → ExitRule F → List Text → List (PositionPnL F) → List (ExitDecision F)
  evaluate_all min_notional r suppressed [] = []
  evaluate_all min_notional r suppressed (p ∷ ps) =
      let rest = evaluate_all min_notional r suppressed ps in
      elim (evaluate_position min_notional r suppressed p) [ none ↦ rest | some x ↦ x ∷ rest ]

  -- `evaluate_exits`
  unfoldable pub evaluate_exits :
      F → ExitRule F → List Text → List (PositionPnL F) → List (ExitDecision F)
  unfolding evaluate_all
  evaluate_exits min_notional r suppressed ps =
      if not (is_armed r) then [] else evaluate_all min_notional r suppressed ps

  -- The reading and the threshold that a reason is about, and whether one reached the other.
  abbrev pub reading : ExitReason → PositionPnL F → Option F
  reading take_profit p = p.unrealized_plpc
  reading stop_loss p = p.unrealized_plpc
  reading intraday_take_profit p = p.unrealized_intraday_plpc
  reading intraday_stop_loss p = p.unrealized_intraday_plpc

  abbrev pub threshold : ExitReason → ExitRule F → Option F
  threshold take_profit r = r.take_profit_pct
  threshold stop_loss r = r.stop_loss_pct
  threshold intraday_take_profit r = r.intraday_take_profit_pct
  threshold intraday_stop_loss r = r.intraday_stop_loss_pct

  abbrev pub is_reached : ExitReason → F → F → Bool
  is_reached take_profit pct t = t <= pct
  is_reached stop_loss pct t = pct <= d.neg t
  is_reached intraday_take_profit pct t = t <= pct
  is_reached intraday_stop_loss pct t = pct <= d.neg t

  -- Why a position may be sold under a rule.
  pub record IsExit (min_notional : F) (r : ExitRule F) (suppressed : List Text) (p : PositionPnL F)
      (x : ExitDecision F) : Type 0 where
    pub ticker : x.ticker ≡ p.ticker
    pub quantity : x.quantity ≡ p.quantity
    pub long : (d.nought << p.quantity) ≡ true
    pub free : contains suppressed p.ticker ≡ false
    pub tradeable : (min_notional <= abs_float p.market_value) ≡ true
    pub measured : reading x.reason p ≡ some x.measured_pct
    pub asked : threshold x.reason r ≡ some x.threshold_pct
    pub reached : is_reached x.reason x.measured_pct x.threshold_pct ≡ true

  evaluate_position-IsExit :
      IsOrdered F
      → (min_notional : F) (r : ExitRule F) (suppressed : List Text) (p : PositionPnL F)
        (x : ExitDecision F)
      → evaluate_position min_notional r suppressed p ≡ some x
      → IsExit min_notional r suppressed p x
  unfolding evaluate_position since_entry intraday decide stopped profited
  evaluate_position-IsExit laws min_notional r suppressed p x e =
      let below = laws.le_total p.quantity d.nought in
      let above = laws.le_total d.nought p.quantity in
      let dust = laws.le_total (abs_float p.market_value) min_notional in
      let dust_too = laws.le_total min_notional (abs_float p.market_value) in
      record {
        ticker = ground arith;
        quantity = ground arith;
        long = ground arith;
        free = ground arith;
        tradeable = ground arith;
        measured = ground arith;
        asked = ground arith;
        reached = ground arith;
      }

  -- A list of decisions that sells some of the positions, each at most once, in their order.
  pub data Sells (min_notional : F) (r : ExitRule F) (suppressed : List Text)
      : List (PositionPnL F) → List (ExitDecision F) → Type 0 where
    done : Sells min_notional r suppressed [] []
    holds :
        {p : PositionPnL F} {ps : List (PositionPnL F)} {xs : List (ExitDecision F)}
        → Sells min_notional r suppressed ps xs
        → Sells min_notional r suppressed (p ∷ ps) xs
    sells :
        {p : PositionPnL F} {ps : List (PositionPnL F)} {x : ExitDecision F}
        {xs : List (ExitDecision F)}
        → IsExit min_notional r suppressed p x
        → Sells min_notional r suppressed ps xs
        → Sells min_notional r suppressed (p ∷ ps) (x ∷ xs)

  holds_all :
      (min_notional : F) (r : ExitRule F) (suppressed : List Text) (ps : List (PositionPnL F))
      → Sells min_notional r suppressed ps []
  holds_all min_notional r suppressed [] = done
  holds_all min_notional r suppressed (p ∷ ps) = holds (holds_all min_notional r suppressed ps)

  evaluate_all-Sells :
      IsOrdered F
      → (min_notional : F) (r : ExitRule F) (suppressed : List Text) (ps : List (PositionPnL F))
      → Sells min_notional r suppressed ps (evaluate_all min_notional r suppressed ps)
  unfolding evaluate_all
  evaluate_all-Sells laws min_notional r suppressed [] = done
  evaluate_all-Sells laws min_notional r suppressed (p ∷ ps) =
      let rest = evaluate_all-Sells laws min_notional r suppressed ps in
      elim (Option-cases (evaluate_position min_notional r suppressed p)) [
        | inl none_found ↦ rw (none_found, evaluate_all) (holds rest)
        | inr (x, found) ↦
            rw (found, evaluate_all)
              (sells (evaluate_position-IsExit laws min_notional r suppressed p x found) rest)
      ]

  -- An exit pass sells each position at most once, in the order of the book, and only a long position
  -- of tradeable value with no exit in flight, for exactly the quantity held, because the reading of the
  -- position that the reason names has reached the threshold that the rule sets for it.
  pub evaluate_exits-Sells :
      IsOrdered F
      → (min_notional : F) (r : ExitRule F) (suppressed : List Text) (ps : List (PositionPnL F))
      → Sells min_notional r suppressed ps (evaluate_exits min_notional r suppressed ps)
  unfolding evaluate_exits
  evaluate_exits-Sells laws min_notional r suppressed ps = elim (Bool-cases (is_armed r)) [
    | inl armed ↦ rw armed (evaluate_all-Sells laws min_notional r suppressed ps)
    | inr unarmed ↦ rw unarmed (holds_all min_notional r suppressed ps)
  ]

  stop_loss_position :
      (min_notional : F) (r : ExitRule F) (suppressed : List Text) (p : PositionPnL F)
      (stop pct : F)
      → r.stop_loss_pct ≡ some stop
      → p.unrealized_plpc ≡ some pct
      → (pct <= d.neg stop) ≡ true
      → (d.nought <= p.quantity) ≡ true
      → (d.nought << p.quantity) ≡ true
      → contains suppressed p.ticker ≡ false
      → (abs_float p.market_value << min_notional) ≡ false
      → (is_armed r ≡ true)
        × (evaluate_position min_notional r suppressed p
            ≡ some (record {
              ticker = p.ticker;
              quantity = p.quantity;
              reason = stop_loss;
              measured_pct = pct;
              threshold_pct = stop;
            }))
  unfolding is_armed evaluate_position since_entry decide stopped
  stop_loss_position min_notional r suppressed p stop pct e f h le lt free big = ground arith

  evaluate_all-append :
      (min_notional : F) (r : ExitRule F) (suppressed : List Text) (ps qs : List (PositionPnL F))
      → evaluate_all min_notional r suppressed (ps ++ qs)
        ≡ evaluate_all min_notional r suppressed ps ++ evaluate_all min_notional r suppressed qs
  unfolding evaluate_all
  evaluate_all-append min_notional r suppressed [] qs = refl
  evaluate_all-append min_notional r suppressed (p ∷ ps) qs =
      let rest = evaluate_all-append min_notional r suppressed ps qs in ground arith

  -- A stop-loss that is reached always fires, wherever in the book the position stands and whatever else
  -- the book holds: the exits of the book are those of the positions before it, its sale as a stop-loss
  -- and those of the positions after it. The position is long, of tradeable value, with no exit in
  -- flight, and its loss since entry is at the stop.
  pub stop_loss_fires :
      (min_notional : F) (r : ExitRule F) (suppressed : List Text) (ps : List (PositionPnL F))
      (p : PositionPnL F) (qs : List (PositionPnL F)) (stop pct : F)
      → r.stop_loss_pct ≡ some stop
      → p.unrealized_plpc ≡ some pct
      → (pct <= d.neg stop) ≡ true
      → (d.nought <= p.quantity) ≡ true
      → (d.nought << p.quantity) ≡ true
      → contains suppressed p.ticker ≡ false
      → (abs_float p.market_value << min_notional) ≡ false
      → evaluate_exits min_notional r suppressed (ps ++ p ∷ qs)
        ≡ evaluate_exits min_notional r suppressed ps
          ++ record {
            ticker = p.ticker;
            quantity = p.quantity;
            reason = stop_loss;
            measured_pct = pct;
            threshold_pct = stop;
          }
            ∷ evaluate_exits min_notional r suppressed qs
  unfolding evaluate_exits evaluate_all
  stop_loss_fires min_notional r suppressed ps p qs stop pct e f h le lt free big =
      let (armed, fires) =
        stop_loss_position min_notional r suppressed p stop pct e f h le lt free big in
      let split = evaluate_all-append min_notional r suppressed ps (p ∷ qs) in ground arith
