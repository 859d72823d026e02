-- ===== src/Runner/Planner/LongOnly.antt =====
-- The orders that src/shrap/research/strategy_runner/engine.py emits against what the account holds.
use shrap_firm.Prelude.{
  ◌≡◌, ◌⊎◌, refl, Bool, true, false, Option, some, List, [], ◌∷◌, ◌++◌, arith, if◌then◌else◌,
  Bool-cases, Option-cases, inl, inr, All, All-append, pair_Eq,
}
use shrap_firm.Prelude.Text.{Text, text_Eq}
use shrap_firm.Prelude.Dict.{get}
use shrap_firm.Prelude.Double.{Double, IsOrdered, ◌<=◌, ◌<<◌}
use shrap_firm.Runner.Sizing.{size_position, size_position-le, is_dormant}
use shrap_firm.Runner.Engine.{
  Side, side_buy, side_sell, RunnerSignalConfig, StoredState, StrategyInput, PlannedSignal,
  PlannedStateWrite, Desk, Move, or_nothing, plan_resize, enter, resize, decide,
}
use shrap_firm.Runner.Planner.{
  position_of, or_flat, routed, signals_of, plan_ticker, plan_tickers, plan_strategy,
}
use shrap_firm.Runner.Planner.Shape.{plan_strategy_shape, skipped_signals}

module _ {F : Type 0} ⦃d : Double F⦄ where
  -- A sell is of at most a position that is there; a buy is of at most the cap, and it adds to a
  -- position or the strategy is awake.
  abbrev pub Allows : F → Bool → F → Side → F → Type 0
  Allows cap asleep position side_sell quantity =
      ((d.nought << position) ≡ true) × ((quantity <= position) ≡ true)
  Allows cap asleep position side_buy quantity =
      ((quantity <= cap) ≡ true) × ((asleep ≡ false) ⊎ ((d.nought << position) ≡ true))

  module _ (laws : IsOrdered F) where
    plan_resize-Allows :
        (full position price scale band min_notional cap : F) (asleep : Bool) (side : Side) (q : F)
        → ((d.nought << full) ≡ true → (full <= cap) ≡ true)
        → (d.nought << position) ≡ true
        → plan_resize full position price scale band min_notional ≡ some (side, q)
        → Allows cap asleep position side q
    unfolding plan_resize
    plan_resize-Allows full position price scale band min_notional cap asleep side_buy q small held
          at =
        let gap = d.sub (d.mul full scale) position in
        (
          ground (
            arith,
            laws.le_trans q full cap,
            laws.le_refl full,
            laws.le_total (d.div gap scale) full,
          ),
          inr held,
        )
    plan_resize-Allows full position price scale band min_notional cap asleep side_sell q small held
          at =
        let gap = d.sub (d.mul full scale) position in
        (held, ground (arith, laws.le_refl position, laws.le_total (d.neg gap) position))

    module _ (config : RunnerSignalConfig F) (buy_scale : Option F)
        (equity weight position stored : F) (close : Option F) (asleep : Bool) where
      resize-Allows :
          (move : Move F) (side : Side) (q : F)
          → (d.nought << position) ≡ true
          → resize config buy_scale equity weight position stored close ≡ some move
          → move.order ≡ some (side, q)
          → Allows config.max_quantity asleep position side q
      unfolding resize
      resize-Allows move side q held at order = elim (Option-cases config.resize_band) [
        | inl off ↦ ground arith
        | inr (band, on) ↦ elim (Option-cases buy_scale) [
          | inl unknown ↦ ground arith
          | inr (scale, known) ↦ elim (Option-cases close) [
            | inl raised ↦ ground arith
            | inr (price, priced) ↦
                elim (Option-cases (size_position weight equity price config.max_quantity)) [
                  | inl refused ↦ ground arith
                  | inr (size, sized) ↦
                      let full = if d.nought << size then size else d.nought in
                      let small : (d.nought << full) ≡ true → (full <= config.max_quantity) ≡ true =
                        λ h. ground (
                          arith,
                          laws.le_refl d.nought,
                          size_position-le laws weight equity price config.max_quantity size sized,
                        ) in
                      let found : plan_resize full position price scale band
                            config.resize_min_notional
                          ≡ some (side, q) =
                        ground arith in
                      plan_resize-Allows full position price scale band config.resize_min_notional
                        config.max_quantity asleep side q small held found
                ]
          ]
        ]
      ]

      enter-Allows :
          (move : Move F) (side : Side) (q : F)
          → asleep ≡ false
          → enter config equity weight close ≡ some move
          → move.order ≡ some (side, q)
          → Allows config.max_quantity asleep position side q
      unfolding enter
      enter-Allows move side q awake at order = elim (Option-cases close) [
        | inl raised ↦ ground arith
        | inr (price, priced) ↦
            elim (Option-cases (size_position weight equity price config.max_quantity)) [
              | inl refused ↦ ground arith
              | inr (size, sized) ↦
                  let is_buy : side ≡ side_buy = ground arith in
                  let small : (q <= config.max_quantity) ≡ true = ground (
                    arith,
                    size_position-le laws weight equity price config.max_quantity size sized,
                  ) in
                  rw (is_buy) (small, inl awake)
            ]
      ]

      decide-Allows :
          (move : Move F) (side : Side) (q : F)
          → ((d.nought << weight) ≡ true → (d.nought << position) ≡ false → asleep ≡ false)
          → decide config buy_scale equity weight position stored close ≡ some move
          → move.order ≡ some (side, q)
          → Allows config.max_quantity asleep position side q
      unfolding decide
      decide-Allows move side q awake at order = elim (Bool-cases (d.nought << weight)) [
        | inl wanted ↦ elim (Bool-cases (d.nought << position)) [
          | inl held ↦ resize-Allows move side q held (ground arith) order
          | inr flat ↦ enter-Allows move side q (awake wanted flat) (ground arith) order
        ]
        | inr unwanted ↦ elim (Bool-cases (d.nought << position)) [
          | inl held ↦
              let is_sell : side ≡ side_sell = ground arith in
              rw (is_sell) (held, ground (arith, laws.le_refl position))
          | inr flat ↦ ground arith
        ]
      ]

  -- An order against the position that the account holds of its ticker.
  pub record IsLong (config : RunnerSignalConfig F) (desk : Desk F) (item : StrategyInput F)
      (s : PlannedSignal F) : Type 0 where
    pub own_account : s.account_id ≡ desk.account_id
    pub allowed :
        Allows config.max_quantity
          (is_dormant desk.regime_label item.regime_fit item.regime_kill)
          (or_nothing (get desk.held s.ticker))
          s.side
          s.quantity

  module _ (laws : IsOrdered F) (config : RunnerSignalConfig F) (desk : Desk F)
      (item : StrategyInput F) (stored : StoredState F) (equity : F) where
    plan_ticker-IsLong :
        (weights : Text → F) (ticker : Text) (signals : List (PlannedSignal F))
        (w : PlannedStateWrite F)
        → plan_ticker config desk item stored equity weights ticker ≡ some (signals, w)
        → All (IsLong config desk item) signals
    unfolding plan_ticker
    plan_ticker-IsLong weights ticker signals w went =
        let asleep = is_dormant desk.regime_label item.regime_fit item.regime_kill in
        let position = position_of desk ticker in
        let prev = or_flat (get stored (item.strategy_id, ticker)) in
        let weight = routed config desk item stored equity (weights ticker) position in
        let close = item.closes ticker in
        let awake : (d.nought << weight) ≡ true → (d.nought << position) ≡ false → asleep ≡ false =
          λ h k. ground (arith, laws.le_refl d.nought) in
        elim (Bool-cases (position << d.nought)) [
          | inl short ↦ let none_out : [] ≡ signals = ground arith in rw (← none_out) (record {})
          | inr long ↦
              elim (Option-cases
                (decide config desk.buy_scale equity weight position prev.last_quantity close)) [
                  | inl raised ↦ ground arith
                  | inr (move, decided) ↦ elim (Option-cases move.order) [
                    | inl idle ↦
                        let none_out : [] ≡ signals = ground arith in rw (← none_out) (record {})
                    | inr ((side, q), order) ↦
                        let fine =
                          decide-Allows laws config desk.buy_scale equity weight position
                            prev.last_quantity close asleep move side q awake decided order in
                        let out : signals_of config desk item stored equity ticker (some (side, q))
                            ≡ signals =
                          ground arith in
                        rw (← out) (record { own_account = refl; allowed = fine }, record {})
                  ]
                ]
        ]

    plan_tickers-IsLong :
        (weights : Text → F) (tickers : List Text) (signals : List (PlannedSignal F))
        (ws : List (PlannedStateWrite F))
        → plan_tickers config desk item stored equity weights tickers ≡ some (signals, ws)
        → All (IsLong config desk item) signals
    unfolding plan_tickers
    plan_tickers-IsLong weights [] signals ws went =
        let none_out : [] ≡ signals = ground arith in rw (← none_out) (record {})
    plan_tickers-IsLong weights (t ∷ ts) signals ws went =
        elim (Option-cases (plan_ticker config desk item stored equity weights t)) [
          | inl raised ↦ ground arith
          | inr ((own, w), planned) ↦
              elim (Option-cases (plan_tickers config desk item stored equity weights ts)) [
                | inl raised ↦ ground arith
                | inr ((more, rest), planned_rest) ↦
                    let out : own ++ more ≡ signals = ground arith in
                    rw (← out) (
                      All-append (IsLong config desk item) own more
                        (plan_ticker-IsLong weights t own w planned)
                        (plan_tickers-IsLong weights ts more rest planned_rest))
              ]
        ]

    -- Every signal of a plan names the account that it was planned for. A sell is of at most the shares
    -- that the account holds, and it holds some, so no signal opens a short. A buy is of at most the
    -- cap, and where the strategy is dormant in the regime it only adds to a position that is there.
    pub plan_strategy-IsLong :
        All (IsLong config desk item) (plan_strategy config desk item stored equity).signals
    plan_strategy-IsLong =
        let plan = plan_strategy config desk item stored equity in
        elim (Option-cases plan.skip_reason) [
          | inl went ↦
              let (first, others, weights, shape, at) =
                plan_strategy_shape config desk item stored equity went in
              plan_tickers-IsLong weights item.tickers plan.signals plan.state_writes at
          | inr (reason, skipped) ↦
              rw (skipped_signals config desk item stored equity reason skipped) (record {})
        ]
