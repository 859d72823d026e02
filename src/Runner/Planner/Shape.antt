-- ===== src/Runner/Planner/Shape.antt =====
-- The plans of src/shrap/research/strategy_runner/engine.py that were not skipped.
use shrap_firm.Prelude.{
  ℕ, ◌≡◌, not, none, some, List, [], ◌∷◌, arith, Bool-cases, Option-cases, List-cases, inl, inr,
  some_of,
}
use shrap_firm.Prelude.Text.{Text, text_Eq}
use shrap_firm.Prelude.Double.{Double}
use shrap_firm.Runner.Cadence.{slot_for}
use shrap_firm.Runner.Engine.{
  RunnerSignalConfig, StoredState, StrategyInput, Desk, already_ran, SkipReason,
}
use shrap_firm.Runner.Planner.{plan_tickers, plan_on_bars, plan_strategy}

module _ {F : Type 0} ⦃d : Double F⦄ (config : RunnerSignalConfig F) (desk : Desk F)
    (item : StrategyInput F) (stored : StoredState F) (equity : F) where
  plan_on_bars_shape :
      (warmup : ℕ)
      → let plan = plan_on_bars config desk item stored equity warmup in
        plan.skip_reason ≡ none
        → (weights : Text → F) × (plan_tickers config desk item stored equity weights item.tickers
            ≡ some (plan.signals, plan.state_writes))
  unfolding plan_on_bars
  plan_on_bars_shape warmup went = elim (Option-cases item.n_bars) [
    | inl raised ↦ ground arith
    | inr (n, counted) ↦ elim (Option-cases item.weights) [
      | inl raised ↦ ground arith
      | inr (weights, weighed) ↦
          elim (Option-cases (plan_tickers config desk item stored equity weights item.tickers)) [
            | inl raised ↦ ground arith
            | inr ((signals, writes), planned) ↦ (weights, ground arith)
          ]
    ]
  ]

  -- Such a plan is that of the loop over the tickers, of which there are some.
  pub plan_strategy_shape :
      let plan = plan_strategy config desk item stored equity in
      plan.skip_reason ≡ none
      → (first : Text) × (others : List Text) × (weights : Text → F) × (item.tickers
          ≡ first ∷ others)
        × (plan_tickers config desk item stored equity weights item.tickers
            ≡ some (plan.signals, plan.state_writes))
  unfolding plan_strategy
  plan_strategy_shape went =
      let ran =
        already_ran item.strategy_id item.tickers stored desk.session_date
          (slot_for item.cadence desk.hour desk.minute) in
      elim (Bool-cases ran) [
        | inl before ↦ ground arith
        | inr due ↦ elim (List-cases item.tickers) [
          | inl nothing ↦ ground arith
          | inr (first, others, shape) ↦ elim (Option-cases item.warmup) [
            | inl raised ↦ ground arith
            | inr (warmup, built) ↦
                let missing = some_of (λ ticker. not (item.has_bars ticker)) item.tickers in
                elim (Bool-cases missing) [
                  | inl gap ↦ ground arith
                  | inr whole ↦
                      let same : plan_strategy config desk item stored equity
                          ≡ plan_on_bars config desk item stored equity warmup =
                        ground arith in
                      let on_bars : (plan_on_bars config desk item stored equity warmup).skip_reason
                          ≡ none =
                        ground arith in
                      let (weights, at) = plan_on_bars_shape warmup on_bars in
                      (first, others, weights, shape, rw (same) at)
                ]
          ]
        ]
      ]

  -- A plan that was skipped has no signals.
  pub skipped_signals :
      (reason : SkipReason)
      → let plan = plan_strategy config desk item stored equity in
        plan.skip_reason ≡ some reason → plan.signals ≡ []
  unfolding plan_strategy plan_on_bars
  skipped_signals reason skipped = ground arith
