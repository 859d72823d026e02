-- ===== src/Runner/Planner/Once.antt =====
-- A strategy of src/shrap/research/strategy_runner/engine.py acts once in a session and slot.
use shrap_firm.Prelude.{
  ℕ, ◌≡◌, refl, Bool, true, false, ◌||◌, none, some, List, [], ◌∷◌, arith, ◌==◌, pair_Eq, option_eq,
  nat_Eq, equal_refl, Option-cases, inl, inr, contains,
}
use shrap_firm.Prelude.Text.{Text, text_Eq, text_eq_iff}
use shrap_firm.Prelude.Dict.{get, get-put}
use shrap_firm.Prelude.Double.{Double}
use shrap_firm.Runner.Cadence.{Slot, session_slot, clock, slot_for}
use shrap_firm.Runner.Engine.{
  RunnerSignalConfig, TargetState, StoredState, StrategyInput, PlannedSignal, PlannedStateWrite,
  ran_already, Desk, already_ran, is_stamped, slot_equal,
}
use shrap_firm.Runner.Planner.Shape.{plan_strategy_shape}
use shrap_firm.Runner.Planner.{plan_ticker, plan_tickers, plan_strategy, upsert, upsert_all}

slot_equal_refl : (s : Slot) → slot_equal s s ≡ true
slot_equal_refl session_slot = refl
slot_equal_refl (clock h m) = ground arith

slot_equal_of : (s t : Slot) → s ≡ t → slot_equal s t ≡ true
slot_equal_of s t same = rw (same) (slot_equal_refl t)

module _ {F : Type 0} ⦃d : Double F⦄ where
  -- Writes that all stamp this session and slot, for this strategy.
  abbrev Stamps : Text → ℕ → Slot → List (PlannedStateWrite F) → Type 0
  Stamps id session slot [] = Unit
  Stamps id session slot (w ∷ ws) =
      (w.strategy_id ≡ id)
      × (w.last_session_date ≡ session)
      × (w.last_slot ≡ slot)
      × Stamps id session slot ws

  -- One of the writes is for the ticker.
  abbrev writes_to : Text → List (PlannedStateWrite F) → Bool
  writes_to ticker [] = false
  writes_to ticker (w ∷ ws) = w.ticker == ticker || writes_to ticker ws

  upsert_stamped :
      (id ticker : Text) (session : ℕ) (slot : Slot) (w : PlannedStateWrite F)
      (stored : StoredState F)
      → w.strategy_id ≡ id
      → w.last_session_date ≡ session
      → w.last_slot ≡ slot
      → is_stamped session slot (get (upsert w stored) (id, ticker))
        ≡ (w.ticker == ticker || is_stamped session slot (get stored (id, ticker)))
  unfolding upsert option_eq
  upsert_stamped id ticker session slot w stored own same_day same_slot =
      let row : TargetState F = record {
        last_target = w.last_target;
        last_side = w.last_side;
        last_session_date = some w.last_session_date;
        last_quantity = w.last_quantity;
        last_slot = w.last_slot;
      } in
      ground (
        arith,
        get-put stored (w.strategy_id, w.ticker) (id, ticker) row,
        text_eq_iff w.strategy_id id,
        slot_equal_of w.last_slot slot same_slot,
      )

  upsert_all_stamped :
      (id ticker : Text) (session : ℕ) (slot : Slot) (ws : List (PlannedStateWrite F))
      (stored : StoredState F)
      → Stamps id session slot ws
      → is_stamped session slot (get (upsert_all ws stored) (id, ticker))
        ≡ (writes_to ticker ws || is_stamped session slot (get stored (id, ticker)))
  unfolding upsert_all
  upsert_all_stamped id ticker session slot [] stored stamps = refl
  upsert_all_stamped id ticker session slot (w ∷ ws) stored stamps = ground (
    arith,
    upsert_all_stamped id ticker session slot ws (upsert w stored) stamps.3,
    upsert_stamped id ticker session slot w stored stamps.0 stamps.1 stamps.2,
  )

  already_ran_first :
      (id first : Text) (others : List Text) (stored : StoredState F) (session : ℕ) (slot : Slot)
      → is_stamped session slot (get stored (id, first)) ≡ true
      → already_ran id (first ∷ others) stored session slot ≡ true
  unfolding already_ran
  already_ran_first id first others stored session slot stamped = ground arith

  ran_is_skip :
      (config : RunnerSignalConfig F) (desk : Desk F) (item : StrategyInput F)
      (stored : StoredState F) (equity : F)
      → already_ran item.strategy_id item.tickers stored desk.session_date
          (slot_for item.cadence desk.hour desk.minute)
        ≡ true
      → let plan = plan_strategy config desk item stored equity in
        (plan.skip_reason ≡ some ran_already) × (plan.signals ≡ [])
  unfolding plan_strategy
  ran_is_skip config desk item stored equity ran = ground arith

  module _ (config : RunnerSignalConfig F) (desk : Desk F) (item : StrategyInput F)
      (stored : StoredState F) (equity : F) where
    plan_ticker_writes :
        (weights : Text → F) (ticker : Text) (signals : List (PlannedSignal F))
        (w : PlannedStateWrite F)
        → plan_ticker config desk item stored equity weights ticker ≡ some (signals, w)
        → (w.strategy_id ≡ item.strategy_id)
          × (w.ticker ≡ ticker)
          × (w.last_session_date ≡ desk.session_date)
          × (w.last_slot ≡ slot_for item.cadence desk.hour desk.minute)
    unfolding plan_ticker
    plan_ticker_writes weights ticker signals w went = ground arith

    plan_tickers-Stamps :
        (weights : Text → F) (tickers : List Text) (signals : List (PlannedSignal F))
        (ws : List (PlannedStateWrite F))
        → plan_tickers config desk item stored equity weights tickers ≡ some (signals, ws)
        → Stamps item.strategy_id desk.session_date (slot_for item.cadence desk.hour desk.minute) ws
          × ((ticker : Text) → contains tickers ticker ≡ true → writes_to ticker ws ≡ true)
    unfolding plan_tickers
    plan_tickers-Stamps weights [] signals ws went =
        let same : [] ≡ ws = ground arith in (rw (← same) (record {}), λ ticker h. ground arith)
    plan_tickers-Stamps weights (t ∷ ts) signals ws went =
        elim (Option-cases (plan_ticker config desk item stored equity weights t)) [
          | inl raised ↦ ground arith
          | inr ((own, w), planned) ↦
              elim (Option-cases (plan_tickers config desk item stored equity weights ts)) [
                | inl raised ↦ ground arith
                | inr ((more, rest), planned_rest) ↦
                    let (a, b, c, e) = plan_ticker_writes weights t own w planned in
                    let (stamps, covers) = plan_tickers-Stamps weights ts more rest planned_rest in
                    let same : w ∷ rest ≡ ws = ground arith in
                    rw (← same) ((a, c, e, stamps), λ ticker h. ground (arith, covers ticker, b))
              ]
        ]

    -- A pass that was not skipped stamped the strategy's tickers: a later pass of a strategy with the
    -- same identifier and the same tickers, in the same session and slot, over the state that the first
    -- one left, is skipped as already run and emits nothing, whatever the strategy's code and bars, the
    -- equity, the book and the settings are then.
    pub plan_strategy_once :
        let first = plan_strategy config desk item stored equity in
        first.skip_reason ≡ none
        → (config' : RunnerSignalConfig F) (desk' : Desk F) (item' : StrategyInput F) (equity' : F)
        → item'.strategy_id ≡ item.strategy_id
        → item'.tickers ≡ item.tickers
        → desk'.session_date ≡ desk.session_date
        → slot_for item'.cadence desk'.hour desk'.minute
          ≡ slot_for item.cadence desk.hour desk.minute
        → let second =
            plan_strategy config' desk' item' (upsert_all first.state_writes stored) equity' in
          (second.skip_reason ≡ some ran_already) × (second.signals ≡ [])
    plan_strategy_once went config' desk' item' equity' same_id same_tickers same_day same_slot =
        let plan = plan_strategy config desk item stored equity in
        let after = upsert_all plan.state_writes stored in
        let slot = slot_for item.cadence desk.hour desk.minute in
        let (first, others, weights, shape, at) =
          plan_strategy_shape config desk item stored equity went in
        let (stamps, covers) =
          plan_tickers-Stamps weights item.tickers plan.signals plan.state_writes at in
        let has : contains item.tickers first ≡ true = ground (arith, equal_refl first) in
        let stamped : is_stamped desk.session_date slot (get after (item.strategy_id, first))
            ≡ true =
          ground (
            arith,
            covers first has,
            upsert_all_stamped item.strategy_id first desk.session_date slot plan.state_writes
                stored stamps,
          ) in
        let ran : already_ran item.strategy_id (first ∷ others) after desk.session_date slot
            ≡ true =
          already_ran_first item.strategy_id first others after desk.session_date slot stamped in
        let slot' = slot_for item'.cadence desk'.hour desk'.minute in
        let again : already_ran item'.strategy_id item'.tickers after desk'.session_date slot'
            ≡ true =
          cc in
        ran_is_skip config' desk' item' after equity' again
