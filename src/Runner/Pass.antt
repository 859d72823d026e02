-- ===== src/Runner/Pass.antt =====
-- `run_pass` of src/shrap/agents/research/strategy_runner/runner.py: one pass over the accounts. What it
-- publishes and stamps is a list of effects, in order; a crash or an exception of a service cuts that
-- list short. What the reads answer is an argument, and so are the strategies with their bars.
use shrap_firm.Prelude.{
  or_empty, ℕ, ◌+◌, ◌*◌, ◌≡◌, ◌⊎◌, refl, ◌∙◌, Bool, true, false, not, ◌&&◌, ◌||◌, Option, none,
  some, List, [], ◌∷◌, ◌++◌, map, arith, ltb, if◌then◌else◌, keep, is_none, All, All-append,
  Option-cases, Bool-cases, inl, inr,
}
use shrap_firm.Prelude.Text.{Text, text_Eq, is_empty}
use shrap_firm.Prelude.Dict.{Dict, get, put}
use shrap_firm.Prelude.Double.{Double, IsOrdered, ◌<=◌, ◌<<◌}
use shrap_firm.Prelude.Sorting.{sort, text_before}
use shrap_firm.Runner.Cadence.{slot_for}
use shrap_firm.Runner.Sizing.{assert_equity_usable, is_dormant}
use shrap_firm.Runner.Engine.{
  Side, side_sell, RunnerSignalConfig, StoredState, StrategyInput, PlannedSignal, PlannedStateWrite,
  StrategyPlan, Desk, already_ran, or_nothing,
}
use shrap_firm.Runner.Planner.{plan_session}
pub mod Covered

pub record Assigned (F : Type 0) : Type 0 where
  pub account_id : Option Text
  pub input : StrategyInput F

-- What the state store answers about an account, with the times of the snapshots.
pub record Books (F : Type 0) : Type 0 where
  pub latest_equity : Text → Option F × Option ℕ
  pub latest_positions : Text → Dict Text F × Option ℕ
  pub latest_buy_scale : Text → Option F × Option ℕ

-- The moment of a pass: `now` in seconds, and the clock that the slots are read from.
pub record Moment : Type 0 where
  pub session_date : ℕ
  pub now : ℕ
  pub hour : ℕ
  pub minute : ℕ
  pub regime_label : Option Text

pub data Effect (F : Type 0) : Type 0 where
  publish : PlannedSignal F → Effect F
  stamp : PlannedStateWrite F → Effect F

-- `PassResult`, with the effects for the count of what was emitted; `raised` is an exception of the
-- planning, which ends the pass.
pub record Pass (F : Type 0) : Type 0 where
  pub effects : List (Effect F)
  pub deferred : List Text
  pub raised : Bool

-- `BUY_SCALE_MAX_AGE`, fourteen days
abbrev pub buy_scale_max_age : ℕ
buy_scale_max_age = 14 * 86_400

-- A buy scale that is not too old.
unfoldable pub fresh_scale {ℓ} : {A : Type ℓ} → ℕ → Option A × Option ℕ → Option A
fresh_scale now (scale, none) = none
fresh_scale now (scale, some at) = if ltb (at + buy_scale_max_age) now then none else scale

module _ {F : Type 0} ⦃d : Double F⦄ where
  -- The filter of the strategies that have not run.
  unfoldable pub due : Moment → StoredState F → List (Assigned F) → List (Assigned F)
  due m stored records =
      keep
        (λ r. not (
          already_ran r.input.strategy_id r.input.tickers stored m.session_date
            (slot_for r.input.cadence m.hour m.minute)))
        records

  -- `_group_by_account`
  unfoldable pub group_by_account :
      Dict Text (List (StrategyInput F)) → List (Assigned F) → Dict Text (List (StrategyInput F))
  group_by_account grouped [] = grouped
  group_by_account grouped (r ∷ rest) =
      let account = or_empty r.account_id in
      group_by_account
        (if is_empty account
          then grouped
          else put grouped account (or_empty (get grouped account) ++ (r.input ∷ [])))
        rest

  abbrev by_account : Text × List (StrategyInput F) → Text × List (StrategyInput F) → Bool
  by_account x y = text_before x.0 y.0

  -- What is done for one plan.
  unfoldable pub effects_of : List (StrategyPlan F) → List (Effect F)
  effects_of [] = []
  effects_of (plan ∷ plans) =
      let rest = effects_of plans in
      if is_none plan.skip_reason
      then (map publish plan.signals ++ map stamp plan.state_writes) ++ rest
      else rest

  abbrev pub desk_for : Moment → Books F → Text → Desk F
  desk_for m books account = record {
    session_date = m.session_date;
    hour = m.hour;
    minute = m.minute;
    held = (books.latest_positions account).0;
    regime_label = m.regime_label;
    account_id = account;
    buy_scale = fresh_scale m.now (books.latest_buy_scale account);
  }

  abbrev ids : List (StrategyInput F) → List Text
  ids inputs = map (λ i. i.strategy_id) inputs

  -- The equity that the account can be planned with, when its positions are known too.
  unfoldable pub usable_equity : Moment → Books F → Text → Option F
  usable_equity m books account =
      let (equity, observed_at) = books.latest_equity account in
      if is_none (books.latest_positions account).1
      then none
      else assert_equity_usable equity observed_at m.now

  -- The loop over the accounts, and the pass so far.
  unfoldable pub run_accounts :
      RunnerSignalConfig F
      → Moment
      → Books F
      → StoredState F
      → List (Text × List (StrategyInput F))
      → Pass F
      → Pass F
  run_accounts config m books stored [] pass = pass
  run_accounts config m books stored ((account, inputs) ∷ rest) pass =
      elim (usable_equity m books account) [
        | none ↦
            run_accounts config m books stored rest
              (record pass { deferred = pass.deferred ++ ids inputs })
        | some equity ↦ elim (plan_session config (desk_for m books account) stored equity inputs) [
          | none ↦ record pass { raised = true }
          | some plans ↦
              run_accounts config m books stored rest
                (record pass { effects = pass.effects ++ effects_of plans })
        ]
      ]

  -- `run_pass`, after its reads
  unfoldable pub run_pass :
      RunnerSignalConfig F → Moment → Books F → StoredState F → List (Assigned F) → Pass F
  run_pass config m books stored records =
      run_accounts config m books stored
        (sort by_account (group_by_account [] (due m stored records)))
        (record { effects = []; deferred = []; raised = false })
