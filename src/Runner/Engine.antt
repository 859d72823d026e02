-- ===== src/Runner/Engine.antt =====
-- src/shrap/research/strategy_runner/engine.py: the plan of one strategy in one session. What the
-- strategy's code and its bars give is part of the input; an exception of theirs is `none`. Dates
-- count days. The texts of notes and justifications are left out.
use shrap_firm.Prelude.{
  ℕ, Bool, true, false, ◌&&◌, ◌||◌, Option, none, some, List, [], ◌∷◌, nat_eq, if◌then◌else◌,
  pair_Eq, option_eq, nat_Eq,
}
use shrap_firm.Prelude.Text.{Text, text_Eq}
use shrap_firm.Prelude.Dict.{Dict, get}
use shrap_firm.Prelude.Double.{Double, ◌<=◌, ◌<<◌, min_float, abs_float}
use shrap_firm.Runner.Cadence.{Cadence, Slot, session_slot, clock}
use shrap_firm.Runner.Sizing.{size_position}

pub data Side : Type 0 where
  side_buy side_sell : Side

pub record RunnerSignalConfig (F : Type 0) : Type 0 where
  pub max_quantity : F
  pub max_gross_exposure : F
  pub resize_band : Option F
  pub resize_min_notional : F

pub record TargetState (F : Type 0) : Type 0 where
  pub last_target : F
  pub last_side : Option Side
  pub last_session_date : Option ℕ
  pub last_quantity : F
  pub last_slot : Slot

abbrev pub StoredState : Type 0 → Type 0
StoredState F = Dict (Text × Text) (TargetState F)

-- `StrategyInput`: of the record the fields that are read, with the cadence that `read_cadence` reads in
-- its spec. `warmup` and `weights` are what the strategy's code gives, `n_bars` and `closes` what the
-- panel of its bars gives.
pub record StrategyInput (F : Type 0) : Type 0 where
  pub strategy_id : Text
  pub tickers : List Text
  pub cadence : Cadence
  pub regime_fit : Option (List Text)
  pub regime_kill : Option (List Text)
  pub has_bars : Text → Bool
  pub warmup : Option ℕ
  pub n_bars : Option ℕ
  pub weights : Option (Text → F)
  pub closes : Text → Option F

pub record PlannedSignal (F : Type 0) : Type 0 where
  pub strategy_id : Text
  pub account_id : Text
  pub ticker : Text
  pub side : Side
  pub quantity : F
  pub slot : Slot

pub record PlannedStateWrite (F : Type 0) : Type 0 where
  pub strategy_id : Text
  pub ticker : Text
  pub last_target : F
  pub last_side : Option Side
  pub last_session_date : ℕ
  pub last_quantity : F
  pub last_slot : Slot

pub data SkipReason : Type 0 where
  ran_already no_tickers missing_bars insufficient_bars failed : SkipReason

pub record StrategyPlan (F : Type 0) : Type 0 where
  pub strategy_id : Text
  pub skip_reason : Option SkipReason
  pub signals : List (PlannedSignal F)
  pub state_writes : List (PlannedStateWrite F)

-- The account and the moment that a session is planned for.
pub record Desk (F : Type 0) : Type 0 where
  pub session_date : ℕ
  pub hour : ℕ
  pub minute : ℕ
  pub held : Dict Text F
  pub regime_label : Option Text
  pub account_id : Text
  pub buy_scale : Option F

abbrev pub slot_equal : Slot → Slot → Bool
slot_equal session_slot session_slot = true
slot_equal (clock h m) (clock h' m') = nat_eq h h' && nat_eq m m'
slot_equal _ _ = false

-- What one ticker comes to: the order, and the target and quantity that are stored.
pub record Move (F : Type 0) : Type 0 where
  pub order : Option (Side × F)
  pub target : F
  pub quantity : F

module _ {F : Type 0} ⦃d : Double F⦄ where
  -- `plan_resize`
  unfoldable pub plan_resize : F → F → F → F → F → F → Option (Side × F)
  plan_resize full held price buy_scale band min_notional =
      let target = d.mul full buy_scale in
      let gap = d.sub target held in
      if (buy_scale <= d.nought || price <= d.nought) || (full <= d.nought || held <= d.nought)
      then none
      else if d.mul (abs_float gap) price << min_notional || abs_float gap << d.mul band target
      then none
      else if d.nought << gap
      then some (side_buy, min_float (d.div gap buy_scale) full)
      else some (side_sell, min_float (d.neg gap) held)

  -- The row was stamped in this session and slot.
  abbrev pub is_stamped : ℕ → Slot → Option (TargetState F) → Bool
  is_stamped session slot none = false
  is_stamped session slot (some row) =
      option_eq row.last_session_date (some session) && slot_equal row.last_slot slot

  -- `already_ran`
  unfoldable pub already_ran : Text → List Text → StoredState F → ℕ → Slot → Bool
  already_ran id [] stored session slot = false
  already_ran id (ticker ∷ tickers) stored session slot =
      let rest = already_ran id tickers stored session slot in
      if is_stamped session slot (get stored (id, ticker)) then true else rest

  abbrev pub or_nothing : Option F → F
  or_nothing none = d.nought
  or_nothing (some x) = x

  -- An entry of the loop: flat, and the strategy wants to hold.
  unfoldable pub enter : RunnerSignalConfig F → F → F → Option F → Option (Move F)
  enter config equity weight close = elim close [
    | none ↦ none
    | some price ↦ elim (size_position weight equity price config.max_quantity) [
      | none ↦ none
      | some quantity ↦ some (
          if d.nought << quantity
          then record { order = some (side_buy, quantity); target = weight; quantity = quantity }
          else record { order = none; target = d.nought; quantity = d.nought })
    ]
  ]

  -- A position that stays: top up or trim.
  unfoldable pub resize :
      RunnerSignalConfig F → Option F → F → F → F → F → Option F → Option (Move F)
  resize config buy_scale equity weight position stored_quantity close =
      let stay : Option (Side × F) → Move F =
        λ order. record { order = order; target = weight; quantity = stored_quantity } in
      elim config.resize_band [
        | none ↦ some (stay none)
        | some band ↦ elim buy_scale [
          | none ↦ some (stay none)
          | some scale ↦ elim close [
            | none ↦ none
            | some price ↦ elim (size_position weight equity price config.max_quantity) [
              | none ↦ none
              | some full ↦ some (
                  stay (
                    plan_resize (if d.nought << full then full else d.nought) position price scale
                      band config.resize_min_notional))
            ]
          ]
        ]
      ]

  -- The loop body of `_plan_strategy` up to the order, for a position that is not short.
  unfoldable pub decide :
      RunnerSignalConfig F → Option F → F → F → F → F → Option F → Option (Move F)
  decide config buy_scale equity weight position stored_quantity close =
      if d.nought << weight
      then (if d.nought << position
          then resize config buy_scale equity weight position stored_quantity close
          else enter config equity weight close)
      else some (
          if d.nought << position
          then record { order = some (side_sell, position); target = weight; quantity = d.nought }
          else record { order = none; target = weight; quantity = stored_quantity })
