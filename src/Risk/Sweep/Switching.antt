-- ===== src/Risk/Sweep/Switching.antt =====
-- Which switches a sweep of src/shrap/risk_compliance/risk_officer/officer.py leaves active.
use shrap_firm.Prelude.{
  ℕ, ◌≡◌, refl, ◌∙◌, ap, not, ◌||◌, ◌&&◌, Option, none, some, List, [], ◌∷◌, arith, ◌==◌, some_of,
  Option-cases, List-cases, inl, inr,
}
use shrap_firm.Prelude.Text.{Text, text_Eq, text_eq_iff}
use shrap_firm.Prelude.Dict.{get}
use shrap_firm.Prelude.Double.{Double}
use shrap_firm.Risk.Switches.{
  sets, clears, serve, serve_lem, SwitchState, Board, switch_daily_loss, strategy_switch, is_active,
  set_switch, clear_switch,
}
use shrap_firm.Risk.Limits.{PortfolioLimits}
use shrap_firm.Risk.Officer.Approvals.{Read-cases}
use shrap_firm.Risk.Sweep.{
  actor_monitor, expire_daily_loss, is_expired, LimitObservation, Assignment, Sweep, or_none,
  check_daily_loss, check_strategy_drawdown, observe, watch, watch_all, sweep, breaks, trips,
}

set_switch_lem :
    (name actor reason : Text) (at : ℕ) (board : Board) (other : Text)
    → is_active (set_switch name actor reason at board).1 other
      ≡ (name == other || is_active board other)
unfolding serve
set_switch_lem name actor reason at board other =
    ground (arith, (serve_lem (sets name actor reason at) board other).0)

clear_switch_lem :
    (name actor reason : Text) (at : ℕ) (board : Board) (other : Text)
    → is_active (clear_switch name actor reason at board).1 other
      ≡ (not (name == other) && is_active board other)
unfolding serve
clear_switch_lem name actor reason at board other =
    ground (arith, (serve_lem (clears name actor reason at) board other).0)

is_active_at :
    (board : Board) (name : Text) (state : SwitchState)
    → get board name ≡ some state
    → is_active board name ≡ state.active
unfolding is_active
is_active_at board name state at = ground arith

-- Only a daily-loss switch that the monitor set on an earlier day is cleared.
expire_daily_loss_lem :
    (today now : ℕ) (board : Board) (name : Text)
    → is_active (expire_daily_loss today now board).1 name
      ≡ (is_active board name && not (switch_daily_loss == name && is_expired today board))
unfolding expire_daily_loss is_expired
expire_daily_loss_lem today now board name = elim (Option-cases (get board switch_daily_loss)) [
  | inl unset ↦ rw (expire_daily_loss, is_expired, unset) (ground arith)
  | inr (state, at) ↦
      rw (expire_daily_loss, is_expired, at)
        (ground (
          arith,
          clear_switch_lem switch_daily_loss actor_monitor [] now board name,
          is_active_at board switch_daily_loss state at,
          text_eq_iff switch_daily_loss name,
        ))
]

module _ {F : Type 0} ⦃d : Double F⦄ where
  observe_lem :
      (switch : Text) (now : ℕ) (o : Option (LimitObservation F)) (s : Sweep F) (name : Text)
      → is_active (observe switch now o s).board name
        ≡ ((switch == name && breaks o) || is_active s.board name)
  unfolding observe
  observe_lem switch now none s name = ground arith
  observe_lem switch now (some o) s name =
      ground (arith, set_switch_lem switch actor_monitor [] now s.board name)

  watch_lem :
      (warn_fraction : F) (limits : PortfolioLimits F) (today now : ℕ) (a : Assignment F)
      (s : Sweep F) (name : Text)
      → is_active (watch warn_fraction limits today now a s).board name
        ≡ (trips warn_fraction limits today name a || is_active s.board name)
  unfolding watch trips
  watch_lem warn_fraction limits today now a s name = elim (Read-cases a.equity_series) [
    | inl gone ↦ rw (watch, trips, gone) refl
    | inr (points, found) ↦ elim (List-cases points) [
      | inl empty ↦ rw (watch, trips, found, empty) refl
      | inr (p, ps, shape) ↦
          let daily = check_daily_loss warn_fraction limits today (p ∷ ps) in
          let drawdown = check_strategy_drawdown warn_fraction limits (p ∷ ps) in
          let first = observe switch_daily_loss now daily s in
          rw (watch, trips, found, shape)
            (ground (
              arith,
              observe_lem (strategy_switch a.strategy_id) now drawdown first name,
              observe_lem switch_daily_loss now daily s name,
            ))
    ]
  ]

  watch_all_lem :
      (warn_fraction : F) (limits : PortfolioLimits F) (today now : ℕ)
      (assignments : List (Assignment F)) (s : Sweep F) (name : Text)
      → is_active (watch_all warn_fraction limits today now assignments s).board name
        ≡ (some_of (trips warn_fraction limits today name) assignments || is_active s.board name)
  unfolding watch_all
  watch_all_lem warn_fraction limits today now [] s name = refl
  watch_all_lem warn_fraction limits today now (a ∷ rest) s name = ground (
    arith,
    watch_all_lem warn_fraction limits today now rest (watch warn_fraction limits today now a s)
        name,
    watch_lem warn_fraction limits today now a s name,
  )

  -- After a sweep a switch is active exactly when the observation of some assignment asks for it, or
  -- when it was active before and is not a daily-loss switch that the monitor set on an earlier day.
  -- So a sweep clears nothing else, and a loss that still breaches sets its switch again. An account
  -- whose equity could not be read, or has no points, asks for nothing.
  pub sweep_lem :
      (warn_fraction : F) (limits : PortfolioLimits F) (today now : ℕ)
      (assignments : List (Assignment F)) (board : Board) (name : Text)
      → is_active (sweep warn_fraction limits today now assignments board).board name ≡ (
          some_of (trips warn_fraction limits today name) assignments
          || (is_active board name && not (switch_daily_loss == name && is_expired today board)))
  unfolding sweep
  sweep_lem warn_fraction limits today now assignments board name =
      let (expired, board') = expire_daily_loss today now board in
      watch_all_lem warn_fraction limits today now assignments
        (record { observations = []; transitions = or_none expired []; board = board' }) name
      ∙ ap (λ b. some_of (trips warn_fraction limits today name) assignments || b)
          (expire_daily_loss_lem today now board name)
