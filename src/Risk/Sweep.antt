-- ===== src/Risk/Sweep.antt =====
-- `RiskOfficer.sweep` and `expire_daily_loss` of src/shrap/risk_compliance/risk_officer/officer.py, with
-- `check_daily_loss` and `check_strategy_drawdown` of monitor.py. Times are seconds since 1970 in
-- UTC. The texts of the reasons and the labels of an observation are left out; what a sweep writes to
-- the stores are its transitions.
use shrap_firm.Prelude.{
  ℕ, ◌/◌, ◌≡◌, refl, Bool, true, false, not, ◌||◌, ◌&&◌, Option, none, some, List, [], ◌∷◌, ◌++◌,
  arith, if◌then◌else◌, ◌==◌, ltb, leb, nat_eq, keep, some_of,
}
use shrap_firm.Prelude.Text.{Text, text_Eq, text_eq_iff, codes}
use shrap_firm.Prelude.Dict.{get, put}
use shrap_firm.Prelude.Double.{Double}
use shrap_firm.Prelude.Sorting.{sort}
use shrap_firm.Risk.Switches.{
  SwitchState, SwitchTransition, Board, switch_daily_loss, strategy_switch, is_active, set_switch,
  clear_switch,
}
use shrap_firm.Risk.Monitor.{Severity, breach, EquityPoint, severity, session_loss, peak_drawdown}
use shrap_firm.Risk.Limits.{PortfolioLimits}
use shrap_firm.Risk.Officer.{Read, unread, answer}
pub mod Switching

-- `ACTOR_MONITOR`
abbrev pub actor_monitor : Text
actor_monitor = codes "risk-officer/monitor"

abbrev day_of : ℕ → ℕ
day_of at = at / 86_400

-- `expire_daily_loss`
unfoldable pub expire_daily_loss : ℕ → ℕ → Board → Option SwitchTransition × Board
expire_daily_loss today now board = elim (get board switch_daily_loss) [
  | none ↦ (none, board)
  | some state ↦
      if (not state.active || not (state.actor == actor_monitor)) || leb today (day_of state.at)
      then (none, board)
      else clear_switch switch_daily_loss actor_monitor [] now board
]

pub record LimitObservation (F : Type 0) : Type 0 where
  pub observed : F
  pub threshold : F
  pub severity : Severity

abbrev pub is_breach : Severity → Bool
is_breach breach = true
is_breach _ = false

-- Someone who is watched, with what the read of the account's equity gives.
pub record Assignment (F : Type 0) : Type 0 where
  pub strategy_id : Text
  pub equity_series : Read (List (EquityPoint F))

-- What one sweep has gathered so far.
pub record Sweep (F : Type 0) : Type 0 where
  pub observations : List (LimitObservation F)
  pub transitions : List SwitchTransition
  pub board : Board

abbrev pub or_none {ℓ} : {A : Type ℓ} → Option A → List A → List A
or_none none xs = xs
or_none (some x) xs = xs ++ (x ∷ [])

-- The board's daily-loss switch is one that the monitor set on an earlier day.
unfoldable pub is_expired : ℕ → Board → Bool
is_expired today board = elim (get board switch_daily_loss) [
  | none ↦ false
  | some state ↦ state.active && (state.actor == actor_monitor && ltb (day_of state.at) today)
]

module _ {F : Type 0} ⦃d : Double F⦄ where
  abbrev by_time : EquityPoint F → EquityPoint F → Bool
  by_time p r = ltb p.at r.at

  abbrev observation : F → F → Option F → Option (LimitObservation F)
  observation warn_fraction threshold none = none
  observation warn_fraction threshold (some observed) = some (record {
    observed = observed;
    threshold = threshold;
    severity = severity warn_fraction observed threshold;
  })

  -- `check_daily_loss`, with the filter and the sort of `session_loss`
  unfoldable pub check_daily_loss :
      F → PortfolioLimits F → ℕ → List (EquityPoint F) → Option (LimitObservation F)
  check_daily_loss warn_fraction limits today points =
      observation warn_fraction limits.max_daily_loss
        (session_loss (sort by_time (keep (λ p. nat_eq (day_of p.at) today) points)))

  -- `check_strategy_drawdown`, with the sort of `peak_drawdown`
  unfoldable pub check_strategy_drawdown :
      F → PortfolioLimits F → List (EquityPoint F) → Option (LimitObservation F)
  check_strategy_drawdown warn_fraction limits points =
      observation warn_fraction limits.max_strategy_drawdown (peak_drawdown (sort by_time points))

  -- One observation, and the switch that a breach sets.
  unfoldable pub observe : Text → ℕ → Option (LimitObservation F) → Sweep F → Sweep F
  observe switch now none s = s
  observe switch now (some o) s =
      let (transition, board) = set_switch switch actor_monitor [] now s.board in
      record {
        observations = s.observations ++ (o ∷ []);
        transitions =
            if is_breach o.severity then or_none transition s.transitions else s.transitions;
        board = if is_breach o.severity then board else s.board;
      }

  -- The body of the loop of `sweep`.
  unfoldable pub watch : F → PortfolioLimits F → ℕ → ℕ → Assignment F → Sweep F → Sweep F
  watch warn_fraction limits today now a s = elim a.equity_series [
    | unread ↦ s
    | answer [] ↦ s
    | answer (p ∷ ps) ↦
        observe (strategy_switch a.strategy_id) now
          (check_strategy_drawdown warn_fraction limits (p ∷ ps))
          (observe switch_daily_loss now (check_daily_loss warn_fraction limits today (p ∷ ps)) s)
  ]

  unfoldable pub watch_all : F → PortfolioLimits F → ℕ → ℕ → List (Assignment F) → Sweep F → Sweep F
  watch_all warn_fraction limits today now [] s = s
  watch_all warn_fraction limits today now (a ∷ rest) s =
      watch_all warn_fraction limits today now rest (watch warn_fraction limits today now a s)

  -- `sweep`, of a board that could be loaded
  unfoldable pub sweep : F → PortfolioLimits F → ℕ → ℕ → List (Assignment F) → Board → Sweep F
  sweep warn_fraction limits today now assignments board =
      let (expired, board') = expire_daily_loss today now board in
      watch_all warn_fraction limits today now assignments
        (record { observations = []; transitions = or_none expired []; board = board' })

  -- Whether an observation asks for a switch.
  abbrev pub breaks : Option (LimitObservation F) → Bool
  breaks none = false
  breaks (some o) = is_breach o.severity

  -- Whether what is read of an assignment asks for the switch of this name.
  unfoldable pub trips : F → PortfolioLimits F → ℕ → Text → Assignment F → Bool
  trips warn_fraction limits today name a = elim a.equity_series [
    | unread ↦ false
    | answer [] ↦ false
    | answer (p ∷ ps) ↦
        (switch_daily_loss == name && breaks (check_daily_loss warn_fraction limits today (p ∷ ps)))
        || (strategy_switch a.strategy_id == name
            && breaks (check_strategy_drawdown warn_fraction limits (p ∷ ps)))
  ]
