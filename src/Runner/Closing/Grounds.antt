-- ===== src/Runner/Closing/Grounds.antt =====
-- What an exit pass of the Strategy Runner sells: src/shrap/research/strategy_runner/exit_planner.py.
use shrap_firm.Prelude.{
  ◌≡◌, refl, false, ◌||◌, not, none, some, List, [], ◌∷◌, map, is_none, or_empty, contains, All,
  All-append, All-weaken, Bool-cases, Option-cases, inl, inr,
}
use shrap_firm.Prelude.Text.{Text, text_Eq, is_empty, strip, upper}
use shrap_firm.Prelude.Dict.{Dict, get, put, Distinct, Distinct-put, entries-get}
use shrap_firm.Prelude.Double.{Double, IsOrdered}
use shrap_firm.Prelude.Sorting.{sort, All-sort}
use shrap_firm.Risk.Exits.{
  PositionPnL, ExitRule, ExitDecision, IsExit, Sells, done, holds, sells, is_armed,
  evaluate_exits-Sells,
}
use shrap_firm.Runner.Engine.{side_sell}
use shrap_firm.Runner.Pass.{Assigned}
use shrap_firm.Runner.Closing.{
  ExitSignal, PnLBooks, exit_signal, plan_exits, assign_first, by_strategy, strategy_by_account,
  suppressed_tickers, account_first, exit_accounts, run_exit_pass,
}

module _ {F : Type 0} ⦃d : Double F⦄ where
  -- The decision closes one of the positions, by the grounds of `IsExit`.
  pub data ClosesOneOf (min_notional : F) (rule : ExitRule F) (suppressed : List Text)
      : List (PositionPnL F) → ExitDecision F → Type 0 where
    here :
        {p : PositionPnL F} {ps : List (PositionPnL F)} {x : ExitDecision F}
        → IsExit min_notional rule suppressed p x
        → ClosesOneOf min_notional rule suppressed (p ∷ ps) x
    there :
        {p : PositionPnL F} {ps : List (PositionPnL F)} {x : ExitDecision F}
        → ClosesOneOf min_notional rule suppressed ps x
        → ClosesOneOf min_notional rule suppressed (p ∷ ps) x

  Sells-ClosesOneOf :
      {min_notional : F} {rule : ExitRule F} {suppressed : List Text} (ps : List (PositionPnL F))
      (xs : List (ExitDecision F))
      → Sells min_notional rule suppressed ps xs
      → All (ClosesOneOf min_notional rule suppressed ps) xs
  Sells-ClosesOneOf [] [] done = record {}
  Sells-ClosesOneOf [] (x ∷ xs) sold = elim sold [ ]
  Sells-ClosesOneOf (p ∷ ps) xs (holds rest) =
      All-weaken _ _ xs (λ x. there) (Sells-ClosesOneOf ps xs rest)
  Sells-ClosesOneOf (p ∷ ps) (x ∷ xs) (sells exit rest) =
      (here exit, All-weaken _ _ xs (λ y. there) (Sells-ClosesOneOf ps xs rest))

  pub ClosesOneOf-free :
      {min_notional : F} {rule : ExitRule F} {suppressed : List Text} (ps : List (PositionPnL F))
      (x : ExitDecision F)
      → ClosesOneOf min_notional rule suppressed ps x
      → contains suppressed x.ticker ≡ false
  ClosesOneOf-free [] x closes = elim closes [ ]
  ClosesOneOf-free (p ∷ ps) x (here exit) = rw (exit.ticker) exit.free
  ClosesOneOf-free (p ∷ ps) x (there later) = ClosesOneOf-free ps x later

  -- A sell of a whole position of an account whose book is known, by the strategy that trades it.
  pub record IsClosing (min_notional : F) (rule : ExitRule F) (suppressed : List Text)
      (books : PnLBooks F) (assigned : Dict Text Text) (s : ExitSignal F) : Type 0 where
    pub positions : List (PositionPnL F)
    pub observed_at : F
    pub known : books s.account_id ≡ some (positions, some observed_at)
    pub closes : ClosesOneOf min_notional rule suppressed positions s.decision
    pub strategy : get assigned s.account_id ≡ some s.strategy_id
    pub sell : s.side ≡ side_sell
    pub quantity : s.quantity ≡ s.decision.quantity
    pub ticker : s.ticker ≡ upper s.decision.ticker

  Distinct-assign_first :
      (assigned : Dict Text Text) (records : List (Assigned F))
      → Distinct assigned
      → Distinct (assign_first assigned records)
  unfolding assign_first
  Distinct-assign_first assigned [] distinct = distinct
  Distinct-assign_first assigned (r ∷ rest) distinct =
      let account = or_empty r.account_id in
      let id = r.input.strategy_id in
      elim (Bool-cases
        (is_empty account || (is_empty id || not (is_none (get assigned account))))) [
          | inl skipped ↦ rw (skipped) (Distinct-assign_first assigned rest distinct)
          | inr taken ↦ rw (taken) (
              Distinct-assign_first (put assigned account id) rest
                (Distinct-put assigned account id distinct))
        ]

  module _ (laws : IsOrdered F) (min_notional : F) (rule : ExitRule F) (suppressed : List Text)
      (books : PnLBooks F) (assigned : Dict Text Text) where
    abbrev Closing : ExitSignal F → Type 0
    Closing = IsClosing min_notional rule suppressed books assigned

    signals-IsClosing :
        (account id : Text) (positions : List (PositionPnL F)) (at : F) (xs : List (ExitDecision F))
        → books account ≡ some (positions, some at)
        → get assigned account ≡ some id
        → All (ClosesOneOf min_notional rule suppressed positions) xs
        → All Closing (map (exit_signal id account) xs)
    signals-IsClosing account id positions at [] known strategy closes = record {}
    signals-IsClosing account id positions at (x ∷ xs) known strategy closes = (
      record {
        positions = positions;
        observed_at = at;
        known = known;
        closes = closes.0;
        strategy = strategy;
        sell = refl;
        quantity = refl;
        ticker = refl;
      },
      signals-IsClosing account id positions at xs known strategy closes.1,
    )

    plan_exits-IsClosing :
        (account id : Text) (positions : List (PositionPnL F)) (at : F)
        → books account ≡ some (positions, some at)
        → get assigned account ≡ some id
        → All Closing (plan_exits min_notional rule suppressed account (some id) positions)
    unfolding plan_exits
    plan_exits-IsClosing account id positions at known strategy =
        elim (Bool-cases (is_empty (strip id))) [
          | inl blank ↦ rw (blank) (record {})
          | inr named ↦ rw (named) (
              signals-IsClosing account id positions at _ known strategy (
                Sells-ClosesOneOf positions _
                  (evaluate_exits-Sells laws min_notional rule suppressed positions)))
        ]

    exit_accounts-IsClosing :
        (accounts : List (Text × Text))
        → All (λ x. get assigned x.0 ≡ some x.1) accounts
        → All Closing (exit_accounts min_notional rule suppressed books accounts)
    unfolding exit_accounts
    exit_accounts-IsClosing [] own = record {}
    exit_accounts-IsClosing ((account, id) ∷ rest) own =
        let others = exit_accounts-IsClosing rest own.1 in
        elim (Option-cases (books account)) [
          | inl raised ↦ rw (exit_accounts, raised) others
          | inr ((positions, none), unknown) ↦ rw (exit_accounts, unknown) others
          | inr ((positions, some at), known) ↦
              rw (exit_accounts, known)
                (All-append Closing
                  (plan_exits min_notional rule suppressed account (some id) positions) _
                  (plan_exits-IsClosing account id positions at known own.0) others)
        ]

  -- Every order that an exit pass publishes is a sell for an account whose book was read and is known,
  -- named for the strategy that trades that account. It closes a position of that book, long and of
  -- tradeable value, for exactly the quantity held, because the reading of that position which the
  -- reason names has reached the threshold that the rule sets for it, and no exit of that ticker was
  -- emitted within the suppression window.
  pub run_exit_pass-IsClosing :
      IsOrdered F
      → (min_notional : F) (rule : ExitRule F) (books : PnLBooks F) (records : List (Assigned F))
        (now window : F) (emitted_at : Dict Text F)
      → All
          (IsClosing min_notional rule
            (suppressed_tickers emitted_at now window)
            books
            (strategy_by_account records))
          (run_exit_pass min_notional rule books records now window emitted_at).signals
  unfolding run_exit_pass strategy_by_account
  run_exit_pass-IsClosing laws min_notional rule books records now window emitted_at =
      let assigned = strategy_by_account records in
      elim (Bool-cases (is_armed rule)) [
        | inr unarmed ↦ rw (unarmed) (record {})
        | inl armed ↦ rw (armed) (
            exit_accounts-IsClosing laws min_notional rule
              (suppressed_tickers emitted_at now window) books assigned
              (sort account_first assigned)
              (All-sort _ account_first assigned (
                entries-get assigned
                  (Distinct-assign_first [] (sort by_strategy records) (record {})))))
      ]
