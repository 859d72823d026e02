-- ===== src/Registry/Accounts.antt =====
-- One strategy to an account, in src/shrap/research/strategy_registry.py.
use shrap_firm.Prelude.{
  ℕ, ◌≡◌, ◌≢◌, refl, false, Option, none, some, List, arith, option_eq, option_eq_iff, sym, ◌∙◌,
  Bool-cases, Option-cases, inl, inr,
}
use shrap_firm.Prelude.Text.{Text, text_Eq, text_eq_iff}
use shrap_firm.Registry.Status.{Status, status_Eq}
use shrap_firm.Registry.Table.{
  StrategyRecord, Rows, find_row, update_row, find_row-update_row, account_taken, account_taken_lem,
}
use shrap_firm.Registry.Operations.{
  Registry, Note, empty, register, insert_new, transition, apply_transition, assign_account,
  set_regime_gate, set_status, set_account, set_gate, backfill_roots, validate_lineage,
  normalized_account,
}
use shrap_firm.Registry.Histories.{
  Call, registers, moves, assigns, gates, ensures_schema, after, step, run, run_keeps,
  find_row-backfill_roots,
}

-- The account that the table gives a strategy.
abbrev pub account_of : Text → Rows → Option Text
account_of id rows = elim (find_row id rows) [ none ↦ none | some r ↦ r.account_id ]

abbrev pub IsExclusive : Registry → Type 0
IsExclusive g =
    (i j a : Text) → account_of i g.strategies ≡ some a → account_of j g.strategies ≡ some a → i ≡ j

-- Calls that give no account away.
SameAccounts : Registry → Registry → Type 0
SameAccounts g g' =
    (id a : Text) → account_of id g'.strategies ≡ some a → account_of id g.strategies ≡ some a

SameAccounts-IsExclusive : (g g' : Registry) → SameAccounts g g' → IsExclusive g → IsExclusive g'
unfolding SameAccounts
SameAccounts-IsExclusive g g' same h i j a x y = h i j a (same i a x) (same j a y)

register-SameAccounts :
    (r : StrategyRecord) (n : Note) (g : Registry) → SameAccounts g (after g (register r n g))
unfolding SameAccounts register insert_new find_row
register-SameAccounts r n g id a = elim (Option-cases (validate_lineage r)) [
  | inr (e, bad) ↦ ground arith
  | inl good ↦ ground arith
]

transition-SameAccounts :
    (id : Text) (to : Status) (expected : Option Status) (n : Note) (g : Registry)
    → SameAccounts g (after g (transition id to expected n g))
unfolding SameAccounts transition apply_transition
transition-SameAccounts id to expected n g other a = ground (
  arith,
  text_eq_iff id other,
  find_row-update_row id other (set_status to n.occurred_at) (λ r. refl) g.strategies,
)

set_regime_gate-SameAccounts :
    (id : Text) (fit kill : Option (List Text)) (now : ℕ) (g : Registry)
    → SameAccounts g (after g (set_regime_gate id fit kill now g))
unfolding SameAccounts set_regime_gate
set_regime_gate-SameAccounts id fit kill now g other a = ground (
  arith,
  text_eq_iff id other,
  find_row-update_row id other (set_gate fit kill now) (λ r. refl) g.strategies,
)

backfill_roots-SameAccounts :
    (g : Registry) → SameAccounts g (record g { strategies = backfill_roots g.strategies })
unfolding SameAccounts
backfill_roots-SameAccounts g id a = ground (arith, find_row-backfill_roots id g.strategies)

-- Who holds the account that was just assigned is the strategy that it was assigned to.
assigned_alone :
    (id a other : Text) (account : Option Text) (now : ℕ) (rows : Rows)
    → account_taken id a rows ≡ false
    → account ≡ some a
    → account_of other (update_row id (set_account account now) rows) ≡ some a
    → other ≡ id
assigned_alone id a other account now rows free e has = elim (Option-cases (find_row other rows)) [
  | inl missing ↦ ground (
    arith,
    text_eq_iff id other,
    find_row-update_row id other (set_account account now) (λ r. refl) rows,
  )
  | inr (r, found) ↦ ground (
    arith,
    text_eq_iff id other,
    account_taken_lem id a other r rows,
    find_row-update_row id other (set_account account now) (λ r. refl) rows,
  )
]

-- Any other account is held by whoever held it before.
others_keep :
    (id a other : Text) (account : Option Text) (now : ℕ) (rows : Rows)
    → account ≢ some a
    → account_of other (update_row id (set_account account now) rows) ≡ some a
    → account_of other rows ≡ some a
others_keep id a other account now rows ne has = ground (
  arith,
  text_eq_iff id other,
  find_row-update_row id other (set_account account now) (λ r. refl) rows,
)

assigned-IsExclusive :
    (id : Text) (account : Option Text) (now : ℕ) (g : Registry)
    → ((a : Text) → account ≡ some a → account_taken id a g.strategies ≡ false)
    → IsExclusive g
    → IsExclusive (record g { strategies = update_row id (set_account account now) g.strategies })
assigned-IsExclusive id account now g free h i j a x y =
    elim (Bool-cases (option_eq account (some a))) [
      | inl given ↦
          let e = (option_eq_iff account (some a)).0 given in
          assigned_alone id a i account now g.strategies (free a e) e x
          ∙ sym (assigned_alone id a j account now g.strategies (free a e) e y)
      | inr not_given ↦
          let ne : account ≢ some a = λ e. ground (arith, option_eq_iff account (some a)) in
          h i j a (others_keep id a i account now g.strategies ne x)
            (others_keep id a j account now g.strategies ne y)
    ]

assign_account-IsExclusive :
    (id : Text) (account : Option Text) (now : ℕ) (g : Registry)
    → IsExclusive g
    → IsExclusive (after g (assign_account id account now g))
unfolding assign_account
assign_account-IsExclusive id account now g h = elim (Option-cases (find_row id g.strategies)) [
  | inl missing ↦ rw (missing, assign_account) h
  | inr (row, found) ↦ elim (Option-cases (normalized_account account)) [
    | inl cleared ↦
        rw (found, cleared, assign_account) (assigned-IsExclusive id none now g (λ a e. cc) h)
    | inr (a, named) ↦ elim (Bool-cases (account_taken id a g.strategies)) [
      | inl taken ↦ rw (found, named, taken, assign_account) h
      | inr free ↦
          rw (found, named, free, assign_account)
            (assigned-IsExclusive id (some a) now g (λ b e. ground arith) h)
    ]
  ]
]

step-IsExclusive : (g : Registry) (c : Call) → IsExclusive g → IsExclusive (step g c)
unfolding step
step-IsExclusive g (registers r n) h = SameAccounts-IsExclusive g _ (register-SameAccounts r n g) h
step-IsExclusive g (moves id to expected n) h =
    SameAccounts-IsExclusive g _ (transition-SameAccounts id to expected n g) h
step-IsExclusive g (assigns id account now) h = assign_account-IsExclusive id account now g h
step-IsExclusive g (gates id fit kill now) h =
    SameAccounts-IsExclusive g _ (set_regime_gate-SameAccounts id fit kill now g) h
step-IsExclusive g ensures_schema h = SameAccounts-IsExclusive g _ (backfill_roots-SameAccounts g) h

-- After any calls on an empty registry no broker account belongs to two strategies.
pub run-IsExclusive : (cs : List Call) → IsExclusive (run empty cs)
unfolding find_row
run-IsExclusive cs = run_keeps IsExclusive step-IsExclusive empty cs (λ i j a x y. ground arith)
