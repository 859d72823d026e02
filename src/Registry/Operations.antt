-- ===== src/Registry/Operations.antt =====
-- The calls of `PostgresStrategyRegistry` in src/shrap/research/strategy_registry.py that change a
-- table. An error leaves the tables as they were: the transaction rolls back, and outside of one
-- the failing statement changes no row. The clock's time and the ULID are arguments.
use shrap_firm.Prelude.{
  ℕ, Bool, true, false, ◌||◌, not, Option, none, some, List, [], ◌∷◌, ◌==◌, if◌then◌else◌, is_none,
  contains,
}
use shrap_firm.Prelude.Text.{Text, text_Eq, is_empty, strip}
use shrap_firm.Registry.Status.{Status, hypothesis, status_Eq, all_statuses, is_allowed}
use shrap_firm.Registry.Table.{
  StrategyRecord, StrategyTransition, Rows, find_row, update_row, clashes, account_taken,
  transition_known, root_of, or_text,
}

-- The two tables.
pub record Registry : Type 0 where
  pub strategies : Rows
  pub log : List StrategyTransition

abbrev pub empty : Registry
empty = record { strategies = []; log = [] }

pub data Error : Type 0 where
  -- the strategy, its status, the target, and the status that was expected
  invalid_transition : Option Text → Option Status → Option Status → Option Status → Error
  not_found unknown_parent : Error
  lineage_error : Error
  unique_violation : Error

pub data Result (A : Type 0) : Type 0 where
  ok : A → Registry → Result A
  err : Error → Result A

-- What a call states of itself, with the time and the fresh identifier that it takes.
pub record Note : Type 0 where
  pub reason : Text
  pub trigger_kind : Text
  pub trigger_ref : Option Text
  pub actor : Text
  pub occurred_at : ℕ
  pub transition_id : Text

-- `InvalidTransitionError.already_at_target`
unfoldable pub already_at_target : Error → Bool
already_at_target (invalid_transition id (some from) (some to) expected) = from == to
already_at_target _ = false

-- `_validate_lineage`
unfoldable pub validate_lineage : StrategyRecord → Option Error
validate_lineage r = elim r.parent_strategy_id [
  | none ↦
      if not (is_none r.revision_reason) || not (is_none r.derived_from_evaluation_id)
      then some lineage_error
      else none
  | some p ↦
      if p == r.strategy_id
      then some lineage_error
      else if is_empty (strip (or_text r.revision_reason []))
      then some lineage_error
      else none
]

abbrev pub log_entry : Note → Text → Option Status → Status → StrategyTransition
log_entry n id from to = record {
  transition_id = n.transition_id;
  strategy_id = id;
  from_status = from;
  to_status = to;
  reason = n.reason;
  trigger_kind = n.trigger_kind;
  trigger_ref = n.trigger_ref;
  actor = n.actor;
  occurred_at = n.occurred_at;
}

-- `lineage_root`, read from the parent's row; `none` is a parent that is not there.
unfoldable pub resolve_root : Rows → StrategyRecord → Option Text
resolve_root rows r = elim r.parent_strategy_id [
  | none ↦ some r.strategy_id
  | some p ↦ elim (find_row p rows) [ none ↦ none | some parent ↦ some (root_of parent) ]
]

-- `INSERT_STRATEGY_SQL`: the row that is stored. The insert names neither the account nor two times.
abbrev pub stored_row : StrategyRecord → Text → ℕ → StrategyRecord
stored_row r root now = record r {
  lineage_root_id = some root;
  account_id = none;
  created_at = now;
  updated_at = now;
}

-- `register`, from the insert on
unfoldable pub insert_new : Registry → StrategyRecord → Text → Note → Result Bool
insert_new g r root n =
    if not (is_none (find_row r.strategy_id g.strategies))
    then ok false g
    else if clashes r g.strategies
    then err unique_violation
    else if transition_known n.transition_id g.log
    then err unique_violation
    else ok true (record {
      strategies = stored_row r root n.occurred_at ∷ g.strategies;
      log = log_entry n r.strategy_id none hypothesis ∷ g.log;
    })

-- `register`
unfoldable pub register : StrategyRecord → Note → Registry → Result Bool
unfolding insert_new resolve_root validate_lineage
register r n g =
    if not (r.status == hypothesis)
    then err (invalid_transition none none none none)
    else elim (validate_lineage r) [
      | some e ↦ err e
      | none ↦ elim (resolve_root g.strategies r) [
        | none ↦ err unknown_parent
        | some root ↦ insert_new g r root n
      ]
    ]

abbrev pub set_status : Status → ℕ → StrategyRecord → StrategyRecord
set_status to now r = record r { status = to; updated_at = now }

-- `transition`, from the row that was read
unfoldable pub apply_transition :
    Text → Status → Option Status → Note → Registry → StrategyRecord → Result StrategyTransition
apply_transition id to expected n g row =
    let refused : Error = invalid_transition (some id) (some row.status) (some to) expected in
    if elim expected [ none ↦ false | some want ↦ not (row.status == want) ]
    then err refused
    else if not (is_allowed row.status to)
    then err refused
    else if transition_known n.transition_id g.log
    then err unique_violation
    else ok (log_entry n id (some row.status) to) (record {
      strategies = update_row id (set_status to n.occurred_at) g.strategies;
      log = log_entry n id (some row.status) to ∷ g.log;
    })

-- `transition`
unfoldable pub transition :
    Text → Status → Option Status → Note → Registry → Result StrategyTransition
unfolding apply_transition
transition id to expected n g =
    if not (contains all_statuses to)
    then err (invalid_transition none none none none)
    else elim (find_row id g.strategies) [
      | none ↦ err not_found
      | some row ↦ apply_transition id to expected n g row
    ]

-- `account_id.strip()`, and the empty text is no account
unfoldable pub normalized_account : Option Text → Option Text
normalized_account none = none
normalized_account (some a) = if is_empty (strip a) then none else some (strip a)

abbrev pub set_account : Option Text → ℕ → StrategyRecord → StrategyRecord
set_account account now r = record r { account_id = account; updated_at = now }

-- `assign_account`; the unique index refuses an account that another row has
unfoldable pub assign_account : Text → Option Text → ℕ → Registry → Result StrategyRecord
unfolding normalized_account
assign_account id account now g =
    let normal = normalized_account account in
    elim (find_row id g.strategies) [
      | none ↦ err not_found
      | some row ↦
          if elim normal [ none ↦ false | some a ↦ account_taken id a g.strategies ]
          then err unique_violation
          else ok (set_account normal now row)
              (record g { strategies = update_row id (set_account normal now) g.strategies })
    ]

abbrev pub set_gate : Option (List Text) → Option (List Text) → ℕ → StrategyRecord → StrategyRecord
set_gate fit kill now r = record r { regime_fit = fit; regime_kill = kill; updated_at = now }

-- `set_regime_gate`
unfoldable pub set_regime_gate :
    Text → Option (List Text) → Option (List Text) → ℕ → Registry → Result StrategyRecord
set_regime_gate id fit kill now g = elim (find_row id g.strategies) [
  | none ↦ err not_found
  | some row ↦
      ok (set_gate fit kill now row)
        (record g { strategies = update_row id (set_gate fit kill now) g.strategies })
]

abbrev pub adopt : StrategyRecord → StrategyRecord
adopt r = record r {
  lineage_root_id = elim r.lineage_root_id [ none ↦ some r.strategy_id | some root ↦ some root ];
}

-- `BACKFILL_STRATEGIES_LINEAGE_ROOT_SQL`, which `ensure_schema` runs
unfoldable pub backfill_roots : Rows → Rows
backfill_roots [] = []
backfill_roots (r ∷ rows) = adopt r ∷ backfill_roots rows

-- `lineage`: the family of a strategy
unfoldable pub members : Text → Rows → Rows
members root [] = []
members root (r ∷ rows) =
    let rest = members root rows in
    elim r.lineage_root_id [ none ↦ rest | some own ↦ if own == root then r ∷ rest else rest ]

unfoldable pub lineage : Text → Registry → Rows
unfolding members
lineage id g = elim (find_row id g.strategies) [
  | none ↦ []
  | some row ↦ members (root_of row) g.strategies
]
