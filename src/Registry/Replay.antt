-- ===== src/Registry/Replay.antt =====
-- The append-only log of src/shrap/research/strategy_registry.py against the table of strategies.
use shrap_firm.Prelude.{
  ℕ, ◌≡◌, refl, ◌&&◌, Option, none, some, List, [], ◌∷◌, arith, ◌==◌, if◌then◌else◌, contains,
  option_eq, option_eq_iff, Bool-cases, Option-cases, inl, inr,
}
use shrap_firm.Prelude.Text.{Text, text_Eq, text_eq_iff}
use shrap_firm.Registry.Status.{
  Status, hypothesis, status_Eq, status_eq_iff, is_allowed, all_statuses,
}
use shrap_firm.Registry.Table.{StrategyRecord, StrategyTransition, find_row, find_row-update_row}
use shrap_firm.Registry.Operations.{
  Registry, validate_lineage, resolve_root, normalized_account, Note, empty, register, insert_new,
  transition, apply_transition, assign_account, set_regime_gate, set_status, set_account, set_gate,
  backfill_roots,
}
use shrap_firm.Registry.Histories.{
  Call, registers, moves, assigns, gates, ensures_schema, after, step, run, run_keeps,
  find_row-backfill_roots,
}

-- What the log alone says of a strategy: it was never registered, it has a status, or some entry
-- does not follow from the ones before it.
pub data Replay : Type 0 where
  absent broken : Replay
  present : Status → Replay

-- One entry: the first is the registration, and each later one starts where the last one ended and
-- is a move that the state machine allows.
abbrev pub follow : Replay → StrategyTransition → Replay
follow absent t =
    if option_eq t.from_status none && t.to_status == hypothesis
    then present t.to_status
    else broken
follow (present s) t =
    if option_eq t.from_status (some s) && is_allowed s t.to_status
    then present t.to_status
    else broken
follow broken t = broken

unfoldable pub replay : Text → List StrategyTransition → Replay
replay id [] = absent
replay id (t ∷ older) =
    let before = replay id older in if t.strategy_id == id then follow before t else before

-- What the table says of it.
abbrev pub reading : Option StrategyRecord → Replay
reading none = absent
reading (some r) = present r.status

-- The log and the table agree on every strategy.
abbrev pub Agree : Registry → Type 0
Agree g = (id : Text) → replay id g.log ≡ reading (find_row id g.strategies)

insert_new-Agree :
    (g : Registry) (r : StrategyRecord) (root : Text) (n : Note)
    → r.status ≡ hypothesis
    → Agree g
    → Agree (after g (insert_new g r root n))
unfolding insert_new replay find_row option_eq
insert_new-Agree g r root n fresh h id = ground (
  arith,
  h id,
  h r.strategy_id,
  text_eq_iff r.strategy_id id,
  status_eq_iff hypothesis hypothesis,
)

apply_transition-Agree :
    (id : Text) (to : Status) (expected : Option Status) (n : Note) (g : Registry)
    (row : StrategyRecord)
    → find_row id g.strategies ≡ some row
    → Agree g
    → Agree (after g (apply_transition id to expected n g row))
unfolding apply_transition replay
apply_transition-Agree id to expected n g row found h other = ground (
  arith,
  h other,
  text_eq_iff id other,
  option_eq_iff (some row.status) (some row.status),
  find_row-update_row id other (set_status to n.occurred_at) (λ r. refl) g.strategies,
)

register-Agree :
    (r : StrategyRecord) (n : Note) (g : Registry) → Agree g → Agree (after g (register r n g))
unfolding register
register-Agree r n g h = elim (Bool-cases (r.status == hypothesis)) [
  | inr other ↦ rw (other, register) h
  | inl fresh ↦ elim (Option-cases (validate_lineage r)) [
    | inr (e, bad) ↦ rw (fresh, bad, register) h
    | inl good ↦ elim (Option-cases (resolve_root g.strategies r)) [
      | inl orphan ↦ rw (fresh, good, orphan, register) h
      | inr (root, found) ↦
          rw (fresh, good, found, register)
            (insert_new-Agree g r root n ((status_eq_iff r.status hypothesis).0 fresh) h)
    ]
  ]
]

transition-Agree :
    (id : Text) (to : Status) (expected : Option Status) (n : Note) (g : Registry)
    → Agree g
    → Agree (after g (transition id to expected n g))
unfolding transition
transition-Agree id to expected n g h = elim (Bool-cases (contains all_statuses to)) [
  | inr strange ↦ rw (strange, transition) h
  | inl known ↦ elim (Option-cases (find_row id g.strategies)) [
    | inl missing ↦ rw (known, missing, transition) h
    | inr (row, found) ↦
        rw (known, found, transition) (apply_transition-Agree id to expected n g row found h)
  ]
]

assign_account-Agree :
    (id : Text) (account : Option Text) (now : ℕ) (g : Registry)
    → Agree g
    → Agree (after g (assign_account id account now g))
unfolding assign_account
assign_account-Agree id account now g h other =
    let normal = normalized_account account in
    ground (
      arith,
      h other,
      text_eq_iff id other,
      find_row-update_row id other (set_account normal now) (λ r. refl) g.strategies,
    )

set_regime_gate-Agree :
    (id : Text) (fit kill : Option (List Text)) (now : ℕ) (g : Registry)
    → Agree g
    → Agree (after g (set_regime_gate id fit kill now g))
unfolding set_regime_gate
set_regime_gate-Agree id fit kill now g h other = ground (
  arith,
  h other,
  text_eq_iff id other,
  find_row-update_row id other (set_gate fit kill now) (λ r. refl) g.strategies,
)

backfill_roots-Agree :
    (g : Registry) → Agree g → Agree (record g { strategies = backfill_roots g.strategies })
backfill_roots-Agree g h id = ground (arith, h id, find_row-backfill_roots id g.strategies)

step-Agree : (g : Registry) (c : Call) → Agree g → Agree (step g c)
unfolding step
step-Agree g (registers r n) h = register-Agree r n g h
step-Agree g (moves id to expected n) h = transition-Agree id to expected n g h
step-Agree g (assigns id account now) h = assign_account-Agree id account now g h
step-Agree g (gates id fit kill now) h = set_regime_gate-Agree id fit kill now g h
step-Agree g ensures_schema h = backfill_roots-Agree g h

-- After any calls on an empty registry the log explains the table: for every strategy the log is a
-- registration followed by allowed moves, each from where the one before it ended, and replaying it
-- gives exactly the status that the table has, or nothing for a strategy that the table lacks.
pub run-Agree : (cs : List Call) → Agree (run empty cs)
unfolding replay find_row
run-Agree cs = run_keeps Agree step-Agree empty cs (λ id. refl)
