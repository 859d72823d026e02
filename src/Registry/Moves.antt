-- ===== src/Registry/Moves.antt =====
-- What one call can do to a status, in src/shrap/research/strategy_registry.py.
use shrap_firm.Prelude.{
  ℕ, ◌≡◌, refl, Bool, true, false, ◌||◌, Option, none, some, List, arith, ◌==◌, contains,
  Bool-cases, Option-cases, inl, inr,
}
use shrap_firm.Prelude.Text.{Text, text_Eq, text_eq_iff}
use shrap_firm.Registry.Status.{
  Status, hypothesis, killed, retired, status_Eq, status_eq_iff, is_allowed, all_statuses,
  terminal_statuses,
}
use shrap_firm.Registry.Table.{StrategyRecord, find_row, find_row-update_row, map_option}
use shrap_firm.Registry.Operations.{
  Registry, Note, register, insert_new, transition, apply_transition, assign_account,
  set_regime_gate, set_status, set_account, set_gate, backfill_roots, validate_lineage,
  resolve_root, normalized_account,
}
use shrap_firm.Registry.Histories.{
  Call, registers, moves, assigns, gates, ensures_schema, after, step, run, run_keeps,
  find_row-backfill_roots,
}

abbrev pub status_of : Text → Registry → Option Status
status_of id g = map_option (λ r. r.status) (find_row id g.strategies)

-- The status stays, the strategy is registered as a hypothesis, or the state machine allows the move.
unfoldable pub is_move : Option Status → Option Status → Bool
is_move none none = true
is_move none (some to) = to == hypothesis
is_move (some from) none = false
is_move (some from) (some to) = from == to || is_allowed from to

is_move_refl : (o : Option Status) → is_move o o ≡ true
unfolding is_move
is_move_refl none = refl
is_move_refl (some s) = ground (arith, status_eq_iff s s)

-- The statuses of one strategy before and after a call.
abbrev IsMove : Text → Registry → Registry → Type 0
IsMove id g g' = is_move (status_of id g) (status_of id g') ≡ true

insert_new-IsMove :
    (g : Registry) (r : StrategyRecord) (root : Text) (n : Note) (id : Text)
    → r.status ≡ hypothesis
    → IsMove id g (after g (insert_new g r root n))
unfolding insert_new find_row is_move
insert_new-IsMove g r root n id fresh = ground (
  arith,
  is_move_refl (status_of id g),
  text_eq_iff r.strategy_id id,
  status_eq_iff r.status hypothesis,
)

apply_transition-IsMove :
    (id : Text) (to : Status) (expected : Option Status) (n : Note) (g : Registry)
    (row : StrategyRecord) (other : Text)
    → find_row id g.strategies ≡ some row
    → IsMove other g (after g (apply_transition id to expected n g row))
unfolding apply_transition is_move
apply_transition-IsMove id to expected n g row other found = ground (
  arith,
  is_move_refl (status_of other g),
  text_eq_iff id other,
  find_row-update_row id other (set_status to n.occurred_at) (λ r. refl) g.strategies,
)

register-IsMove :
    (r : StrategyRecord) (n : Note) (g : Registry) (id : Text)
    → IsMove id g (after g (register r n g))
unfolding register
register-IsMove r n g id = elim (Bool-cases (r.status == hypothesis)) [
  | inr other ↦ rw (other, register) (is_move_refl _)
  | inl fresh ↦ elim (Option-cases (validate_lineage r)) [
    | inr (e, bad) ↦ rw (fresh, bad, register) (is_move_refl _)
    | inl good ↦ elim (Option-cases (resolve_root g.strategies r)) [
      | inl orphan ↦ rw (fresh, good, orphan, register) (is_move_refl _)
      | inr (root, found) ↦
          rw (fresh, good, found, register)
            (insert_new-IsMove g r root n id ((status_eq_iff r.status hypothesis).0 fresh))
    ]
  ]
]

transition-IsMove :
    (id : Text) (to : Status) (expected : Option Status) (n : Note) (g : Registry) (other : Text)
    → IsMove other g (after g (transition id to expected n g))
unfolding transition
transition-IsMove id to expected n g other = elim (Bool-cases (contains all_statuses to)) [
  | inr strange ↦ rw (strange, transition) (is_move_refl _)
  | inl known ↦ elim (Option-cases (find_row id g.strategies)) [
    | inl missing ↦ rw (known, missing, transition) (is_move_refl _)
    | inr (row, found) ↦
        rw (known, found, transition) (apply_transition-IsMove id to expected n g row other found)
  ]
]

assign_account_move :
    (id : Text) (account : Option Text) (now : ℕ) (g : Registry) (other : Text)
    → status_of other (after g (assign_account id account now g)) ≡ status_of other g
unfolding assign_account
assign_account_move id account now g other =
    let normal = normalized_account account in
    ground (
      arith,
      text_eq_iff id other,
      find_row-update_row id other (set_account normal now) (λ r. refl) g.strategies,
    )

set_regime_gate_move :
    (id : Text) (fit kill : Option (List Text)) (now : ℕ) (g : Registry) (other : Text)
    → status_of other (after g (set_regime_gate id fit kill now g)) ≡ status_of other g
unfolding set_regime_gate
set_regime_gate_move id fit kill now g other = ground (
  arith,
  text_eq_iff id other,
  find_row-update_row id other (set_gate fit kill now) (λ r. refl) g.strategies,
)

backfill_roots_move :
    (g : Registry) (id : Text)
    → map_option (λ r. r.status) (find_row id (backfill_roots g.strategies)) ≡ status_of id g
backfill_roots_move g id = ground (arith, find_row-backfill_roots id g.strategies)

-- Whatever the call, and whether it succeeds or not, the status of every strategy stays as it was,
-- or the strategy is new and a hypothesis, or the move is one that `ALLOWED_TRANSITIONS` lists.
pub step-is_move :
    (g : Registry) (c : Call) (id : Text)
    → is_move (status_of id g) (status_of id (step g c)) ≡ true
unfolding step
step-is_move g (registers r n) id = register-IsMove r n g id
step-is_move g (moves other to expected n) id = transition-IsMove other to expected n g id
step-is_move g (assigns other account now) id =
    rw (assign_account_move other account now g id) (is_move_refl _)
step-is_move g (gates other fit kill now) id =
    rw (set_regime_gate_move other fit kill now g id) (is_move_refl _)
step-is_move g ensures_schema id = rw (backfill_roots_move g id) (is_move_refl _)

terminal_move :
    (s : Status) (o : Option Status)
    → contains terminal_statuses s ≡ true
    → is_move (some s) o ≡ true
    → o ≡ some s
unfolding is_move is_allowed
terminal_move killed (some t) h m = ground (arith, status_eq_iff killed t)
terminal_move retired (some t) h m = ground (arith, status_eq_iff retired t)
terminal_move s o h m = ground arith

-- A strategy that is killed or retired stays so through every later history of calls.
pub run_terminal :
    (s : Status) (id : Text) (g : Registry) (cs : List Call)
    → contains terminal_statuses s ≡ true
    → status_of id g ≡ some s
    → status_of id (run g cs) ≡ some s
run_terminal s id g cs end h =
    run_keeps (λ g. status_of id g ≡ some s)
      (λ g c now. terminal_move s _ end (rw now at (step-is_move g c id))) g cs h
