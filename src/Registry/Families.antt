-- ===== src/Registry/Families.antt =====
-- Lineage in src/shrap/research/strategy_registry.py: the root of a family, and how many attempts it
-- has burned.
use shrap_firm.Prelude.{
  ℕ, ◌+◌, ◌≡◌, ◌≢◌, refl, true, Option, none, some, List, ◌∷◌, arith, ◌==◌, if◌then◌else◌,
  Option-cases, inl, inr, length, ap, ◌∙◌,
}
use shrap_firm.Prelude.Text.{Text, text_Eq, text_eq_iff}
use shrap_firm.Registry.Status.{Status, status_Eq}
use shrap_firm.Registry.Table.{
  StrategyRecord, Rows, find_row, find_row-update_row, map_option, root_of,
}
use shrap_firm.Registry.Operations.{
  Registry, ok, Note, register, insert_new, transition, apply_transition, assign_account,
  set_regime_gate, set_status, set_account, set_gate, backfill_roots, validate_lineage,
  resolve_root, normalized_account, lineage, members, stored_row, adopt,
}
use shrap_firm.Registry.Histories.{
  Call, registers, moves, assigns, gates, ensures_schema, after, step, run, run_keeps,
  find_row-backfill_roots,
}

-- What is fixed when a strategy is registered: its root, its parent and the hash of its spec.
abbrev pub pedigree : StrategyRecord → Text × Option Text × Text
pedigree r = (root_of r, r.parent_strategy_id, r.spec_hash)

abbrev pub pedigree_of : Text → Registry → Option (Text × Option Text × Text)
pedigree_of id g = map_option pedigree (find_row id g.strategies)

adopt-pedigree : (r : StrategyRecord) → pedigree (adopt r) ≡ pedigree r
unfolding root_of
adopt-pedigree r = ground arith

register-pedigree :
    (r : StrategyRecord) (n : Note) (g : Registry) (id : Text) (p : Text × Option Text × Text)
    → pedigree_of id g ≡ some p
    → pedigree_of id (after g (register r n g)) ≡ some p
unfolding register insert_new find_row
register-pedigree r n g id p h = elim (Option-cases (validate_lineage r)) [
  | inr (e, bad) ↦ ground (arith, text_eq_iff r.strategy_id id)
  | inl good ↦ ground (arith, text_eq_iff r.strategy_id id)
]

transition-pedigree :
    (id : Text) (to : Status) (expected : Option Status) (n : Note) (g : Registry) (other : Text)
    → pedigree_of other (after g (transition id to expected n g)) ≡ pedigree_of other g
unfolding transition apply_transition root_of
transition-pedigree id to expected n g other = ground (
  arith,
  text_eq_iff id other,
  find_row-update_row id other (set_status to n.occurred_at) (λ r. refl) g.strategies,
)

assign_account-pedigree :
    (id : Text) (account : Option Text) (now : ℕ) (g : Registry) (other : Text)
    → pedigree_of other (after g (assign_account id account now g)) ≡ pedigree_of other g
unfolding assign_account root_of
assign_account-pedigree id account now g other =
    let normal = normalized_account account in
    ground (
      arith,
      text_eq_iff id other,
      find_row-update_row id other (set_account normal now) (λ r. refl) g.strategies,
    )

set_regime_gate-pedigree :
    (id : Text) (fit kill : Option (List Text)) (now : ℕ) (g : Registry) (other : Text)
    → pedigree_of other (after g (set_regime_gate id fit kill now g)) ≡ pedigree_of other g
unfolding set_regime_gate root_of
set_regime_gate-pedigree id fit kill now g other = ground (
  arith,
  text_eq_iff id other,
  find_row-update_row id other (set_gate fit kill now) (λ r. refl) g.strategies,
)

backfill_roots-pedigree :
    (g : Registry) (id : Text)
    → pedigree_of id (record g { strategies = backfill_roots g.strategies }) ≡ pedigree_of id g
unfolding root_of
backfill_roots-pedigree g id = ground (arith, find_row-backfill_roots id g.strategies)

step-pedigree :
    (p : Text × Option Text × Text) (id : Text) (g : Registry) (c : Call)
    → pedigree_of id g ≡ some p
    → pedigree_of id (step g c) ≡ some p
unfolding step
step-pedigree p id g (registers r n) h = register-pedigree r n g id p h
step-pedigree p id g (moves other to expected n) h =
    rw (transition-pedigree other to expected n g id) h
step-pedigree p id g (assigns other account now) h =
    rw (assign_account-pedigree other account now g id) h
step-pedigree p id g (gates other fit kill now) h =
    rw (set_regime_gate-pedigree other fit kill now g id) h
step-pedigree p id g ensures_schema h = rw (backfill_roots-pedigree g id) h

-- Ancestry is fixed at the insert: no later history of calls changes the lineage root, the parent or
-- the spec hash of a registered strategy, or loses the strategy.
pub run-pedigree :
    (p : Text × Option Text × Text) (id : Text) (g : Registry) (cs : List Call)
    → pedigree_of id g ≡ some p
    → pedigree_of id (run g cs) ≡ some p
run-pedigree p id g cs h = run_keeps (λ g. pedigree_of id g ≡ some p) (step-pedigree p id) g cs h

register_stored :
    (r : StrategyRecord) (n : Note) (g g' : Registry) (p : Text) (parent : StrategyRecord)
    → register r n g ≡ ok true g'
    → r.parent_strategy_id ≡ some p
    → find_row p g.strategies ≡ some parent
    → (g'.strategies ≡ stored_row r (root_of parent) n.occurred_at ∷ g.strategies)
      × (find_row r.strategy_id g.strategies ≡ none)
unfolding register insert_new resolve_root
register_stored r n g g' p parent e rev found = ground arith

-- The new row is seen at its own key alone.
find_row-stored :
    (new row : StrategyRecord) (id : Text) (rows : Rows)
    → find_row new.strategy_id rows ≡ none
    → find_row id rows ≡ some row
    → find_row id (new ∷ rows) ≡ some row
unfolding find_row
find_row-stored new row id rows fresh found = ground (arith, text_eq_iff new.strategy_id id)

members-stored :
    (r : StrategyRecord) (root other : Text) (now : ℕ) (rows : Rows)
    → members other (stored_row r root now ∷ rows)
      ≡ (if root == other then stored_row r root now ∷ members other rows else members other rows)
unfolding members
members-stored r root other now rows = refl

lineage_found :
    (id : Text) (row : StrategyRecord) (g : Registry)
    → find_row id g.strategies ≡ some row
    → lineage id g ≡ members (root_of row) g.strategies
unfolding lineage
lineage_found id row g found = rw (found, lineage)

lineage_stored :
    (id : Text) (row new : StrategyRecord) (g g' : Registry)
    → g'.strategies ≡ new ∷ g.strategies
    → find_row new.strategy_id g.strategies ≡ none
    → find_row id g.strategies ≡ some row
    → lineage id g' ≡ members (root_of row) (new ∷ g.strategies)
lineage_stored id row new g g' stored fresh found =
    lineage_found id row g' (rw stored (find_row-stored new row id g.strategies fresh found))
    ∙ ap (members (root_of row)) stored

-- A revision that is newly registered on a parent is one more attempt of the parent's family,
-- whatever root the proposer wrote into the record, and a family with another root is left as it
-- was.
pub register_counts :
    (r : StrategyRecord) (n : Note) (g g' : Registry) (p : Text) (parent : StrategyRecord)
    → register r n g ≡ ok true g'
    → r.parent_strategy_id ≡ some p
    → find_row p g.strategies ≡ some parent
    → (length (lineage p g') ≡ length (lineage p g) + 1)
      × ((id : Text) (row : StrategyRecord)
          → find_row id g.strategies ≡ some row
          → root_of row ≢ root_of parent
          → lineage id g' ≡ lineage id g)
register_counts r n g g' p parent e rev found =
    let (stored, fresh) = register_stored r n g g' p parent e rev found in
    let new = stored_row r (root_of parent) n.occurred_at in
    (
      rw
          (
            lineage_found p parent g found,
            lineage_stored p parent new g g' stored fresh found,
            members-stored r (root_of parent) (root_of parent) n.occurred_at g.strategies,
          )
          (ground (arith, text_eq_iff (root_of parent) (root_of parent))),
      λ id row h ne.
          rw
            (
              lineage_found id row g h,
              lineage_stored id row new g g' stored fresh h,
              members-stored r (root_of parent) (root_of row) n.occurred_at g.strategies,
            )
            (ground (arith, text_eq_iff (root_of parent) (root_of row))),
    )
