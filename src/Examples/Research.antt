-- ===== src/Examples/Research.antt =====
-- A strategy, its revision and a stranger, through the calls of the registry.
use shrap_firm.Prelude.{
  ℕ, ◌+◌, ◌≡◌, ◌≢◌, refl, true, Option, none, some, List, [], ◌∷◌, contains, length, list_eq,
  option_eq,
}
use shrap_firm.Prelude.Text.{Text, text_Eq, text_eq, codes, strip}
use shrap_firm.Registry.Status.{
  hypothesis, paper, killed, status_Eq, status_eq, terminal_statuses, is_allowed,
  allowed_transitions,
}
use shrap_firm.Registry.Table.{
  StrategyRecord, find_row, update_row, clashes, transition_known, account_taken, root_of,
}
use shrap_firm.Registry.Operations.{
  Registry, empty, Note, ok, register, insert_new, resolve_root, validate_lineage, stored_row,
  transition, apply_transition, lineage, assign_account,
}
use shrap_firm.Registry.Histories.{Call, registers, moves, assigns, step, run}
use shrap_firm.Registry.Replay.{Agree, run-Agree}
use shrap_firm.Registry.Moves.{status_of, is_move, step-is_move, run_terminal}
use shrap_firm.Registry.Accounts.{IsExclusive, run-IsExclusive}
use shrap_firm.Registry.Families.{pedigree_of, pedigree, run-pedigree, register_counts}

abbrev proposed : Text → Text → Option Text → StrategyRecord
proposed id hash parent = record {
  strategy_id = id;
  name = id;
  version = 1;
  status = hypothesis;
  spec_hash = hash;
  body = [];
  created_at = 0;
  updated_at = 0;
  account_id = none;
  parent_strategy_id = parent;
  lineage_root_id = none;
  derived_from_evaluation_id = none;
  revision_reason = some (codes "tighter stop");
  regime_fit = none;
  regime_kill = none;
}

abbrev first : StrategyRecord
first = record (proposed (codes "s1") (codes "h1") none) { revision_reason = none }

abbrev revision : StrategyRecord
revision = proposed (codes "s2") (codes "h2") (some (codes "s1"))

abbrev stranger : StrategyRecord
stranger = record (proposed (codes "s3") (codes "h3") none) { revision_reason = none }

abbrev note : Text → ℕ → Note
note id at = record {
  reason = codes "test";
  trigger_kind = codes "manual";
  trigger_ref = none;
  actor = codes "mike";
  occurred_at = at;
  transition_id = id;
}

-- The second account is refused, as `s1` has it.
abbrev history : List Call
history =
    registers first (note (codes "t1") 1)
    ∷ registers stranger (note (codes "t2") 2)
    ∷ assigns (codes "s1") (some (codes " PA1 ")) 3
    ∷ assigns (codes "s3") (some (codes "PA1")) 4
    ∷ moves (codes "s1") paper none (note (codes "t3") 5)
    ∷ []

-- The tables with `s1` and `s3` registered.
abbrev two : Registry
two =
    run empty
      (registers first (note (codes "t1") 1) ∷ registers stranger (note (codes "t2") 2) ∷ [])

abbrev stored_first : StrategyRecord
stored_first = stored_row first (codes "s1") 1

abbrev stored_stranger : StrategyRecord
stored_stranger = stored_row stranger (codes "s3") 2

abbrev three : Registry
three = record {
  strategies = stored_row revision (codes "s1") 3 ∷ two.strategies;
  log =
      record {
        transition_id = codes "t4";
        strategy_id = codes "s2";
        from_status = none;
        to_status = hypothesis;
        reason = codes "test";
        trigger_kind = codes "manual";
        trigger_ref = none;
        actor = codes "mike";
        occurred_at = 3;
      }
      ∷ two.log;
}

abbrev dead : Registry
dead = run two (moves (codes "s1") killed none (note (codes "t5") 6) ∷ [])

history_status : status_of (codes "s1") (run empty history) ≡ some paper
unfolding run step register insert_new resolve_root validate_lineage find_row update_row clashes
    transition_known root_of transition apply_transition is_allowed allowed_transitions text_eq
    list_eq status_eq strip assign_account account_taken option_eq
history_status = refl

run-Agree_example : Agree (run empty history)
run-Agree_example = run-Agree history

run-IsExclusive_example : IsExclusive (run empty history)
run-IsExclusive_example = run-IsExclusive history

step-is_move_example :
    is_move
      (status_of (codes "s1") two)
      (status_of (codes "s1") (step two (moves (codes "s1") paper none (note (codes "t3") 5))))
    ≡ true
step-is_move_example =
    step-is_move two (moves (codes "s1") paper none (note (codes "t3") 5)) (codes "s1")

dead_is_killed : status_of (codes "s1") dead ≡ some killed
unfolding run step register insert_new resolve_root validate_lineage find_row update_row clashes
    transition_known root_of transition apply_transition is_allowed allowed_transitions text_eq
    list_eq status_eq strip
dead_is_killed = refl

killed_is_terminal : contains terminal_statuses killed ≡ true
unfolding status_eq
killed_is_terminal = refl

run_terminal_example : status_of (codes "s1") (run dead history) ≡ some killed
run_terminal_example =
    run_terminal killed (codes "s1") dead history killed_is_terminal dead_is_killed

first_pedigree : pedigree_of (codes "s1") two ≡ some (pedigree stored_first)
unfolding run step register insert_new resolve_root validate_lineage find_row clashes
    transition_known root_of text_eq list_eq status_eq
first_pedigree = refl

run-pedigree_example : pedigree_of (codes "s1") (run two history) ≡ some (pedigree stored_first)
run-pedigree_example = run-pedigree (pedigree stored_first) (codes "s1") two history first_pedigree

revision_registered : register revision (note (codes "t4") 3) two ≡ ok true three
unfolding run step register insert_new resolve_root validate_lineage find_row clashes
    transition_known root_of text_eq list_eq status_eq strip
revision_registered = refl

first_found : find_row (codes "s1") two.strategies ≡ some stored_first
unfolding run step register insert_new resolve_root validate_lineage find_row clashes
    transition_known root_of text_eq list_eq status_eq
first_found = refl

register_counts_example :
    (length (lineage (codes "s1") three) ≡ length (lineage (codes "s1") two) + 1)
    × ((id : Text) (row : StrategyRecord)
        → find_row id two.strategies ≡ some row
        → root_of row ≢ root_of stored_first
        → lineage id three ≡ lineage id two)
register_counts_example =
    register_counts revision (note (codes "t4") 3) two three (codes "s1") stored_first
      revision_registered refl first_found
