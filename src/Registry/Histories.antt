-- ===== src/Registry/Histories.antt =====
-- Sequences of calls on the registry of src/shrap/research/strategy_registry.py: each call runs in a
-- transaction of its own, so any interleaving of the writers is such a sequence.
use shrap_firm.Prelude.{ℕ, ◌≡◌, refl, Option, List, [], ◌∷◌, arith, All}
use shrap_firm.Prelude.Text.{Text, text_Eq}
use shrap_firm.Registry.Status.{Status}
use shrap_firm.Registry.Table.{StrategyRecord, Rows, find_row, map_option}
use shrap_firm.Registry.Operations.{
  Registry, Result, ok, err, Note, register, transition, assign_account, set_regime_gate,
  backfill_roots, adopt,
}

-- A call with its arguments; `ensure_schema` is the migration, of which the backfill changes rows.
pub data Call : Type 0 where
  registers : StrategyRecord → Note → Call
  moves : Text → Status → Option Status → Note → Call
  assigns : Text → Option Text → ℕ → Call
  gates : Text → Option (List Text) → Option (List Text) → ℕ → Call
  ensures_schema : Call

-- What a call leaves behind: on an error, the tables as they were.
abbrev pub after : {A : Type 0} → Registry → Result A → Registry
after g (ok _ g') = g'
after g (err _) = g

unfoldable pub step : Registry → Call → Registry
step g (registers r n) = after g (register r n g)
step g (moves id to expected n) = after g (transition id to expected n g)
step g (assigns id account now) = after g (assign_account id account now g)
step g (gates id fit kill now) = after g (set_regime_gate id fit kill now g)
step g ensures_schema = record g { strategies = backfill_roots g.strategies }

unfoldable pub run : Registry → List Call → Registry
run g [] = g
run g (c ∷ cs) = run (step g c) cs

-- A property that each call keeps is kept by every history.
pub run_keeps {ℓ} :
    (P : Registry → Type ℓ)
    → ((g : Registry) (c : Call) → P g → P (step g c))
    → (g : Registry) (cs : List Call) → P g
    → P (run g cs)
unfolding run
run_keeps P keeps g [] p = p
run_keeps P keeps g (c ∷ cs) p = run_keeps P keeps (step g c) cs (keeps g c p)

-- The same, where the calls themselves are restricted.
pub run_keeps_if {ℓ κ} :
    (P : Registry → Type ℓ) (Q : Call → Type κ)
    → ((g : Registry) (c : Call) → Q c → P g → P (step g c))
    → (g : Registry) (cs : List Call) → All Q cs
    → P g
    → P (run g cs)
unfolding run
run_keeps_if P Q keeps g [] q p = p
run_keeps_if P Q keeps g (c ∷ cs) q p = run_keeps_if P Q keeps (step g c) cs q.1 (keeps g c q.0 p)

-- The backfill keeps every row and its key.
pub find_row-backfill_roots :
    (id : Text) (rows : Rows)
    → find_row id (backfill_roots rows) ≡ map_option adopt (find_row id rows)
unfolding find_row backfill_roots
find_row-backfill_roots id [] = refl
find_row-backfill_roots id (r ∷ rows) = ground (arith, find_row-backfill_roots id rows)
