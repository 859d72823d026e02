-- ===== src/Registry/Table.antt =====
-- The rows of `research.strategies` and `research.strategy_transitions` in
-- src/shrap/research/strategy_registry.py, and the SQL statements over them. Rows stand newest first:
-- a table has no order of its own. A JSON column is the text that `json.dumps` gave.
use shrap_firm.Prelude.{
  ℕ, ◌≡◌, Bool, false, ◌&&◌, ◌||◌, not, Option, none, some, List, [], ◌∷◌, arith, ◌==◌,
  if◌then◌else◌, some_of, option_eq, option_eq_iff, nat_Eq,
}
use shrap_firm.Prelude.Text.{Text, text_Eq, text_eq_iff, is_empty}
use shrap_firm.Registry.Status.{Status}

-- The columns that the registry computes with; `body` stands for archetype, source, thesis, anchor,
-- tickers, spec, regime_sizing_modifier, kill_criteria and code_ref, which it only copies.
pub record StrategyRecord : Type 0 where
  pub strategy_id : Text
  pub name : Text
  pub version : ℕ
  pub status : Status
  pub spec_hash : Text
  pub body : Text
  pub created_at : ℕ
  pub updated_at : ℕ
  pub account_id : Option Text
  pub parent_strategy_id : Option Text
  pub lineage_root_id : Option Text
  pub derived_from_evaluation_id : Option Text
  pub revision_reason : Option Text
  pub regime_fit : Option (List Text)
  pub regime_kill : Option (List Text)

pub record StrategyTransition : Type 0 where
  pub transition_id : Text
  pub strategy_id : Text
  pub from_status : Option Status
  pub to_status : Status
  pub reason : Text
  pub trigger_kind : Text
  pub trigger_ref : Option Text
  pub actor : Text
  pub occurred_at : ℕ

abbrev pub Rows : Type 0
Rows = List StrategyRecord

-- `SELECT ... WHERE strategy_id = $1`
unfoldable pub find_row : Text → Rows → Option StrategyRecord
find_row id [] = none
find_row id (r ∷ rows) = if r.strategy_id == id then some r else find_row id rows

-- `UPDATE ... WHERE strategy_id = $1`
unfoldable pub update_row : Text → (StrategyRecord → StrategyRecord) → Rows → Rows
update_row id f [] = []
update_row id f (r ∷ rows) =
    let rest = update_row id f rows in if r.strategy_id == id then f r ∷ rest else r ∷ rest

-- `UNIQUE (name, version)` and the unique index on `spec_hash`
unfoldable pub clashes : StrategyRecord → Rows → Bool
clashes new rows =
    some_of (λ r. (r.name == new.name && r.version == new.version) || r.spec_hash == new.spec_hash)
      rows

-- The partial unique index on `account_id`: another row already has the account.
unfoldable pub account_taken : Text → Text → Rows → Bool
account_taken id account [] = false
account_taken id account (r ∷ rows) =
    (not (r.strategy_id == id) && option_eq r.account_id (some account))
    || account_taken id account rows

-- `transition_id` is the primary key of the log.
unfoldable pub transition_known : Text → List StrategyTransition → Bool
transition_known id log = some_of (λ t. t.transition_id == id) log

-- `value or default`, for a text that may be absent
abbrev pub or_text : Option Text → Text → Text
or_text none d = d
or_text (some t) d = if is_empty t then d else t

-- `str(row["lineage_root_id"] or row["strategy_id"])`
unfoldable pub root_of : StrategyRecord → Text
root_of r = or_text r.lineage_root_id r.strategy_id

abbrev pub map_option {ℓ κ} : {A : Type ℓ} {B : Type κ} → (A → B) → Option A → Option B
map_option f none = none
map_option f (some a) = some (f a)

-- An update is seen at its own row alone, if it keeps the primary key.
pub find_row-update_row :
    (id other : Text) (f : StrategyRecord → StrategyRecord)
    → ((r : StrategyRecord) → (f r).strategy_id ≡ r.strategy_id)
    → (rows : Rows)
    → find_row other (update_row id f rows)
      ≡ (if id == other then map_option f (find_row other rows) else find_row other rows)
unfolding find_row update_row
find_row-update_row id other f keeps [] = ground arith
find_row-update_row id other f keeps (r ∷ rows) = ground (
  arith,
  keeps r,
  text_eq_iff r.strategy_id id,
  text_eq_iff r.strategy_id other,
  text_eq_iff (f r).strategy_id other,
  text_eq_iff id other,
  find_row-update_row id other f keeps rows,
)

-- What is found under a key has that key.
pub find_row-key :
    (id : Text) (r : StrategyRecord) (rows : Rows) → find_row id rows ≡ some r → r.strategy_id ≡ id
unfolding find_row
find_row-key id r [] e = ground arith
find_row-key id r (q ∷ rows) e =
    ground (arith, text_eq_iff q.strategy_id id, find_row-key id r rows)

-- Who passes the check of the account index holds the account alone.
pub account_taken_lem :
    (id account other : Text) (r : StrategyRecord) (rows : Rows)
    → account_taken id account rows ≡ false
    → find_row other rows ≡ some r
    → r.account_id ≡ some account
    → other ≡ id
unfolding account_taken find_row
account_taken_lem id account other r [] free found has = ground arith
account_taken_lem id account other r (q ∷ rows) free found has = ground (
  arith,
  text_eq_iff q.strategy_id id,
  text_eq_iff q.strategy_id other,
  option_eq_iff q.account_id (some account),
  account_taken_lem id account other r rows,
)
