-- ===== src/Risk/Switches.antt =====
-- src/shrap/risk_compliance/risk_officer/switches.py: the kill switches.
use shrap_firm.Prelude.{
  ℕ, ◌≡◌, ◌↔◌, ◌⊎◌, refl, Bool, true, false, ◌||◌, not, Option, none, some, List, [], ◌∷◌, ◌++◌,
  arith, ◌==◌, if◌then◌else◌, is_none, some_of,
}
use shrap_firm.Prelude.Text.{Text, text_Eq, text_eq_iff, codes, strip}
use shrap_firm.Prelude.Dict.{Dict, get, put, get-put}
use shrap_firm.Prelude.Double.{Double, ◌<=◌, ◌<<◌, same, abs_float}

abbrev pub switch_manual : Text
switch_manual = codes "manual"

abbrev pub switch_daily_loss : Text
switch_daily_loss = codes "daily_loss"

-- `strategy_switch`
unfoldable pub strategy_switch : Text → Text
strategy_switch id = codes "strategy:" ++ strip id

pub record SwitchState : Type 0 where
  pub name : Text
  pub active : Bool
  pub actor : Text
  pub reason : Text
  pub at : ℕ

pub record SwitchTransition : Type 0 where
  pub state : SwitchState
  pub previously_active : Bool

-- `SwitchBoard`
abbrev pub Board : Type 0
Board = Dict Text SwitchState

-- `is_active`
unfoldable pub is_active : Board → Text → Bool
is_active board name = elim (get board name) [ none ↦ false | some s ↦ s.active ]

abbrev state_of : Text → Bool → Text → Text → ℕ → SwitchState
state_of name active actor reason at = record {
  name = name;
  active = active;
  actor = actor;
  reason = reason;
  at = at;
}

-- `set`
unfoldable pub set_switch : Text → Text → Text → ℕ → Board → Option SwitchTransition × Board
set_switch name actor reason at board =
    let state = state_of name true actor reason at in
    if is_active board name
    then (none, board)
    else (some (record { state = state; previously_active = false }), put board name state)

-- `clear`
unfoldable pub clear_switch : Text → Text → Text → ℕ → Board → Option SwitchTransition × Board
clear_switch name actor reason at board =
    let state = state_of name false actor reason at in
    if not (is_active board name)
    then (none, board)
    else (some (record { state = state; previously_active = true }), put board name state)

-- The second loop of `blocking_switch`.
unfoldable pub blocking_strategy : Board → List Text → Option Text
blocking_strategy board [] = none
blocking_strategy board (id ∷ ids) =
    let rest = blocking_strategy board ids in
    if is_active board (strategy_switch id) then some (strategy_switch id) else rest

-- `blocking_switch`
unfoldable pub blocking_switch : Board → List Text → Option Text
unfolding blocking_strategy
blocking_switch board ids =
    if is_active board switch_manual
    then some switch_manual
    else if is_active board switch_daily_loss
    then some switch_daily_loss
    else blocking_strategy board ids

-- The switches that concern an intent.
abbrev pub halted : Board → List Text → Bool
halted board ids =
    is_active board switch_manual
    || (is_active board switch_daily_loss
        || some_of (λ id. is_active board (strategy_switch id)) ids)

blocking_strategy_lem :
    (board : Board) (ids : List Text)
    → is_none (blocking_strategy board ids)
      ≡ not (some_of (λ id. is_active board (strategy_switch id)) ids)
unfolding blocking_strategy
blocking_strategy_lem board [] = refl
blocking_strategy_lem board (id ∷ ids) = ground (arith, blocking_strategy_lem board ids)

blocking_strategy_active :
    (board : Board) (ids : List Text) (name : Text)
    → blocking_strategy board ids ≡ some name
    → is_active board name ≡ true
unfolding blocking_strategy
blocking_strategy_active board [] name e = ground arith
blocking_strategy_active board (id ∷ ids) name e =
    ground (arith, blocking_strategy_active board ids name)

module _ {F : Type 0} ⦃d : Double F⦄ where
  -- `(current > 0.0) == (delta > 0.0)`
  abbrev same_side : F → F → Bool
  same_side current delta =
      if d.nought << current then d.nought << delta else not (d.nought << delta)

  -- `reduces_position`
  unfoldable pub reduces_position : F → F → Bool
  reduces_position current delta =
      if same delta d.nought
      then false
      else if same current d.nought
      then false
      else if same_side current delta
      then false
      else abs_float delta <= abs_float current

  -- `blocks_intent`
  unfoldable pub blocks_intent : Board → List Text → F → F → Option Text
  blocks_intent board ids current delta = elim (blocking_switch board ids) [
    | none ↦ none
    | some name ↦ if reduces_position current delta then none else some name
  ]

  -- An intent goes through exactly when no switch that concerns it is active, or when it reduces a
  -- position: a halt stops new positions and never an exit.
  pub blocks_intent_iff :
      (board : Board) (ids : List Text) (current delta : F)
      → (blocks_intent board ids current delta ≡ none)
        ↔ ((halted board ids ≡ false) ⊎ (reduces_position current delta ≡ true))
  unfolding blocks_intent blocking_switch
  blocks_intent_iff board ids current delta =
      let found = blocking_strategy_lem board ids in (λ e. ground arith, λ e. ground arith)

  -- What is named as the block is an active switch.
  pub blocks_intent_active :
      (board : Board) (ids : List Text) (current delta : F) (name : Text)
      → blocks_intent board ids current delta ≡ some name
      → is_active board name ≡ true
  unfolding blocks_intent blocking_switch
  blocks_intent_active board ids current delta name e =
      ground (arith, blocking_strategy_active board ids name)

-- One request to the board.
pub data Request : Type 0 where
  sets clears : Text → Text → Text → ℕ → Request

unfoldable pub serve : Request → Board → Option SwitchTransition × Board
serve (sets name actor reason at) board = set_switch name actor reason at board
serve (clears name actor reason at) board = clear_switch name actor reason at board

abbrev pub asked : Request → Text × Bool
asked (sets name actor reason at) = (name, true)
asked (clears name actor reason at) = (name, false)

-- A request makes its switch active or inactive as asked and leaves every other switch, and it reports
-- a transition exactly when the switch changed.
pub serve_lem :
    (q : Request) (board : Board) (other : Text)
    → let (report, board') = serve q board in
      let (name, want) = asked q in
      (is_active board' other ≡ (if name == other then want else is_active board other))
      × (is_none report ≡ (if want then is_active board name else not (is_active board name)))
unfolding serve set_switch clear_switch is_active
serve_lem (sets name actor reason at) board other =
    ground
      (arith, text_eq_iff name other, get-put board name other (state_of name true actor reason at))
serve_lem (clears name actor reason at) board other =
    ground (
      arith,
      text_eq_iff name other,
      get-put board name other (state_of name false actor reason at),
    )
