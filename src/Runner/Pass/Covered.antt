-- ===== src/Runner/Pass/Covered.antt =====
-- What a pass of src/shrap/agents/research/strategy_runner/runner.py publishes against what its accounts hold.
use shrap_firm.Prelude.{◌≡◌, true, false, is_none}
use shrap_firm.Prelude.Text.{Text, text_Eq}
use shrap_firm.Prelude.Dict.{get}
use shrap_firm.Prelude.Double.{Double, ◌<=◌, ◌<<◌}
use shrap_firm.Runner.Engine.{side_sell, PlannedSignal, or_nothing}
use shrap_firm.Runner.Pass.{Books, Moment, Effect, publish, stamp, Pass, usable_equity}

module _ {F : Type 0} ⦃d : Double F⦄ where
  abbrev position_in : Books F → PlannedSignal F → F
  position_in books s = or_nothing (get (books.latest_positions s.account_id).0 s.ticker)

  -- A signal of an account with observed positions and usable equity, and for a sell of shares held.
  pub record IsCovered (m : Moment) (books : Books F) (s : PlannedSignal F) : Type 0 where
    pub is_usable : is_none (usable_equity m books s.account_id) ≡ false
    pub holds : s.side ≡ side_sell → (d.nought << position_in books s) ≡ true
    pub at_most_held : s.side ≡ side_sell → (s.quantity <= position_in books s) ≡ true

  abbrev pub Covers : Moment → Books F → Effect F → Type 0
  Covers m books (publish s) = IsCovered m books s
  Covers m books (stamp w) = Unit
