-- ===== src/Runner/Polling.antt =====
-- `SessionTracker` and `poll_once` of src/shrap/agents/research/strategy_runner/runner.py. Redis and
-- `run_pass` are an interface over a world that their calls change. The read that failed returns at
-- once and is left out, and so are the delays. The caller gives a tracker, as `run_loop` does. A call
-- of `ack` that raises is none of Python's `ValueError`s.
use shrap_firm.Prelude.{
  ℕ, ◌+◌, ◌≡◌, Bool, true, false, Option, none, some, List, [], ◌∷◌, if◌then◌else◌, ◌==◌,
}
use shrap_firm.Prelude.Text.{Text, text_Eq, codes}
pub mod Settled

-- The payload of a market-phase event: `session_date` is what `_parse_session_date` makes of it, `none`
-- its ValueError.
pub record PhasePayload : Type 0 where
  pub phase : Text
  pub session_date : Option ℕ

pub record PhaseEvent : Type 0 where
  pub event_id : Text
  pub payload : Option PhasePayload

-- How `run_pass` ends: with what it emitted and whether it is complete, or by an exception.
pub data PassEnd : Type 0 where
  passed : ℕ → Bool → PassEnd
  sizing_refused value_error systemic_error : PassEnd

-- `ack` answers whether it returns.
pub record PhaseServices (W : Type 0) : Type 0 where
  pub run_pass : ℕ → W → PassEnd × W
  pub ack : Text → W → Bool × W

-- What becomes of an event: it is acknowledged, or left pending with those after it, or an exception
-- leaves the loop.
pub data Verdict : Type 0 where
  settled held thrown : Verdict

-- `Phase.OPEN`
abbrev pub open_phase : Text
open_phase = codes "open"

-- `SessionTracker.observe`, to the session that is open after it
unfoldable pub observe : Text → Option ℕ → Option ℕ
observe phase session_date = if phase == open_phase then session_date else none

-- One event: its verdict, the signals it counts, the open session, and the world.
abbrev Handled : Type 0 → Type 0
Handled W = Verdict × ℕ × Option ℕ × W

pub record Poll : Type 0 where
  pub done : List PhaseEvent
  pub left : List PhaseEvent
  pub emitted : ℕ
  pub open_session : Option ℕ
  pub raised : Bool

module _ {W : Type 0} (s : PhaseServices W) where
  -- `ack` in the try block, whose exception holds the event
  unfoldable pub ack_held : PhaseEvent → W → Verdict × W
  ack_held e w = let (returned, w') = s.ack e.event_id w in (if returned then settled else held, w')

  -- `ack` in the handler of a ValueError, whose exception leaves the loop
  unfoldable pub ack_thrown : PhaseEvent → W → Verdict × W
  ack_thrown e w =
      let (returned, w') = s.ack e.event_id w in (if returned then settled else thrown, w')

  abbrev with_count : ℕ → Option ℕ → Verdict × W → Handled W
  with_count emitted session (verdict, w) = (verdict, emitted, session, w)

  -- The rest of an event that opens a session.
  unfoldable pub after_pass : PhaseEvent → Option ℕ → PassEnd × W → Handled W
  unfolding ack_held ack_thrown
  after_pass e session (passed emitted is_complete, w) =
      if is_complete then with_count emitted session (ack_held e w) else (held, emitted, session, w)
  after_pass e session (sizing_refused, w) = (held, 0, session, w)
  after_pass e session (value_error, w) = with_count 0 session (ack_thrown e w)
  after_pass e session (systemic_error, w) = (held, 0, session, w)

  -- The body of the loop of `poll_once`.
  unfoldable pub handle_phase : PhaseEvent → Option ℕ → W → Handled W
  unfolding ack_held ack_thrown observe after_pass
  handle_phase e session w = elim e.payload [
    | none ↦ with_count 0 session (ack_held e w)
    | some p ↦
        if p.phase == open_phase
        then elim p.session_date [
          | none ↦ with_count 0 session (ack_thrown e w)
          | some date ↦ after_pass e (observe p.phase (some date)) (s.run_pass date w)
        ]
        else with_count 0 (observe p.phase none) (ack_held e w)
  ]

  -- The end of the loop at an event, or the rest of the batch after it.
  abbrev go_on : PhaseEvent → List PhaseEvent → Handled W → Poll × W → Poll × W
  go_on e es (settled, emitted, session, w) (p, w') =
      (record p { done = e ∷ p.done; emitted = emitted + p.emitted }, w')
  go_on e es (held, emitted, session, w) rest = (
    record { done = []; left = e ∷ es; emitted = emitted; open_session = session; raised = false },
    w,
  )
  go_on e es (thrown, emitted, session, w) rest = (
    record { done = []; left = e ∷ es; emitted = emitted; open_session = session; raised = true },
    w,
  )

  -- `poll_once`, on the events that were read
  unfoldable pub poll_once : List PhaseEvent → Option ℕ → W → Poll × W
  unfolding handle_phase
  poll_once [] session w =
      (record { done = []; left = []; emitted = 0; open_session = session; raised = false }, w)
  poll_once (e ∷ es) session w =
      let (verdict, emitted, session', w') = handle_phase e session w in
      go_on e es (verdict, emitted, session', w') (poll_once es session' w')
