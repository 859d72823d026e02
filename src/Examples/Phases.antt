-- ===== src/Examples/Phases.antt =====
-- A batch of market-phase events over a runner that completes the pass of one session and defers any other.
use shrap_firm.Prelude.{
  ℕ, ◌≡◌, refl, true, none, some, List, [], ◌∷◌, ◌++◌, arith, length, list_eq, if◌then◌else◌,
  contains, nat_Eq, nat_eq,
}
use shrap_firm.Prelude.Text.{Text, codes, text_eq}
use shrap_firm.Runner.Polling.{
  PhaseEvent, PassEnd, passed, sizing_refused, PhaseServices, ack_held, ack_thrown, after_pass,
  observe, handle_phase, poll_once,
}
use shrap_firm.Runner.Polling.Settled.{
  IsLasting, AllSettled, observed_all, handled, poll_phases_settle,
}

-- The world is the list of the sessions whose pass is complete.
abbrev pass_of : ℕ → List ℕ → PassEnd × List ℕ
pass_of date w = if nat_eq date 20_000 then (passed 2 true, date ∷ w) else (sizing_refused, w)

abbrev services : PhaseServices (List ℕ)
services = record { run_pass = pass_of; ack = λ id w. (true, w) }

abbrev Completed : ℕ → List ℕ → Type 0
Completed date w = contains w date ≡ true

pass_keeps : (date other : ℕ) (w : List ℕ) → Completed date w → Completed date (pass_of other w).1
pass_keeps date other w before = ground arith

completes :
    (date n : ℕ) (w : List ℕ)
    → (pass_of date w).0 ≡ passed n true
    → Completed date (pass_of date w).1
completes date n w complete = ground arith

services-IsLasting : IsLasting services Completed
services-IsLasting = record {
  completes = completes;
  pass_keeps = pass_keeps;
  ack_keeps = λ date id w before. before;
}

abbrev event : Text → ℕ → PhaseEvent
event phase date = record {
  event_id = phase;
  payload = some (record { phase = phase; session_date = some date });
}

-- The day before closed, a session that completes, and one whose pass is refused.
abbrev batch : List PhaseEvent
batch =
    event (codes "closed") 19_999
    ∷ event (codes "open") 20_000
    ∷ event (codes "open") 20_001
    ∷ event (codes "closed") 20_001
    ∷ []

two_done :
    let p = (poll_once services batch none []).0 in
    (length p.done ≡ 2) × (p.emitted ≡ 2) × (p.open_session ≡ some 20_001)
unfolding poll_once handle_phase after_pass ack_held ack_thrown observe text_eq list_eq
two_done = (refl, refl, refl)

poll_phases_settle_example :
    let (p, w') = poll_once services batch none [] in
    (p.done ++ p.left ≡ batch)
    × AllSettled services Completed w' p.done none []
    × (p.open_session ≡ observed_all (handled p) none)
poll_phases_settle_example = poll_phases_settle services Completed services-IsLasting batch none []
