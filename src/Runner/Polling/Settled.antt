-- ===== src/Runner/Polling/Settled.antt =====
-- Which market-phase events `poll_once` of src/shrap/agents/research/strategy_runner/runner.py acknowledges,
-- and which session it takes to be open.
use shrap_firm.Prelude.{
  ℕ, ◌≡◌, ◌⊎◌, refl, ap, ◌∙◌, true, false, Option, none, some, List, [], ◌∷◌, ◌++◌, arith,
  if◌then◌else◌, ◌==◌, Bool-cases, Option-cases, inl, inr,
}
use shrap_firm.Prelude.Text.{Text, text_Eq}
use shrap_firm.Runner.Polling.{
  PhaseEvent, PassEnd, passed, sizing_refused, value_error, systemic_error, PhaseServices, Verdict,
  settled, held, thrown, open_phase, observe, Handled, Poll, ack_held, ack_thrown, after_pass,
  handle_phase, poll_once,
}

-- The session that an event opens.
abbrev pub opens : PhaseEvent → Option ℕ
opens e = elim e.payload [
  | none ↦ none
  | some p ↦ if p.phase == open_phase then p.session_date else none
]

-- The session that is open after an event: an event that cannot be read changes nothing, and any phase
-- but the open one ends the session.
abbrev pub observed : PhaseEvent → Option ℕ → Option ℕ
observed e session = elim e.payload [
  | none ↦ session
  | some p ↦
      if p.phase == open_phase
      then elim p.session_date [ none ↦ session | some date ↦ some date ]
      else none
]

abbrev pub observed_all : List PhaseEvent → Option ℕ → Option ℕ
observed_all [] session = session
observed_all (e ∷ es) session = observed_all es (observed e session)

abbrev first_of : List PhaseEvent → List PhaseEvent
first_of [] = []
first_of (e ∷ es) = e ∷ []

-- The events that were handled: those that are done, and the one that ended the loop.
abbrev pub handled : Poll → List PhaseEvent
handled p = p.done ++ first_of p.left

-- The pass of a session is complete once `run_pass` says so, and no later call undoes that.
pub record IsLasting {W : Type 0} (s : PhaseServices W) (Completed : ℕ → W → Type 0) : Type 0 where
  pub completes :
      (date n : ℕ) (w : W)
      → (s.run_pass date w).0 ≡ passed n true
      → Completed date (s.run_pass date w).1
  pub pass_keeps :
      (date other : ℕ) (w : W) → Completed date w → Completed date (s.run_pass other w).1
  pub ack_keeps : (date : ℕ) (id : Text) (w : W) → Completed date w → Completed date (s.ack id w).1

module _ {W : Type 0} (s : PhaseServices W) (Completed : ℕ → W → Type 0) where
  -- An event that was handled in the world `w` may be acknowledged: the session that it opens has its
  -- complete pass in the last world, or the pass that this event ran raised a ValueError, which the
  -- source takes for a malformed event.
  abbrev pub IsSettled : W → W → PhaseEvent → Type 0
  IsSettled last w e =
      (date : ℕ) → opens e ≡ some date → Completed date last ⊎ ((s.run_pass date w).0 ≡ value_error)

  -- The same of each event, in the world that the events before it left.
  abbrev pub AllSettled : W → List PhaseEvent → Option ℕ → W → Type 0
  AllSettled last [] session w = Unit
  AllSettled last (e ∷ es) session w =
      IsSettled last w e × (let h = handle_phase s e session w in AllSettled last es h.2 h.3)

  abbrev Ends : PhaseEvent → Option ℕ → W → Handled W → Type 0
  Ends e session w h = (h.2 ≡ observed e session) × (h.0 ≡ settled → IsSettled h.3 w e)

module _ {W : Type 0} (s : PhaseServices W) (Completed : ℕ → W → Type 0)
    (laws : IsLasting s Completed) where
  after_pass_lem :
      (e : PhaseEvent) (date : ℕ) (r : PassEnd × W)
      → ((n : ℕ) → r.0 ≡ passed n true → Completed date r.1)
      → let h = after_pass s e (some date) r in
        (h.2 ≡ some date) × (h.0 ≡ settled → Completed date h.3 ⊎ (r.0 ≡ value_error))
  unfolding after_pass ack_held ack_thrown
  after_pass_lem e date (passed n true, w) completes =
      (refl, λ done. inl (laws.ack_keeps date e.event_id w (completes n refl)))
  after_pass_lem e date (passed n false, w) completes = (refl, λ done. ground arith)
  after_pass_lem e date (sizing_refused, w) completes = (refl, λ done. ground arith)
  after_pass_lem e date (value_error, w) completes = (refl, λ done. inr refl)
  after_pass_lem e date (systemic_error, w) completes = (refl, λ done. ground arith)

  after_pass_keeps :
      (e : PhaseEvent) (session : Option ℕ) (date : ℕ) (r : PassEnd × W)
      → Completed date r.1
      → Completed date (after_pass s e session r).3
  unfolding after_pass ack_held ack_thrown
  after_pass_keeps e session date (passed n true, w) before =
      laws.ack_keeps date e.event_id w before
  after_pass_keeps e session date (passed n false, w) before = before
  after_pass_keeps e session date (sizing_refused, w) before = before
  after_pass_keeps e session date (value_error, w) before = laws.ack_keeps date e.event_id w before
  after_pass_keeps e session date (systemic_error, w) before = before

  handle_phase_keeps :
      (e : PhaseEvent) (session : Option ℕ) (date : ℕ) (w : W)
      → Completed date w
      → Completed date (handle_phase s e session w).3
  unfolding handle_phase ack_held ack_thrown
  handle_phase_keeps e session date w before =
      let acked = laws.ack_keeps date e.event_id w before in
      elim (Option-cases e.payload) [
        | inl empty ↦ rw (handle_phase, empty) acked
        | inr (p, full) ↦ elim (Bool-cases (p.phase == open_phase)) [
          | inr other ↦ rw (handle_phase, full, other) acked
          | inl opening ↦ elim (Option-cases p.session_date) [
            | inl bad ↦ rw (handle_phase, full, opening, bad) acked
            | inr (opened, good) ↦
                rw (handle_phase, full, opening, good)
                  (after_pass_keeps e _ date (s.run_pass opened w)
                    (laws.pass_keeps date opened w before))
          ]
        ]
      ]

  handle_phase_lem :
      (e : PhaseEvent) (session : Option ℕ) (w : W)
      → Ends s Completed e session w (handle_phase s e session w)
  unfolding handle_phase ack_held ack_thrown observe
  handle_phase_lem e session w = elim (Option-cases e.payload) [
    | inl empty ↦ rw (handle_phase, empty) (refl, λ done date o. ground arith)
    | inr (p, full) ↦ elim (Bool-cases (p.phase == open_phase)) [
      | inr other ↦ rw (handle_phase, full, other) (refl, λ done date o. ground arith)
      | inl opening ↦ elim (Option-cases p.session_date) [
        | inl bad ↦ rw (handle_phase, full, opening, bad) (refl, λ done date o. ground arith)
        | inr (date, good) ↦
            let entered : observe p.phase (some date) ≡ some date = ground arith in
            let (session_is, completed) =
              after_pass_lem e date (s.run_pass date w) (λ n. laws.completes date n w) in
            rw (handle_phase, full, opening, good, entered)
              (
                session_is,
                λ done date' o.
                    let same : date ≡ date' = ground arith in
                    rw (← same) (elim (completed done) [
                      | inl complete ↦ inl complete
                      | inr poison ↦ inr poison
                    ]),
              )
      ]
    ]
  ]

  Verdict-cases : (v : Verdict) → (v ≡ settled) ⊎ ((v ≡ held) ⊎ (v ≡ thrown))
  Verdict-cases settled = inl refl
  Verdict-cases held = inr (inl refl)
  Verdict-cases thrown = inr (inr refl)

  poll_once_keeps :
      (es : List PhaseEvent) (session : Option ℕ) (date : ℕ) (w : W)
      → Completed date w
      → Completed date (poll_once s es session w).1
  unfolding poll_once
  poll_once_keeps [] session date w before = before
  poll_once_keeps (e ∷ es) session date w before =
      let h = handle_phase s e session w in
      let now = handle_phase_keeps e session date w before in
      elim (Verdict-cases h.0) [
        | inl ending ↦ rw (poll_once, ending) (poll_once_keeps es h.2 date h.3 now)
        | inr (inl ending) ↦ rw (poll_once, ending) now
        | inr (inr ending) ↦ rw (poll_once, ending) now
      ]

  -- One batch of market-phase events, over services that keep a complete pass complete: what was
  -- acknowledged and what was left are the batch, in order; an acknowledged event that opens a session has
  -- had the complete pass of that session, unless the very pass that this event ran, in the world at its
  -- turn, raised a ValueError; and the session taken to be open is that of the events handled, in order,
  -- where an event that cannot be read changes nothing and any phase but the open one ends the session.
  pub poll_phases_settle :
      (es : List PhaseEvent) (session : Option ℕ) (w : W)
      → let (p, w') = poll_once s es session w in
        (p.done ++ p.left ≡ es)
        × AllSettled s Completed w' p.done session w
        × (p.open_session ≡ observed_all (handled p) session)
  unfolding poll_once
  poll_phases_settle [] session w = (refl, record {}, refl)
  poll_phases_settle (e ∷ es) session w =
      let h = handle_phase s e session w in
      let (session_is, settles) = handle_phase_lem e session w in
      elim (Verdict-cases h.0) [
        | inl ending ↦
            let (split, all_settled, last) = poll_phases_settle es h.2 h.3 in
            rw (poll_once, ending)
              (
                ap (λ rest. e ∷ rest) split,
                (
                  λ date o. elim (settles ending date o) [
                    | inl complete ↦ inl (poll_once_keeps es h.2 date h.3 complete)
                    | inr poison ↦ inr poison
                  ],
                  all_settled,
                ),
                last ∙ ap (observed_all (handled (poll_once s es h.2 h.3).0)) session_is,
              )
        | inr (inl ending) ↦ rw (poll_once, ending) (refl, record {}, session_is)
        | inr (inr ending) ↦ rw (poll_once, ending) (refl, record {}, session_is)
      ]
