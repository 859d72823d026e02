-- ===== src/Runner/Closing/Once.antt =====
-- The suppression window of src/shrap/research/strategy_runner/exit_planner.py over two exit passes.
use shrap_firm.Prelude.{
  ◌≡◌, ◌≢◌, refl, true, some, List, [], ◌∷◌, arith, contains, All, All-weaken, Bool-cases, inl, inr,
  equal_refl, ◌==◌,
}
use shrap_firm.Prelude.Text.{Text, text_Eq}
use shrap_firm.Prelude.Dict.{Dict, get, put, get-put}
use shrap_firm.Prelude.Double.{Double, IsOrdered, ◌<<◌}
use shrap_firm.Risk.Exits.{ExitRule, is_armed}
use shrap_firm.Runner.Pass.{Assigned}
use shrap_firm.Runner.Closing.{
  ExitSignal, PnLBooks, suppressed_tickers, mark_emitted, run_exit_pass,
}
use shrap_firm.Runner.Closing.Grounds.{ClosesOneOf-free, run_exit_pass-IsClosing}

module _ {F : Type 0} ⦃d : Double F⦄ where
  -- A ticker that was emitted within the window is suppressed.
  emitted_suppressed :
      (emitted_at : Dict Text F) (now window at : F) (ticker : Text)
      → get emitted_at ticker ≡ some at
      → (d.sub now at << window) ≡ true
      → contains (suppressed_tickers emitted_at now window) ticker ≡ true
  unfolding suppressed_tickers get
  emitted_suppressed [] now window at ticker found fresh = ground arith
  emitted_suppressed ((key, seen) ∷ rest) now window at ticker found fresh =
      elim (Bool-cases (key == ticker)) [
        | inl same ↦
            let now_seen : seen ≡ at = ground arith in
            let kept : (d.sub now seen << window) ≡ true = rw (now_seen) fresh in
            rw (kept, same) refl
        | inr other ↦
            let later = emitted_suppressed rest now window at ticker (ground arith) fresh in
            ground arith
      ]

  mark_emitted_keeps :
      (now : F) (signals : List (ExitSignal F)) (emitted_at : Dict Text F) (ticker : Text)
      → get emitted_at ticker ≡ some now
      → get (mark_emitted now signals emitted_at) ticker ≡ some now
  unfolding mark_emitted
  mark_emitted_keeps now [] emitted_at ticker found = found
  mark_emitted_keeps now (s ∷ rest) emitted_at ticker found =
      mark_emitted_keeps now rest (put emitted_at s.decision.ticker now) ticker
        (ground (arith, get-put emitted_at s.decision.ticker ticker now))

  mark_emitted_marks :
      (now : F) (signals : List (ExitSignal F)) (emitted_at : Dict Text F)
      → All (λ s. get (mark_emitted now signals emitted_at) s.decision.ticker ≡ some now) signals
  unfolding mark_emitted
  mark_emitted_marks now [] emitted_at = record {}
  mark_emitted_marks now (s ∷ rest) emitted_at =
      let sold = s.decision.ticker in
      (
        mark_emitted_keeps now rest (put emitted_at sold now) sold
            (ground (arith, get-put emitted_at sold sold now, equal_refl sold)),
        mark_emitted_marks now rest (put emitted_at sold now),
      )

  run_exit_pass-marks :
      (min_notional : F) (rule : ExitRule F) (books : PnLBooks F) (records : List (Assigned F))
      (now window : F) (emitted_at : Dict Text F)
      → let pass = run_exit_pass min_notional rule books records now window emitted_at in
        All (λ s. get pass.emitted_at s.decision.ticker ≡ some now) pass.signals
  unfolding run_exit_pass
  run_exit_pass-marks min_notional rule books records now window emitted_at =
      elim (Bool-cases (is_armed rule)) [
        | inr unarmed ↦ rw (unarmed) (record {})
        | inl armed ↦ rw (armed) (mark_emitted_marks now _ emitted_at)
      ]

  -- Two exit passes within the suppression window never sell the same ticker, whatever the books, the
  -- strategies and the rule are at each: none of the second's orders is for a ticker that the first
  -- sold.
  pub run_exit_pass_once :
      IsOrdered F
      → (min_notional : F) (rule rule' : ExitRule F) (books books' : PnLBooks F)
        (records records' : List (Assigned F)) (now now' window window' : F)
        (emitted_at : Dict Text F)
      → (d.sub now' now << window') ≡ true
      → let first = run_exit_pass min_notional rule books records now window emitted_at in
        let second =
          run_exit_pass min_notional rule' books' records' now' window' first.emitted_at in
        All (λ s. All (λ t. t.decision.ticker ≢ s.decision.ticker) second.signals) first.signals
  run_exit_pass_once laws min_notional rule rule' books books' records records' now now' window
        window' emitted_at soon =
      let first = run_exit_pass min_notional rule books records now window emitted_at in
      let closing =
        run_exit_pass-IsClosing laws min_notional rule' books' records' now' window'
          first.emitted_at in
      All-weaken _ _ first.signals
        (λ s marked.
          let sold =
            emitted_suppressed first.emitted_at now' window' now s.decision.ticker marked soon in
          All-weaken _ _ _
            (λ t closes.
              let free = ClosesOneOf-free closes.positions t.decision closes.closes in
              λ same. ground arith)
            closing)
        (run_exit_pass-marks min_notional rule books records now window emitted_at)
