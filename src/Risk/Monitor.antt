-- ===== src/Risk/Monitor.antt =====
-- src/shrap/risk_compliance/risk_officer/monitor.py: the limits that are watched continuously. An equity
-- series stands in the order of its times, as the source sorts it.
use shrap_firm.Prelude.{
  ℕ, ◌≡◌, ◌⊎◌, inl, inr, refl, ◌∙◌, true, ◌&&◌, not, Option, none, some, List, [], ◌∷◌, arith,
  if◌then◌else◌, Bool-cases,
}
use shrap_firm.Prelude.Double.{Double, IsOrdered, ◌<=◌, ◌<<◌, max_float}

pub data Severity : Type 0 where
  info warn breach : Severity

pub record EquityPoint (F : Type 0) : Type 0 where
  pub at : ℕ
  pub equity : F

module _ {F : Type 0} ⦃d : Double F⦄ where
  -- `_severity`; the warning level is the threshold times `WARN_FRACTION`
  unfoldable pub severity : F → F → F → Severity
  severity warn_fraction observed threshold =
      if threshold <= observed
      then breach
      else if d.mul threshold warn_fraction <= observed
      then warn
      else info

  -- The drop from one value to another, as a fraction of the first.
  abbrev pub fall : F → F → F
  fall from to = d.div (d.sub from to) from

  abbrev pub last_equity : EquityPoint F → List (EquityPoint F) → F
  last_equity p [] = p.equity
  last_equity p (q ∷ ps) = last_equity q ps

  -- `session_loss`, of the session's points
  unfoldable pub session_loss : List (EquityPoint F) → Option F
  session_loss [] = none
  session_loss (p ∷ []) = none
  session_loss (p ∷ q ∷ ps) =
      if p.equity <= d.nought
      then none
      else some (max_float d.nought (fall p.equity (last_equity q ps)))

  -- The loop of `peak_drawdown`.
  unfoldable pub drawdown_from : F → F → List (EquityPoint F) → F
  drawdown_from peak worst [] = worst
  drawdown_from peak worst (p ∷ ps) =
      let risen = peak << p.equity in
      drawdown_from (if risen then p.equity else peak)
        (if risen
          then worst
          else if d.nought << peak
          then max_float worst (fall peak p.equity)
          else worst)
        ps

  -- `peak_drawdown`
  unfoldable pub peak_drawdown : List (EquityPoint F) → Option F
  unfolding drawdown_from
  peak_drawdown [] = none
  peak_drawdown (p ∷ []) = none
  peak_drawdown (p ∷ q ∷ ps) = some (drawdown_from p.equity d.nought (q ∷ ps))

  -- The falls that count: at each point that is not a new high, from the highest equity before it, as
  -- long as that is positive.
  unfoldable pub falls_from : F → List (EquityPoint F) → List F
  falls_from peak [] = []
  falls_from peak (p ∷ ps) =
      let rest = falls_from (max_float peak p.equity) ps in
      if not (peak << p.equity) && d.nought << peak then fall peak p.equity ∷ rest else rest

  -- The value is one of the listed ones.
  abbrev pub Listed : F → List F → Type 0
  Listed x [] = ⊥
  Listed x (y ∷ ys) = (x ≡ y) ⊎ Listed x ys

  -- `worst` is the greatest of `start` and the listed falls.
  pub record IsGreatest (worst start : F) (falls : List F) : Type 0 where
    pub start_le : (start <= worst) ≡ true
    pub all_le : (x : F) → Listed x falls → (x <= worst) ≡ true
    pub attained : (worst ≡ start) ⊎ Listed worst falls

  module _ (laws : IsOrdered F) where
    max_float-ge : (a b : F) → ((a <= max_float a b) ≡ true) × ((b <= max_float a b) ≡ true)
    max_float-ge a b =
        let refl_a = laws.le_refl a in
        let refl_b = laws.le_refl b in let total = laws.le_total b a in ground arith

    -- Starting from the larger of a value and a fall is counting that fall too.
    IsGreatest-cons :
        (worst start x : F) (falls : List F)
        → IsGreatest worst (max_float start x) falls
        → IsGreatest worst start (x ∷ falls)
    IsGreatest-cons worst start x falls h = record {
      start_le = laws.le_trans _ _ _ (max_float-ge start x).0 h.start_le;
      all_le = λ y m. elim m [
        | inl same ↦ rw same (laws.le_trans _ _ _ (max_float-ge start x).1 h.start_le)
        | inr later ↦ h.all_le y later
      ];
      attained = elim h.attained [
        | inl e ↦ elim (Bool-cases (start << x)) [
          | inl new ↦ inr (inl (e ∙ rw new))
          | inr old ↦ inl (e ∙ rw old)
        ]
        | inr later ↦ inr (inr later)
      ];
    }

    drawdown_from-IsGreatest :
        (peak start : F) (ps : List (EquityPoint F))
        → IsGreatest (drawdown_from peak start ps) start (falls_from peak ps)
    unfolding drawdown_from falls_from
    drawdown_from-IsGreatest peak start [] = record {
      start_le = laws.le_refl start;
      all_le = λ x h. absurd h;
      attained = inl refl;
    }
    drawdown_from-IsGreatest peak start (p ∷ ps) = elim (Bool-cases (peak << p.equity)) [
      | inl risen ↦ rw risen (drawdown_from-IsGreatest p.equity start ps)
      | inr fallen ↦ elim (Bool-cases (d.nought << peak)) [
        | inl positive ↦
            rw (fallen, positive)
              (IsGreatest-cons _ start (fall peak p.equity) _
                (drawdown_from-IsGreatest peak (max_float start (fall peak p.equity)) ps))
        | inr flat ↦ rw (fallen, flat) (drawdown_from-IsGreatest peak start ps)
      ]
    ]

    -- A drawdown that is given is that of a series of two points or more, and it is the greatest
    -- of zero and all falls from the running peak: it bounds every one of them, and it is zero or
    -- one of them.
    pub peak_drawdown_lem :
        (points : List (EquityPoint F)) (worst : F)
        → peak_drawdown points ≡ some worst
        → (p : EquityPoint F) × (q : EquityPoint F) × (ps : List (EquityPoint F)) × (points
            ≡ p ∷ q ∷ ps)
          × IsGreatest worst d.nought (falls_from p.equity (q ∷ ps))
    unfolding peak_drawdown
    peak_drawdown_lem [] worst e = cc
    peak_drawdown_lem (p ∷ []) worst e = cc
    peak_drawdown_lem (p ∷ q ∷ ps) worst e =
        let found : drawdown_from p.equity d.nought (q ∷ ps) ≡ worst = cc in
        (p, q, ps, refl, rw (← found) (drawdown_from-IsGreatest p.equity d.nought (q ∷ ps)))
