-- ===== src/Ops/HealthState.antt =====
-- src/shrap/agents/operations/health_monitor/state.py: the tracker that turns single check results into
-- confirmed transitions.
use shrap_firm.Prelude.{
  ℕ, suc, ◌+◌, ◌≤◌, ◌≡◌, ◌↔◌, refl, Bool, true, false, ◌&&◌, not, Option, none, some, List, [], ◌∷◌,
  ap, arith, ◌==◌, leb, keep, if◌then◌else◌,
}
use shrap_firm.Prelude.Text.{Text, text_Eq, text_eq_iff}
use shrap_firm.Prelude.Dict.{Dict, get, put, get-put, get-nil}

pub data Status : Type 0 where
  good degraded down : Status

abbrev pub is_good : Status → Bool
is_good good = true
is_good _ = false

pub record CheckResult : Type 0 where
  pub name : Text
  pub status : Status

pub data Transition : Type 0 where
  degraded_confirmed recovered_confirmed : Transition

-- `_PerCheck`
pub record PerCheck : Type 0 where
  pub consecutive_good : ℕ
  pub consecutive_bad : ℕ
  pub declared_degraded : Bool
  pub last_status : Option Status

abbrev pub fresh : PerCheck
fresh = record {
  consecutive_good = 0;
  consecutive_bad = 0;
  declared_degraded = false;
  last_status = none;
}

pub record Thresholds : Type 0 where
  pub degradation : ℕ
  pub recovery : ℕ

abbrev pub Checks : Type 0
Checks = Dict Text PerCheck

-- The counters of `update`.
unfoldable pub count_result : Status → PerCheck → PerCheck
count_result s c =
    if is_good s
    then record c {
      last_status = some s;
      consecutive_good = c.consecutive_good + 1;
      consecutive_bad = 0;
    }
    else record c {
      last_status = some s;
      consecutive_bad = c.consecutive_bad + 1;
      consecutive_good = 0;
    }

-- The declarations of `update`.
unfoldable pub declare : Thresholds → PerCheck → Option Transition × PerCheck
declare t c =
    if not c.declared_degraded && leb t.degradation c.consecutive_bad
    then (some degraded_confirmed, record c { declared_degraded = true })
    else if c.declared_degraded && leb t.recovery c.consecutive_good
    then (some recovered_confirmed, record c { declared_degraded = false })
    else (none, c)

abbrev pub or_fresh : Option PerCheck → PerCheck
or_fresh none = fresh
or_fresh (some c) = c

-- `HealthState.update`
unfoldable pub update : Thresholds → CheckResult → Checks → Option Transition × Checks
unfolding count_result declare
update t r checks =
    let (transition, c) = declare t (count_result r.status (or_fresh (get checks r.name))) in
    (transition, put checks r.name c)

-- `is_degraded`
unfoldable pub is_degraded : Text → Checks → Bool
is_degraded name checks = (or_fresh (get checks name)).declared_degraded

-- The tracker after a history of results, newest first.
unfoldable pub checks_after : Thresholds → List CheckResult → Checks
checks_after t [] = []
checks_after t (r ∷ older) = (update t r (checks_after t older)).1

-- One check on its own.
unfoldable pub alone : Thresholds → List CheckResult → PerCheck
alone t [] = fresh
alone t (r ∷ older) = (declare t (count_result r.status (alone t older))).1

abbrev pub of_check : Text → List CheckResult → List CheckResult
of_check name = keep (λ r. r.name == name)

-- Checks do not interfere: what the tracker knows of a check after any history is what it would know
-- from the results of that check alone.
pub checks_separate :
    (t : Thresholds) (name : Text) (history : List CheckResult)
    → or_fresh (get (checks_after t history) name) ≡ alone t (of_check name history)
unfolding checks_after alone update
checks_separate t name [] = ap or_fresh (get-nil {V = PerCheck} name)
checks_separate t name (r ∷ older) =
    let checks = checks_after t older in
    ground (
      arith,
      checks_separate t name older,
      text_eq_iff r.name name,
      get-put checks r.name name
          (declare t (count_result r.status (or_fresh (get checks r.name)))).1,
    )

-- How many of the newest results are bad, and how many good.
abbrev pub bad_run : List CheckResult → ℕ
bad_run [] = 0
bad_run (r ∷ older) = let rest = bad_run older in if is_good r.status then 0 else suc rest

abbrev pub good_run : List CheckResult → ℕ
good_run [] = 0
good_run (r ∷ older) = let rest = good_run older in if is_good r.status then suc rest else 0

alone_counts :
    (t : Thresholds) (history : List CheckResult)
    → ((alone t history).consecutive_bad ≡ bad_run history)
      × ((alone t history).consecutive_good ≡ good_run history)
unfolding alone count_result declare
alone_counts t [] = (refl, refl)
alone_counts t (r ∷ older) = ground (arith, alone_counts t older)

-- The transition that the next result of a check brings.
abbrev pub confirms : Thresholds → CheckResult → List CheckResult → Option Transition
confirms t r older = (declare t (count_result r.status (alone t older))).0

-- A check that was not declared degraded is confirmed degraded by a result exactly when the newest
-- results are as many bad ones in a row as the threshold asks, or more; one that was declared degraded is
-- confirmed recovered exactly when they are as many good ones in a row; and the declaration changes by
-- such a confirmation and by nothing else.
pub confirms_lem :
    (t : Thresholds) (r : CheckResult) (older : List CheckResult)
    → let before = (alone t older).declared_degraded in
      let after = (alone t (r ∷ older)).declared_degraded in
      (confirms t r older ≡ some degraded_confirmed
        ↔ (before ≡ false) × (t.degradation ≤ bad_run (r ∷ older)))
      × (confirms t r older ≡ some recovered_confirmed
          ↔ (before ≡ true) × (t.recovery ≤ good_run (r ∷ older)))
      × (after ≡ elim (confirms t r older) [
        | none ↦ before
        | some degraded_confirmed ↦ true
        | some recovered_confirmed ↦ false
      ])
unfolding alone count_result declare
confirms_lem t r older =
    let counts = alone_counts t older in
    ((λ e. ground arith, λ e. ground arith), (λ e. ground arith, λ e. ground arith), ground arith)
