-- ===== src/Ops/MarketPhase.antt =====
-- src/shrap/operations/market_phase.py: the schedule of phase transitions, as the scheduler reads it.
-- Times are UTC seconds, and a session date is a day number.
use shrap_firm.Prelude.{
  ℕ, ◌≤◌, ◌<◌, ◌≡◌, ◌⊎◌, refl, inl, inr, Bool, ◌&&◌, Option, none, some, List, [], ◌∷◌, ◌++◌, arith,
  ltb, leb, keep, All, if◌then◌else◌, Bool-cases,
}

pub data Phase : Type 0 where
  pre_open opened after_hours overnight closed_day : Phase

pub record Transition : Type 0 where
  pub at : ℕ
  pub phase : Phase
  pub session_date : ℕ
  pub is_early_close : Bool

abbrev pub Schedule : Type 0
Schedule = List Transition

-- The loop of `PhaseSchedule.current`; `none` is the ValueError.
unfoldable pub current_from : Option Transition → ℕ → Schedule → Option Transition
current_from found now [] = found
current_from found now (t ∷ ts) =
    let rest = current_from (some t) now ts in if leb t.at now then rest else found

unfoldable pub current : ℕ → Schedule → Option Transition
unfolding current_from
current now ts = current_from none now ts

-- `due`
unfoldable pub due : ℕ → ℕ → Schedule → Schedule
due after now ts = keep (λ t. ltb after t.at && leb t.at now) ts

-- `next_after`
unfoldable pub next_after : ℕ → Schedule → Option Transition
next_after at [] = none
next_after at (t ∷ ts) = let rest = next_after at ts in if ltb at t.at then some t else rest

-- In the order of their times, as `build_schedule` sorts them.
abbrev pub IsSorted : Schedule → Type 0
IsSorted [] = Unit
IsSorted (t ∷ ts) = All (λ u. t.at ≤ u.at) ts × IsSorted ts

due-none_late :
    (after now lo : ℕ) (ts : Schedule) → All (λ u. lo ≤ u.at) ts → now < lo → due after now ts ≡ []
unfolding due
due-none_late after now lo [] all h = refl
due-none_late after now lo (t ∷ ts) all h = ground (arith, due-none_late after now lo ts all.1 h)

-- On a sorted schedule two consecutive polls publish together what one poll over both intervals
-- would publish, in the same order: no transition is lost at the seam, none comes twice.
pub due-append :
    (a b c : ℕ) (ts : Schedule)
    → IsSorted ts
    → a ≤ b
    → b ≤ c
    → due a b ts ++ due b c ts ≡ due a c ts
unfolding due
due-append a b c [] sorted h k = refl
due-append a b c (t ∷ ts) sorted h k =
    ground (arith, due-append a b c ts sorted.1 h k, due-none_late a b t.at ts sorted.0)

next_after-late :
    (now lo : ℕ) (ts : Schedule) (t : Transition)
    → All (λ u. lo ≤ u.at) ts
    → next_after now ts ≡ some t
    → lo ≤ t.at
unfolding next_after
next_after-late now lo [] t all e = ground arith
next_after-late now lo (u ∷ ts) t all e = ground (arith, next_after-late now lo ts t all.1)

current_from-late :
    (lo now : ℕ) (f : Transition) (ts : Schedule) (t : Transition)
    → All (λ u. lo ≤ u.at) ts
    → lo ≤ f.at
    → current_from (some f) now ts ≡ some t
    → lo ≤ t.at
unfolding current_from
current_from-late lo now f [] t all h e = ground arith
current_from-late lo now f (u ∷ ts) t all h e =
    ground (arith, current_from-late lo now u ts t all.1 all.0)

current_from_lem :
    (found : Option Transition) (now : ℕ) (ts : Schedule) (t : Transition)
    → IsSorted ts
    → current_from found now ts ≡ some t
    → ((found ≡ some t) ⊎ (t.at ≤ now)) × (due t.at now ts ≡ [])
unfolding current_from due
current_from_lem found now [] t sorted e = ground arith
current_from_lem found now (u ∷ ts) t sorted e = elim (Bool-cases (leb u.at now)) [
  | inl entered ↦
      let later = current_from_lem (some u) now ts t sorted.1 in
      let bound = current_from-late u.at now u ts t sorted.0 (omega arith) in
      ground (arith, later, bound)
  | inr ahead ↦ ground (arith, due-none_late t.at now u.at ts sorted.0)
]

next_after-ahead :
    (now : ℕ) (ts : Schedule) (n : Transition) → next_after now ts ≡ some n → now < n.at
unfolding next_after
next_after-ahead now [] n e = ground arith
next_after-ahead now (u ∷ ts) n e = ground (arith, next_after-ahead now ts n)

next_after_quiet :
    (now moment : ℕ) (ts : Schedule) (n : Transition)
    → IsSorted ts
    → next_after now ts ≡ some n
    → moment < n.at
    → due now moment ts ≡ []
unfolding next_after due
next_after_quiet now moment [] n sorted e h = refl
next_after_quiet now moment (u ∷ ts) n sorted e h =
    ground
      (arith, next_after_quiet now moment ts n sorted.1, due-none_late now moment u.at ts sorted.0)

-- In a sorted schedule the current transition has been entered and none has been entered since, and
-- the next one is strictly ahead with nothing due before it.
pub current-next_after :
    (now : ℕ) (ts : Schedule) (t n : Transition)
    → IsSorted ts
    → current now ts ≡ some t
    → next_after now ts ≡ some n
    → (t.at ≤ now)
      × (due t.at now ts ≡ [])
      × (now < n.at)
      × ((moment : ℕ) → moment < n.at → due now moment ts ≡ [])
unfolding current
current-next_after now ts t n sorted e f =
    let (entered, latest) = current_from_lem none now ts t sorted e in
    (
      ground arith,
      latest,
      next_after-ahead now ts n f,
      λ moment h. next_after_quiet now moment ts n sorted f h,
    )
