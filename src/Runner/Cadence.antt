-- ===== src/Runner/Cadence.antt =====
-- src/shrap/research/strategy_runner/cadence.py: how often a strategy may act in a session.
use shrap_firm.Prelude.{
  ℕ, zero, suc, ◌+◌, ◌-◌, ◌*◌, ◌/◌, ◌%◌, ◌≤◌, ◌<◌, ◌≡◌, ◌↔◌, ◌⊎◌, refl, inl, inr, sym, ap, ◌∙◌,
  ◌||◌, Option, none, some, arith, ◌==◌, ltb, leb, if◌then◌else◌,
}
use shrap_firm.Prelude.Text.{Text, text_Eq, codes}
use native.Mathlib.Nat.{div-mul-le_self, lt-div-mul-add, mul-div_cancel}

abbrev pub regular_session_minutes : ℕ
regular_session_minutes = 390

abbrev pub default_interval_minutes : ℕ
default_interval_minutes = 5

-- `Cadence`; the kind is daily or intraday, the only two that `read_cadence` gives.
pub data Cadence : Type 0 where
  daily : Cadence
  intraday : ℕ → Cadence

-- What `interval_minutes` holds in a mapping: nothing, a finite number, truncated (`below_one` for a
-- number whose truncation is under 1), an infinity or NaN, or any other object, a bool included.
pub data Interval : Type 0 where
  absent below_one not_finite not_a_number : Interval
  whole : ℕ → Interval

-- What the spec's `cadence` holds; `other` is any other object, and also a missing key or no mapping.
pub data CadenceField : Type 0 where
  named : Text → CadenceField
  mapping : Text → Interval → CadenceField
  other : CadenceField

-- `_coerce_interval`; the outer `none` is the exception of `int(...)`.
unfoldable pub coerce_interval : Interval → Option (Option ℕ)
coerce_interval absent = some (some default_interval_minutes)
coerce_interval below_one = some none
coerce_interval not_finite = none
coerce_interval not_a_number = some none
coerce_interval (whole n) =
    if ltb n 1 || ltb regular_session_minutes n then some none else some (some n)

-- The end of `read_cadence`.
abbrev cadence_of : Text → Option ℕ → Cadence
cadence_of kind none = daily
cadence_of kind (some n) = if kind == codes "intraday" then intraday n else daily

-- `read_cadence`; `none` is the exception of `int(...)`.
unfoldable pub read_cadence : CadenceField → Option Cadence
unfolding coerce_interval
read_cadence (named kind) = some (cadence_of kind (some default_interval_minutes))
read_cadence (mapping kind interval) = elim (coerce_interval interval) [
  | none ↦ none
  | some n ↦ some (cadence_of kind n)
]
read_cadence other = some daily

-- A slot: the session, or the hour and the minute that its text shows.
pub data Slot : Type 0 where
  session_slot : Slot
  clock : ℕ → ℕ → Slot

-- `slot_for`, at the hour and minute of `now`
unfoldable pub slot_for : Cadence → ℕ → ℕ → Slot
slot_for daily hour minute = session_slot
slot_for (intraday n) hour minute =
    let floored = (hour * 60 + minute) / n * n in clock (floored / 60) (floored % 60)

-- `bars_per_session`
unfoldable pub bars_per_session : Cadence → ℕ
bars_per_session daily = 1
bars_per_session (intraday n) =
    let bars = regular_session_minutes / n in if leb bars 1 then 1 else bars

-- `sessions_for_warmup`; the warmup is an int that is at least 0, and `-(-a // b)` rounds up
unfoldable pub sessions_for_warmup : Cadence → ℕ → ℕ
unfolding bars_per_session
sessions_for_warmup c warmup_bars =
    let needed = if leb warmup_bars 1 then 1 else warmup_bars in
    (needed + (bars_per_session c - 1)) / bars_per_session c

-- A cadence whose interval is in its range.
abbrev pub IsValid : Cadence → Type 0
IsValid daily = Unit
IsValid (intraday n) = (1 ≤ n) × (n ≤ regular_session_minutes)

abbrev pub Reads : Option Cadence → Type 0
Reads none = ⊥
Reads (some c) = IsValid c

-- Whatever the field holds, the cadence that is read is valid; only an interval that is an infinity or
-- NaN makes the reading raise.
pub read_cadence-IsValid :
    (field : CadenceField)
    → Reads (read_cadence field) ⊎ ((kind : Text) × (field ≡ mapping kind not_finite))
unfolding read_cadence coerce_interval
read_cadence-IsValid (named kind) = ground arith
read_cadence-IsValid (mapping kind absent) = ground arith
read_cadence-IsValid (mapping kind below_one) = inl tt
read_cadence-IsValid (mapping kind not_finite) = inr (kind, refl)
read_cadence-IsValid (mapping kind not_a_number) = inl tt
read_cadence-IsValid (mapping kind (whole n)) = ground arith
read_cadence-IsValid other = inl tt

-- The slot as a minute of the day.
abbrev pub minute_of : Slot → ℕ
minute_of session_slot = 0
minute_of (clock hour minute) = hour * 60 + minute

bars_per_session-pos : (c : Cadence) → 1 ≤ bars_per_session c
unfolding bars_per_session
bars_per_session-pos daily = omega arith
bars_per_session-pos (intraday n) = ground arith

at_least_one : (a : ℕ) → 1 ≤ a → (if leb a 1 then 1 else a) ≡ a
at_least_one a pos = ground arith

one_fewer : (q b : ℕ) → ((q - 1) * b + b ≡ q * b) ⊎ ((q - 1) * b ≡ 0)
one_fewer zero b = inr (omega arith)
one_fewer (suc q) b = inl (grind arith)

ceiling :
    (a b : ℕ)
    → 1 ≤ a
    → 1 ≤ b
    → let q = ((if leb a 1 then 1 else a) + (b - 1)) / b in (a ≤ q * b) × ((q - 1) * b < a)
ceiling a b pos pos' =
    let same = at_least_one a pos in
    let sum = a + (b - 1) in
    rw same (
      let low = div-mul-le_self sum b in
      let high = lt-div-mul-add {a = sum} pos' in
      let less = one_fewer (sum / b) b in (omega arith, ground arith))

-- The minute of the day at which the interval of `now` begins.
abbrev start : ℕ → ℕ → ℕ
start n now = now / n * n

slot-start :
    (n hour minute : ℕ)
    → minute_of (slot_for (intraday n) hour minute) ≡ start n (hour * 60 + minute)
unfolding slot_for
slot-start n hour minute = omega arith

slot_for-floor :
    (n hour minute hour' minute' : ℕ)
    → (hour * 60 + minute) / n ≡ (hour' * 60 + minute') / n
    → slot_for (intraday n) hour minute ≡ slot_for (intraday n) hour' minute'
unfolding slot_for
slot_for-floor n hour minute hour' minute' same = ap (λ q. clock (q * n / 60) (q * n % 60)) same

-- On an intraday cadence of at least one minute, two moments share a slot exactly when they lie in the
-- same interval of the day, and the slot is the start of that interval: at most now, and less than an
-- interval ago.
pub slot_for_lem :
    (n hour minute hour' minute' : ℕ)
    → 1 ≤ n
    → let slot = slot_for (intraday n) hour minute in
      let now = hour * 60 + minute in
      let later = hour' * 60 + minute' in
      ((slot ≡ slot_for (intraday n) hour' minute') ↔ (now / n ≡ later / n))
      × (minute_of slot ≤ now)
      × (now < minute_of slot + n)
slot_for_lem n hour minute hour' minute' pos =
    let now = hour * 60 + minute in
    let later = hour' * 60 + minute' in
    let here = slot-start n hour minute in
    let there = slot-start n hour' minute' in
    (
      (
        λ same.
            sym (mul-div_cancel (now / n) pos)
            ∙ ap (λ m. m / n) (sym here ∙ ap minute_of same ∙ there)
            ∙ mul-div_cancel (later / n) pos,
        slot_for-floor n hour minute hour' minute',
      ),
      rw here (div-mul-le_self now n),
      rw here (lt-div-mul-add pos),
    )

-- For a warmup of at least one bar the sessions asked for supply the warmup, and one session
-- fewer would not.
pub sessions_for_warmup_lem :
    (c : Cadence) (warmup_bars : ℕ)
    → 1 ≤ warmup_bars
    → let sessions = sessions_for_warmup c warmup_bars in
      (warmup_bars ≤ sessions * bars_per_session c)
      × ((sessions - 1) * bars_per_session c < warmup_bars)
unfolding sessions_for_warmup
sessions_for_warmup_lem c warmup_bars some_bars =
    let many = bars_per_session-pos c in ceiling warmup_bars (bars_per_session c) some_bars many
