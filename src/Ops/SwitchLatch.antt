-- ===== src/Ops/SwitchLatch.antt =====
-- src/shrap/operations/switch_latch.py: is a kill switch still set in a later session? Times are UTC
-- seconds since the epoch, so a day begins at each multiple of 86400.
use shrap_firm.Prelude.{
  ℕ, ◌+◌, ◌-◌, ◌*◌, ◌/◌, ◌≤◌, ◌<◌, ◌≡◌, Bool, true, not, Option, none, some, List, map, arith, ◌==◌,
  ltb, if◌then◌else◌,
}
use shrap_firm.Prelude.Text.{Text, text_Eq, codes}

pub data Status : Type 0 where
  fine degraded down : Status

pub record SwitchRow : Type 0 where
  pub name : Text
  pub active : Bool
  pub at : ℕ

pub record LatchVerdict : Type 0 where
  pub switch : Text
  pub status : Status
  pub latched_seconds : Option ℕ

abbrev pub switch_daily_loss : Text
switch_daily_loss = codes "daily_loss"

abbrev pub switch_manual : Text
switch_manual = codes "manual"

abbrev pub day : ℕ
day = 86_400

-- `DEFAULT_GRACE`
abbrev pub default_grace : ℕ
default_grace = 3600

-- `first_boundary_after`
unfoldable pub first_boundary_after : ℕ → ℕ
first_boundary_after at = (at / day + 1) * day

-- The verdict on a switch that outlived its session. The branches for `manual`, a strategy's switch and
-- an unknown one differ in their message alone.
unfoldable pub latched_status : Text → Status
latched_status name = if name == switch_daily_loss then down else degraded

-- `classify`
unfoldable pub classify : SwitchRow → ℕ → ℕ → LatchVerdict
unfolding latched_status first_boundary_after
classify row now grace =
    let boundary = first_boundary_after row.at in
    if not row.active
    then record { switch = row.name; status = fine; latched_seconds = none }
    else if ltb now (boundary + grace)
    then record { switch = row.name; status = fine; latched_seconds = none }
    else record {
      switch = row.name;
      status = latched_status row.name;
      latched_seconds = some (now - boundary);
    }

-- `sweep`
unfoldable pub sweep : List SwitchRow → ℕ → ℕ → List LatchVerdict
unfolding classify
sweep rows now grace = map (λ row. classify row now grace) rows

-- A switch is reported fine on the day it was set, whatever the grace period, and an active one that is
-- a day and the grace period old is never reported fine: `daily_loss` is then down and any other switch
-- degraded.
pub classify_lem :
    (row : SwitchRow) (now grace : ℕ)
    → (now < first_boundary_after row.at → (classify row now grace).status ≡ fine)
      × (row.active ≡ true
          → row.at + day + grace ≤ now
          → (classify row now grace).status
            ≡ (if row.name == switch_daily_loss then down else degraded))
unfolding classify
classify_lem row now grace = (λ h. ground arith, λ on h. ground arith)
