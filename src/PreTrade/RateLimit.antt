-- ===== src/PreTrade/RateLimit.antt =====
-- src/shrap/risk_compliance/rate_limit.py: the order-rate guardrails. Redis is a parameter; a limit of
-- zero stands for zero and for every negative setting. `today` is the label that the clock gives.
pub mod Redis
pub mod Cap
pub mod Isolation
use shrap_firm.Prelude.{
  ℕ, ◌+◌, ◌*◌, ◌≡◌, refl, Bool, true, false, not, Option, none, some, List, [], ◌∷◌, ◌++◌, arith,
  ltb, nat_eq, if◌then◌else◌,
}
use shrap_firm.Prelude.Text.{Text, codes, upper, strip, is_empty}
use shrap_firm.PreTrade.Policy.{Reason, daily_cap, symbol_cooldown}
use Redis.{RateRedis}

pub record RateLimitConfig : Type 0 where
  pub max_orders_per_day : ℕ
  pub symbol_cooldown_seconds : ℕ

-- `_DAY_KEY_TTL_SECONDS`
abbrev pub day_key_ttl_seconds : ℕ
day_key_ttl_seconds = 172_800

-- `UNATTRIBUTED_ACCOUNT`
abbrev pub unattributed : Text
unattributed = codes "unattributed"

-- One call of `acquire`.
pub record Request : Type 0 where
  pub ticker : Text
  pub account_id : Option Text
  pub slot : Option Text

-- `(account_id or "").strip() or UNATTRIBUTED_ACCOUNT`
unfoldable pub account_of : Option Text → Text
account_of none = unattributed
account_of (some a) = if is_empty (strip a) then unattributed else strip a

abbrev pub colon : Text
colon = 58 ∷ []

-- The counter of an account's day.
unfoldable pub day_key : Text → Text → Text
day_key today account = codes "risk:approved-count:" ++ (today ++ (colon ++ account))

unfoldable pub window_key : Text → Text → Text
window_key account symbol = codes "risk:cooldown:" ++ (account ++ (colon ++ symbol))

unfoldable pub slot_key : Text → Text → Text → Text → Text
slot_key today account symbol slot =
    codes "risk:cooldown:"
    ++ (today ++ (colon ++ (account ++ (colon ++ (symbol ++ (colon ++ slot))))))

abbrev pub declared : Option Text → Bool
declared none = false
declared (some s) = not (is_empty s)

abbrev pub slot_text : Option Text → Text
slot_text none = []
slot_text (some s) = s

-- `_cooldown_key`
unfoldable pub cooldown_key : RateLimitConfig → Text → Text → Text → Option Text → Text × ℕ
cooldown_key c today account symbol slot =
    if declared slot
    then (slot_key today account symbol (slot_text slot), day_key_ttl_seconds)
    else (window_key account symbol, c.symbol_cooldown_seconds)

module _ {S : Type 0} ⦃r : RateRedis S⦄ where
  -- The daily cap: true if the order is over it.
  unfoldable pub count_order : RateLimitConfig → Text → S → Bool × S
  count_order c key s =
      if ltb 0 c.max_orders_per_day
      then (let (approved_today, s') = r.incr key s in
          let s'' = if nat_eq approved_today 1 then r.expire key day_key_ttl_seconds s' else s' in
          (ltb c.max_orders_per_day approved_today, s''))
      else (false, s)

  -- The cooldown: true if the key is held already.
  unfoldable pub claim : Text × ℕ → S → Bool × S
  claim (key, ttl) s =
      if ltb 0 ttl
      then (let (claimed, s') = r.set_nx key ttl s in (not claimed, s'))
      else (false, s)

  -- `acquire`
  unfoldable pub acquire : RateLimitConfig → Text → Request → S → Option Reason × S
  acquire c today q s =
      let account = account_of q.account_id in
      let symbol = upper (strip q.ticker) in
      let (over, s') = count_order c (day_key today account) s in
      let (held, s'') = claim (cooldown_key c today account symbol q.slot) s' in
      if over
      then (some daily_cap, s')
      else if held
      then (some symbol_cooldown, s'')
      else (none, s'')
