-- ===== src/PreTrade/Tier3.antt =====
-- src/shrap/risk_compliance/tier3_membership.py: the membership gate and its cache. The query's
-- answer and the clock's reading, in ticks, are arguments.
use shrap_firm.Prelude.{
  ℕ, ◌+◌, ◌≡◌, ◌⊎◌, inl, inr, Bool, true, false, ◌&&◌, Option, none, some, List, [], ◌∷◌, arith,
  ◌==◌, ltb, some_of, if◌then◌else◌, Bool-cases, Option-cases,
}
use shrap_firm.Prelude.Text.{Text, text_Eq, text_eq_iff, codes, upper, lower, strip}
use shrap_firm.Prelude.Dict.{Dict, get, put, get-put, get-nil}
use shrap_firm.PreTrade.Policy.{Reason, ticker_not_in_tier3, tier3_state_unavailable}

-- What `fetchrow` does: it raises, or gives the row's tier, if there is a row.
pub data Fetch : Type 0 where
  raises : Fetch
  answers : Option Text → Fetch

pub record CacheEntry : Type 0 where
  pub is_member : Bool
  pub expires_at : ℕ

abbrev pub Cache : Type 0
Cache = Dict Text CacheEntry

-- `row is not None and str(row["tier"]).strip().lower() == TIER3_ACTIVE_TIER`
unfoldable pub is_active_row : Option Text → Bool
is_active_row none = false
is_active_row (some tier) = lower (strip tier) == codes "active"

abbrev pub verdict : Bool → Option Reason
verdict b = if b then none else some ticker_not_in_tier3

-- The key of the cache and of the query.
unfoldable pub symbol_of : Text → Text
symbol_of ticker = upper (strip ticker)

-- The part of `check` behind the cache.
unfoldable pub consult : ℕ → ℕ → Text → Fetch → Cache → Option Reason × Cache
consult ttl now symbol raises cache = (some tier3_state_unavailable, cache)
consult ttl now symbol (answers row) cache =
    let member = is_active_row row in
    (verdict member, put cache symbol (record { is_member = member; expires_at = now + ttl }))

-- `Tier3MembershipGate.check`
unfoldable pub check : ℕ → ℕ → Text → Fetch → Cache → Option Reason × Cache
unfolding consult symbol_of
check ttl now ticker fetch cache =
    let symbol = symbol_of ticker in
    elim (get cache symbol) [
      | none ↦ consult ttl now symbol fetch cache
      | some entry ↦
          if ltb now entry.expires_at
          then (verdict entry.is_member, cache)
          else consult ttl now symbol fetch cache
    ]

-- One call: its time, its ticker, and what the query would give.
pub record Lookup : Type 0 where
  pub at : ℕ
  pub ticker : Text
  pub fetch : Fetch

-- The cache after a history of calls, newest first.
unfoldable pub cache_after : ℕ → List Lookup → Cache
cache_after ttl [] = []
cache_after ttl (l ∷ older) = (check ttl l.at l.ticker l.fetch (cache_after ttl older)).1

unfoldable pub is_active : Fetch → Bool
unfolding is_active_row
is_active raises = false
is_active (answers row) = is_active_row row

-- Some call of the history got an active row for the symbol, less than `ttl` before `now`.
unfoldable pub vouched : ℕ → ℕ → Text → List Lookup → Bool
vouched ttl now symbol =
    some_of λ l. symbol_of l.ticker == symbol && (is_active l.fetch && ltb now (l.at + ttl))

-- An entry of the cache that says yes lives no longer than a call that saw the active row allows.
IsSound : ℕ → List Lookup → Type 0
IsSound ttl history =
    (symbol : Text) (e : CacheEntry) (now : ℕ)
    → get (cache_after ttl history) symbol ≡ some e
    → e.is_member ≡ true
    → ltb now e.expires_at ≡ true
    → vouched ttl now symbol history ≡ true

cache_after-IsSound : (ttl : ℕ) (history : List Lookup) → IsSound ttl history
unfolding IsSound cache_after check vouched is_active
cache_after-IsSound ttl [] symbol e now found member live = absurd (not_in_empty found)
  where
    not_in_empty : get {K = Text} {V = CacheEntry} [] symbol ≡ some e → ⊥
    not_in_empty h = ground (arith, get-nil {K = Text} {V = CacheEntry} symbol)
cache_after-IsSound ttl (l ∷ older) symbol e now found member live =
    let cache = cache_after ttl older in
    let own = symbol_of l.ticker in
    let entry : CacheEntry = record { is_member = is_active l.fetch; expires_at = l.at + ttl } in
    ground (
      arith,
      cache_after-IsSound ttl older symbol e now,
      text_eq_iff own symbol,
      get-put cache own symbol entry,
    )

-- Fail closed: a ticker passes at `now` only if the query answers now with an active row for its
-- symbol, or an earlier call got such a row for the same symbol less than `ttl` ago. In every other
-- history, failed queries included, the order is vetoed.
pub check_fails_closed :
    (ttl now : ℕ) (ticker : Text) (fetch : Fetch) (history : List Lookup)
    → (check ttl now ticker fetch (cache_after ttl history)).0 ≡ none
    → (is_active fetch ≡ true) ⊎ (vouched ttl now (symbol_of ticker) history ≡ true)
unfolding check is_active IsSound
check_fails_closed ttl now ticker fetch history passed =
    let symbol = symbol_of ticker in
    elim (Option-cases (get (cache_after ttl history) symbol)) [
      | inl missing ↦ inl (ground arith)
      | inr (e, found) ↦ elim (Bool-cases (ltb now e.expires_at)) [
        | inr stale ↦ inl (ground arith)
        | inl live ↦ inr (cache_after-IsSound ttl history symbol e now found (ground arith) live)
      ]
    ]
