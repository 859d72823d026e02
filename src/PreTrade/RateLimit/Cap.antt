-- ===== src/PreTrade/RateLimit/Cap.antt =====
-- The daily cap of src/shrap/risk_compliance/rate_limit.py, over any stream of requests.
use shrap_firm.Prelude.{
  ℕ, suc, ◌-◌, ◌≤◌, ◌<◌, ◌≡◌, ◌≢◌, Option, none, some, List, [], ◌∷◌, ◌++◌, arith, ◌==◌, ltb,
  is_none, if◌then◌else◌, ap,
}
use shrap_firm.Prelude.Text.{Text, text_Eq, text_eq_iff, upper, strip}
use shrap_firm.PreTrade.RateLimit.{
  RateLimitConfig, Request, account_of, day_key, window_key, slot_key, cooldown_key, count_order,
  claim, acquire, day_key_ttl_seconds,
}
use shrap_firm.PreTrade.RateLimit.Redis.{RateRedis, IsRedis}

-- The code point where the two prefixes part.
abbrev sixth : Text → ℕ
sixth (a ∷ b ∷ c ∷ d ∷ e ∷ f ∷ s) = f
sixth s = 0

-- A counter is never a cooldown key: the prefixes differ.
pub day_key-ne-cooldown :
    (c : RateLimitConfig) (today account other symbol : Text) (slot : Option Text)
    → (cooldown_key c today other symbol slot).0 ≢ day_key today account
unfolding cooldown_key day_key window_key slot_key
day_key-ne-cooldown c today account other symbol none e = absurd (omega (arith, ap sixth e))
day_key-ne-cooldown c today account other symbol (some []) e = absurd (omega (arith, ap sixth e))
day_key-ne-cooldown c today account other symbol (some (x ∷ s)) e =
    absurd (omega (arith, ap sixth e))

pub append_cancel : (s t u : Text) → s ++ t ≡ s ++ u → t ≡ u
append_cancel [] t u e = e
append_cancel (c ∷ s) t u e = append_cancel s t u (cc)

-- Each account has a counter of its own.
pub day_key-injective : (today a b : Text) → day_key today a ≡ day_key today b → a ≡ b
unfolding day_key
day_key-injective today a b e =
    let rest : today ++ (58 ∷ a) ≡ today ++ (58 ∷ b) = cc in
    let tail = append_cancel today (58 ∷ a) (58 ∷ b) rest in cc

module _ {S : Type 0} ⦃r : RateRedis S⦄ where
  -- How many of the requests are allowed for one account, from a state of Redis on.
  pub grants : RateLimitConfig → Text → Text → List Request → S → ℕ
  grants c today account [] s = 0
  grants c today account (q ∷ qs) s =
      let (reason, s') = acquire c today q s in
      let rest = grants c today account qs s' in
      if account_of q.account_id == account
      then (if is_none reason then suc rest else rest)
      else rest

  module _ (laws : IsRedis S) where
    open laws use {count, incr_value, count-incr, count-expire, count-set_nx}

    count_order_counts :
        (c : RateLimitConfig) (key other : Text) (s : S)
        → 0 < c.max_orders_per_day
        → (count other (count_order c key s).1
            ≡ (if key == other then suc (count key s) else count other s))
          × ((count_order c key s).0 ≡ ltb c.max_orders_per_day (suc (count key s)))
    unfolding count_order
    count_order_counts c key other s on = ground (
      arith,
      incr_value key s,
      count-incr key other s,
      count-expire key other day_key_ttl_seconds (r.incr key s).1,
    )

    pub count-claim :
        (key other : Text) (ttl : ℕ) (s : S)
        → key ≢ other
        → count other (claim (key, ttl) s).1 ≡ count other s
    unfolding claim
    count-claim key other ttl s ne = ground (arith, count-set_nx key other ttl s ne)

    -- A request counts once for its own account and for no other, and passes only below the cap.
    acquire_counts :
        (c : RateLimitConfig) (today account : Text) (q : Request) (s : S)
        → 0 < c.max_orders_per_day
        → let key = day_key today account in
          let (reason, s') = acquire c today q s in
          (count key s'
            ≡ (if account_of q.account_id == account then suc (count key s) else count key s))
          × (account_of q.account_id ≡ account → reason ≡ none → count key s < c.max_orders_per_day)
    unfolding acquire
    acquire_counts c today account q s on =
        let own = account_of q.account_id in
        let mine = day_key today own in
        let key = day_key today account in
        let place = cooldown_key c today own (upper (strip q.ticker)) q.slot in
        let after_count = (count_order c mine s).1 in
        let ne = day_key-ne-cooldown c today account own (upper (strip q.ticker)) q.slot in
        let kept = count-claim place.0 key place.1 after_count ne in
        let counted = count_order_counts c mine key s on in
        let same : own ≡ account → mine ≡ key = λ e. ap (day_key today) e in
        (
          ground (
            arith,
            kept,
            counted,
            text_eq_iff mine key,
            text_eq_iff own account,
            day_key-injective today own account,
            same,
          ),
          λ e passed. ground (arith, counted, same e, passed),
        )

    -- With the cap switched on, however many requests come in a day and from whatever accounts, the
    -- limiter allows one account no more than the cap less what its counter already says.
    pub grants-le :
        (c : RateLimitConfig) (today account : Text) (qs : List Request) (s : S)
        → 0 < c.max_orders_per_day
        → grants c today account qs s ≤ c.max_orders_per_day - count (day_key today account) s
    unfolding grants
    grants-le c today account [] s on = omega arith
    grants-le c today account (q ∷ qs) s on =
        let s' = (acquire c today q s).1 in
        ground (
          arith,
          acquire_counts c today account q s on,
          text_eq_iff (account_of q.account_id) account,
          grants-le c today account qs s' on,
        )
