-- ===== src/PreTrade/RateLimit/Isolation.antt =====
-- One account's traffic and another's in src/shrap/risk_compliance/rate_limit.py.
use shrap_firm.Prelude.{
  ℕ, suc, ◌≡◌, ◌≢◌, refl, sym, ◌∙◌, Bool, true, not, ◌&&◌, Option, [], ◌∷◌, ◌++◌, arith, ltb,
  nat_eq, Bool-cases, ◌⊎◌, inl, inr,
}
use shrap_firm.Prelude.Text.{Text, codes, text_Eq, text_eq_iff, upper, strip}
use shrap_firm.PreTrade.RateLimit.{
  RateLimitConfig, Request, account_of, day_key, window_key, slot_key, cooldown_key, count_order,
  claim, acquire, day_key_ttl_seconds, declared, slot_text,
}
use shrap_firm.PreTrade.RateLimit.Cap.{day_key-ne-cooldown, day_key-injective, append_cancel}
use shrap_firm.PreTrade.RateLimit.Redis.{RateRedis, IsRedis}

-- A text with no colon in it.
abbrev pub is_plain : Text → Bool
is_plain [] = true
is_plain (c ∷ s) = not (nat_eq c 58) && is_plain s

-- Up to the first colon a text is determined.
colon-cancel :
    (a b x y : Text)
    → is_plain a ≡ true
    → is_plain b ≡ true
    → a ++ (58 ∷ x) ≡ b ++ (58 ∷ y)
    → (a ≡ b) × (x ≡ y)
colon-cancel [] [] x y p q e = (refl, cc)
colon-cancel [] (d ∷ b) x y p q e = ground arith
colon-cancel (c ∷ a) [] x y p q e = ground arith
colon-cancel (c ∷ a) (d ∷ b) x y p q e =
    let rest : a ++ (58 ∷ x) ≡ b ++ (58 ∷ y) = cc in
    let (same, tail) = colon-cancel a b x y (ground arith) (ground arith) rest in
    let first : c ≡ d = cc in (cc, tail)

-- Behind their common prefix, two cooldown keys agree in the account, or one of the accounts is
-- spelled like the day.
same_window : (a b x y : Text) → window_key a x ≡ window_key b y → a ++ (58 ∷ x) ≡ b ++ (58 ∷ y)
unfolding window_key
same_window a b x y e = append_cancel (codes "risk:cooldown:") _ _ e

slot_as_window :
    (today a x s : Text) → slot_key today a x s ≡ window_key today (a ++ (58 ∷ (x ++ (58 ∷ s))))
unfolding slot_key window_key
slot_as_window today a x s = refl

key_cases :
    (c : RateLimitConfig) (today a symbol : Text) (slot : Option Text)
    → let key = (cooldown_key c today a symbol slot).0 in
      (key ≡ window_key a symbol)
      ⊎ (key ≡ window_key today (a ++ (58 ∷ (symbol ++ (58 ∷ slot_text slot)))))
unfolding cooldown_key
key_cases c today a symbol slot = elim (Bool-cases (declared slot)) [
  | inl given ↦ inr (ground (arith, slot_as_window today a symbol (slot_text slot)))
  | inr missing ↦ inl (ground arith)
]

-- What the account identifiers and the day's label have to be for the keys to be read back.
pub record IsReadable (today a b : Text) : Type 0 where
  pub plain_day : is_plain today ≡ true
  pub plain_a : is_plain a ≡ true
  pub plain_b : is_plain b ≡ true
  pub distinct : a ≢ b
  pub not_day_a : a ≢ today
  pub not_day_b : b ≢ today

-- Accounts that differ have cooldown keys that differ.
cooldown_key-ne :
    (c : RateLimitConfig) (today a b sa sb : Text) (slot_a slot_b : Option Text)
    → IsReadable today a b
    → (cooldown_key c today a sa slot_a).0 ≢ (cooldown_key c today b sb slot_b).0
cooldown_key-ne c today a b sa sb slot_a slot_b h e = elim (key_cases c today a sa slot_a) [
  | inl wa ↦ elim (key_cases c today b sb slot_b) [
    | inl wb ↦
        h.distinct
          (colon-cancel a b _ _ h.plain_a h.plain_b (same_window a b _ _ (sym wa ∙ e ∙ wb))).0
    | inr wb ↦
        h.not_day_a
          (colon-cancel a today _ _ h.plain_a h.plain_day
            (same_window a today _ _ (sym wa ∙ e ∙ wb))).0
  ]
  | inr wa ↦ elim (key_cases c today b sb slot_b) [
    | inl wb ↦ h.not_day_b (
        sym
          (colon-cancel today b _ _ h.plain_day h.plain_b
            (same_window today b _ _ (sym wa ∙ e ∙ wb))).0)
    | inr wb ↦
        h.distinct
          (colon-cancel a b _ _ h.plain_a h.plain_b
            (colon-cancel today today _ _ h.plain_day h.plain_day
              (same_window today today _ _ (sym wa ∙ e ∙ wb))).1).0
  ]
]

module _ {S : Type 0} ⦃r : RateRedis S⦄ (laws : IsRedis S) where
  open laws use {
    count, held, incr_value, count-incr, count-expire, count-set_nx, set_nx_claims, held-set_nx,
    held-incr, held-expire,
  }

  count_order_answer :
      (c : RateLimitConfig) (key : Text) (s : S)
      → (count_order c key s).0
        ≡ (ltb 0 c.max_orders_per_day && ltb c.max_orders_per_day (suc (count key s)))
  unfolding count_order
  count_order_answer c key s = ground (arith, incr_value key s)

  count_order_leaves :
      (c : RateLimitConfig) (key other : Text) (s : S)
      → key ≢ other
      → (count other (count_order c key s).1 ≡ count other s)
        × (held other (count_order c key s).1 ≡ held other s)
  unfolding count_order
  count_order_leaves c key other s ne =
      let bumped = (r.incr key s).1 in
      ground (
        arith,
        text_eq_iff key other,
        count-incr key other s,
        held-incr key other s ne,
        count-expire key other day_key_ttl_seconds bumped,
        held-expire key other day_key_ttl_seconds bumped,
      )

  claim_answer : (key : Text) (ttl : ℕ) (s : S) → (claim (key, ttl) s).0 ≡ (ltb 0 ttl && held key s)
  unfolding claim
  claim_answer key ttl s = ground (arith, set_nx_claims key ttl s)

  claim_leaves :
      (key other : Text) (ttl : ℕ) (s : S)
      → key ≢ other
      → (count other (claim (key, ttl) s).1 ≡ count other s)
        × (held other (claim (key, ttl) s).1 ≡ held other s)
  unfolding claim
  claim_leaves key other ttl s ne =
      ground
        (arith, text_eq_iff key other, count-set_nx key other ttl s ne, held-set_nx key other ttl s)

  -- The answer depends on the account's counter and on its cooldown key, and on nothing else.
  acquire_reads :
      (c : RateLimitConfig) (today : Text) (q : Request) (s t : S)
      → let own = account_of q.account_id in
        count (day_key today own) s ≡ count (day_key today own) t
        → held (cooldown_key c today own (upper (strip q.ticker)) q.slot).0 s
          ≡ held (cooldown_key c today own (upper (strip q.ticker)) q.slot).0 t
        → (acquire c today q s).0 ≡ (acquire c today q t).0
  unfolding acquire
  acquire_reads c today q s t same_count same_held =
      let own = account_of q.account_id in
      let mine = day_key today own in
      let place = cooldown_key c today own (upper (strip q.ticker)) q.slot in
      let ne : mine ≢ place.0 =
        λ e. day_key-ne-cooldown c today own own (upper (strip q.ticker)) q.slot (sym e) in
      let s' = (count_order c mine s).1 in
      let t' = (count_order c mine t).1 in
      ground (
        arith,
        count_order_answer c mine s,
        count_order_answer c mine t,
        (count_order_leaves c mine place.0 s ne).1,
        (count_order_leaves c mine place.0 t ne).1,
        claim_answer place.0 place.1 s',
        claim_answer place.0 place.1 t',
      )

  -- An account's counter and cooldown keys are not touched by another account's request.
  acquire_leaves :
      (c : RateLimitConfig) (today b symbol : Text) (q : Request) (slot : Option Text) (s : S)
      → IsReadable today (account_of q.account_id) b
      → let s' = (acquire c today q s).1 in
        let key = (cooldown_key c today b symbol slot).0 in
        (count (day_key today b) s' ≡ count (day_key today b) s) × (held key s' ≡ held key s)
  unfolding acquire
  acquire_leaves c today b symbol q slot s h =
      let own = account_of q.account_id in
      let mine = day_key today own in
      let counter = day_key today b in
      let own_symbol = upper (strip q.ticker) in
      let place = cooldown_key c today own own_symbol q.slot in
      let key = (cooldown_key c today b symbol slot).0 in
      let counters_differ : mine ≢ counter = λ e. h.distinct (day_key-injective today own b e) in
      let mine_ne_key : mine ≢ key = λ e. day_key-ne-cooldown c today own b symbol slot (sym e) in
      let place_ne_counter = day_key-ne-cooldown c today b own own_symbol q.slot in
      let keys_differ = cooldown_key-ne c today own b own_symbol symbol q.slot slot h in
      let s' = (count_order c mine s).1 in
      ground (
        arith,
        count_order_leaves c mine counter s counters_differ,
        count_order_leaves c mine key s mine_ne_key,
        claim_leaves place.0 counter place.1 s' place_ne_counter,
        claim_leaves place.0 key place.1 s' keys_differ,
      )

  -- One account's traffic never gates another's: what `acquire` answers is the same before and
  -- after a request of a different account, if neither account nor the day's label holds a colon
  -- and neither account is spelled like the label.
  pub acquire_isolated :
      (c : RateLimitConfig) (today : Text) (q other : Request) (s : S)
      → IsReadable today (account_of other.account_id) (account_of q.account_id)
      → (acquire c today q (acquire c today other s).1).0 ≡ (acquire c today q s).0
  acquire_isolated c today q other s h =
      let (same_count, same_held) =
        acquire_leaves c today (account_of q.account_id) (upper (strip q.ticker)) other q.slot s
          h in
      acquire_reads c today q (acquire c today other s).1 s same_count same_held
