-- ===== src/PreTrade/RateLimit/Redis.antt =====
-- The four commands that src/shrap/risk_compliance/rate_limit.py sends to Redis, and what their
-- documentation says of them as long as no key of the day expires: the day's keys live for two days.
use shrap_firm.Prelude.{ℕ, suc, ◌≡◌, ◌≢◌, Bool, true, not, ◌==◌, if◌then◌else◌}
use shrap_firm.Prelude.Text.{Text, text_Eq}

pub record RateRedis (S : Type 0) : Type 0 where
  pub incr : Text → S → ℕ × S
  pub expire : Text → ℕ → S → S
  pub set_nx : Text → ℕ → S → Bool × S

-- `count` is the number under a key, zero if there is none; `held` says whether a key is there.
pub record IsRedis (S : Type 0) ⦃r : RateRedis S⦄ : Type 0 where
  pub count : Text → S → ℕ
  pub held : Text → S → Bool
  pub incr_value : (k : Text) (s : S) → (r.incr k s).0 ≡ suc (count k s)
  pub count-incr :
      (k j : Text) (s : S)
      → count j (r.incr k s).1 ≡ (if k == j then suc (count k s) else count j s)
  pub count-expire : (k j : Text) (t : ℕ) (s : S) → count j (r.expire k t s) ≡ count j s
  pub count-set_nx : (k j : Text) (t : ℕ) (s : S) → k ≢ j → count j (r.set_nx k t s).1 ≡ count j s
  pub set_nx_claims : (k : Text) (t : ℕ) (s : S) → (r.set_nx k t s).0 ≡ not (held k s)
  pub held-set_nx :
      (k j : Text) (t : ℕ) (s : S) → held j (r.set_nx k t s).1 ≡ (if k == j then true else held j s)
  pub held-incr : (k j : Text) (s : S) → k ≢ j → held j (r.incr k s).1 ≡ held j s
  pub held-expire : (k j : Text) (t : ℕ) (s : S) → held j (r.expire k t s) ≡ held j s
