-- ===== src/Execution/Errors.antt =====
-- src/shrap/trading_floor/execution_agent.py: the exceptions, and how the loops tell them apart.
use shrap_firm.Prelude.{
  ℕ, ◌≡◌, ◌⊎◌, refl, inl, inr, Bool, true, false, ◌&&◌, ◌||◌, Option, some, [], ◌∷◌, map, arith,
  nat_eq, if◌then◌else◌,
}
use shrap_firm.Prelude.Text.{Text, text_Eq, codes, lower}

-- The exceptions that the loops tell apart: a ValueError, an httpx.HTTPStatusError with its status and
-- the `message` of its body when that is a JSON object, and any other.
pub data Failure : Type 0 where
  value_error : Failure
  http_status : ℕ → Option Text → Failure
  other_error : Failure

pub data Attempt {ℓ} (A : Type ℓ) : Type ℓ where
  returned : A → Attempt A
  raised : Failure → Attempt A

abbrev pub and_then {ℓ κ} : {A : Type ℓ} {B : Type κ} → Attempt A → (A → Attempt B) → Attempt B
and_then (returned a) f = f a
and_then (raised e) f = raised e

pub and_then-returned {ℓ κ} :
    {A : Type ℓ} {B : Type κ} (a : Attempt A) (f : A → Attempt B) (b : B)
    → and_then a f ≡ returned b
    → (x : A) × (a ≡ returned x) × (f x ≡ returned b)
and_then-returned (returned x) f b e = (x, refl, e)
and_then-returned (raised r) f b e = ground arith

pub Attempt-cases {ℓ} :
    {A : Type ℓ} (a : Attempt A) → ((x : A) × (a ≡ returned x)) ⊎ ((f : Failure) × (a ≡ raised f))
Attempt-cases (returned x) = inl (x, refl)
Attempt-cases (raised f) = inr (f, refl)

-- `needle in text`
unfoldable pub starts_with : Text → Text → Bool
starts_with [] _ = true
starts_with (_ ∷ _) [] = false
starts_with (c ∷ p) (x ∷ s) = nat_eq c x && starts_with p s

unfoldable pub occurs_in : Text → Text → Bool
unfolding starts_with
occurs_in p [] = starts_with p []
occurs_in p (x ∷ s) = starts_with p (x ∷ s) || occurs_in p s

-- `_` becomes a blank.
abbrev blank_underscore : ℕ → ℕ
blank_underscore c = if nat_eq c 95 then 32 else c

-- `is_duplicate_order_error`
unfoldable pub is_duplicate_order_error : Failure → Bool
unfolding occurs_in
is_duplicate_order_error (http_status status (some message)) =
    nat_eq status 422 && occurs_in (codes "client order id") (map blank_underscore (lower message))
is_duplicate_order_error _ = false

-- `is_unknown_order_error`
unfoldable pub is_unknown_order_error : Failure → Bool
is_unknown_order_error (http_status status _) = nat_eq status 404
is_unknown_order_error _ = false
