-- ===== src/Reconcile/Tracker.antt =====
-- src/shrap/agents/operations/reconciliation_agent/discrepancy_state.py: a divergence is announced when it
-- appears, and not again while it stays. The set of open divergences is a list without repetitions.
use shrap_firm.Prelude.{
  ℕ, ◌+◌, ◌-◌, ◌≡◌, ◌↔◌, refl, ap, Bool, true, false, ◌&&◌, not, Option, List, [], ◌∷◌, map, arith,
  Comparable, contains, if◌then◌else◌, length, length-keep-le, option_eq, option_eq_iff, keep,
}
use shrap_firm.Prelude.Text.{Text, text_Eq, text_eq, text_eq_iff}
use shrap_firm.Reconcile.Compare.{
  Discrepancy, DiscrepancyKind, missing_in_store, missing_at_broker, status_mismatch,
}

pub record Key : Type 0 where
  pub kind : DiscrepancyKind
  pub broker_order_id : Text
  pub stored_status : Option Text
  pub broker_status : Option Text

unfoldable pub kind_eq : DiscrepancyKind → DiscrepancyKind → Bool
kind_eq missing_in_store missing_in_store = true
kind_eq missing_at_broker missing_at_broker = true
kind_eq status_mismatch status_mismatch = true
kind_eq _ _ = false

kind_eq_iff : (a b : DiscrepancyKind) → (kind_eq a b ≡ true) ↔ (a ≡ b)
unfolding kind_eq
kind_eq_iff missing_in_store b = ground arith
kind_eq_iff _ b = ground arith

unfoldable pub key_eq : Key → Key → Bool
unfolding kind_eq
key_eq a b =
    kind_eq a.kind b.kind
    && (text_eq a.broker_order_id b.broker_order_id
        && (option_eq a.stored_status b.stored_status && option_eq a.broker_status b.broker_status))

pub key_eq_iff : (a b : Key) → (key_eq a b ≡ true) ↔ (a ≡ b)
unfolding key_eq
key_eq_iff a b = ground (
  arith,
  kind_eq_iff a.kind b.kind,
  text_eq_iff a.broker_order_id b.broker_order_id,
  option_eq_iff a.stored_status b.stored_status,
  option_eq_iff a.broker_status b.broker_status,
)

instance abbrev pub key_Eq : Comparable Key
key_Eq = record { equal = key_eq; equal_iff = key_eq_iff }

-- `discrepancy_key`
abbrev pub discrepancy_key : Discrepancy → Key
discrepancy_key x = record {
  kind = x.kind;
  broker_order_id = x.broker_order_id;
  stored_status = x.stored_status;
  broker_status = x.broker_status;
}

pub record PassDelta : Type 0 where
  pub appeared : List Discrepancy
  pub suppressed : ℕ
  pub resolved : ℕ

-- A set comprehension.
unfoldable pub to_set : List Key → List Key
to_set [] = []
to_set (k ∷ ks) = let rest = to_set ks in if contains rest k then rest else k ∷ rest

-- `observe`
unfoldable pub observe : List Key → List Discrepancy → PassDelta × List Key
unfolding to_set
observe open_keys current =
    let current_keys = to_set (map discrepancy_key current) in
    let appeared = keep (λ x. not (contains open_keys (discrepancy_key x))) current in
    (
      record {
        appeared = appeared;
        suppressed = length current - length appeared;
        resolved = length (keep (λ k. not (contains current_keys k)) open_keys);
      },
      current_keys,
    )

-- The tracker after a history of passes, newest first; a fresh process has seen none.
unfoldable pub open_after : List (List Discrepancy) → List Key
open_after [] = []
open_after (pass ∷ older) = (observe (open_after older) pass).1

contains-to_set : (k : Key) (ks : List Key) → contains (to_set ks) k ≡ contains ks k
unfolding to_set
contains-to_set k [] = refl
contains-to_set k (j ∷ ks) =
    ground (arith, key_eq_iff j k, contains-to_set k ks, contains-to_set j ks)

-- The divergences of the pass before, if there was one.
abbrev pub previous : List (List Discrepancy) → List Key
previous [] = []
previous (pass ∷ older) = map discrepancy_key pass

open_after-previous :
    (history : List (List Discrepancy)) (k : Key)
    → contains (open_after history) k ≡ contains (previous history) k
unfolding open_after observe
open_after-previous [] k = refl
open_after-previous (pass ∷ older) k = contains-to_set k (map discrepancy_key pass)

keep-cong {ℓ} :
    {A : Type ℓ} (p q : A → Bool) (xs : List A) → ((a : A) → p a ≡ q a) → keep p xs ≡ keep q xs
keep-cong p q [] h = refl
keep-cong p q (x ∷ xs) h = ground (arith, h x, keep-cong p q xs h)

-- After any history a pass announces exactly those of its divergences that the pass before did not
-- have, in their order, whatever was announced earlier still; the rest are counted as suppressed, so
-- the two counts add up to what the pass found.
pub observe_edges :
    (history : List (List Discrepancy)) (pass : List Discrepancy)
    → let delta = (observe (open_after history) pass).0 in
      (delta.appeared ≡ keep (λ x. not (contains (previous history) (discrepancy_key x))) pass)
      × (length delta.appeared + delta.suppressed ≡ length pass)
unfolding observe
observe_edges history pass =
    let open_keys = open_after history in
    (
      keep-cong (λ x. not (contains open_keys (discrepancy_key x)))
          (λ x. not (contains (previous history) (discrepancy_key x))) pass
          (λ x. ap not (open_after-previous history (discrepancy_key x))),
      omega (arith, length-keep-le (λ x. not (contains open_keys (discrepancy_key x))) pass),
    )
