-- ===== src/Examples/Stores.antt =====
-- A Redis and a broker for the examples, which keep what is promised of them.
use shrap_firm.Prelude.{
  ℕ, suc, ◌≡◌, ◌⊎◌, refl, Bool, true, false, not, Option, none, some, List, ◌∷◌, arith, ◌==◌,
  contains, if◌then◌else◌,
}
use shrap_firm.Prelude.Text.{Text, text_Eq, text_eq_iff, codes}
use shrap_firm.Prelude.Dict.{Dict, get, put, get-put}
use shrap_firm.PreTrade.RateLimit.Redis.{RateRedis, IsRedis}
use shrap_firm.Execution.Errors.{http_status, Attempt, returned, raised}
use shrap_firm.Execution.Orders.{Order}
use shrap_firm.Execution.Submission.{Services, IsBroker, has}
use shrap_firm.Examples.Numbers.{Hundredths}

-- The counters, and the keys that are held.
pub record Keys : Type 0 where
  pub counters : Dict Text ℕ
  pub holds : List Text

abbrev or_zero : Option ℕ → ℕ
or_zero none = 0
or_zero (some n) = n

unfoldable pub count_of : Text → Keys → ℕ
count_of k s = or_zero (get s.counters k)

unfoldable pub held_in : Text → Keys → Bool
held_in k s = contains s.holds k

unfoldable pub set_key : Text → Keys → Bool × Keys
set_key k s = if contains s.holds k then (false, s) else (true, record s { holds = k ∷ s.holds })

instance abbrev pub Keys_Redis : RateRedis Keys
Keys_Redis = record {
  incr = λ k s. (suc (count_of k s), record s { counters = put s.counters k (suc (count_of k s)) });
  expire = λ k t s. s;
  set_nx = λ k t s. set_key k s;
}

counts :
    (k j : Text) (s : Keys)
    → count_of j (Keys_Redis.incr k s).1 ≡ (if k == j then suc (count_of k s) else count_of j s)
unfolding count_of
counts k j s = ground (arith, get-put s.counters k j (suc (count_of k s)))

uncounted : (k j : Text) (s : Keys) → count_of j (set_key k s).1 ≡ count_of j s
unfolding count_of set_key
uncounted k j s = ground arith

claims : (k : Text) (s : Keys) → (set_key k s).0 ≡ not (held_in k s)
unfolding held_in set_key
claims k s = ground arith

holding :
    (k j : Text) (s : Keys) → held_in j (set_key k s).1 ≡ (if k == j then true else held_in j s)
unfolding held_in set_key
holding k j s = ground (arith, text_eq_iff k j)

held_counter : (k j : Text) (s : Keys) → held_in j (Keys_Redis.incr k s).1 ≡ held_in j s
unfolding held_in
held_counter k j s = refl

pub Keys-IsRedis : IsRedis Keys
Keys-IsRedis = record {
  count = count_of;
  held = held_in;
  incr_value = λ k s. refl;
  count-incr = counts;
  count-expire = λ k j t s. refl;
  count-set_nx = λ k j t s ne. uncounted k j s;
  set_nx_claims = λ k t s. claims k s;
  held-set_nx = λ k j t s. holding k j s;
  held-incr = λ k j s ne. held_counter k j s;
  held-expire = λ k j t s. refl;
}

-- A broker whose world is its book, and which takes fractions of one asset only.
unfoldable pub place :
    Order Hundredths → List (Order Hundredths) → Attempt Text × List (Order Hundredths)
place o book =
    if has book o.client_order_id
    then (raised (http_status 422 (some (codes "client_order_id must be unique"))), book)
    else (returned (codes "b-"), o ∷ book)

abbrev pub desk : Services Hundredths (List (Order Hundredths))
desk = record {
  is_fractionable = λ t w. (t == codes "TSLA", w);
  submit_order = place;
  publish_submitted = λ e o w. (returned tt, w);
  acknowledge = λ e w. (returned tt, w);
}

placed_once :
    (o : Order Hundredths) (w : List (Order Hundredths))
    → has w o.client_order_id ≡ true
    → (place o w).1 ≡ w
unfolding place
placed_once o w h = ground arith

placed :
    (o : Order Hundredths) (w : List (Order Hundredths))
    → ((place o w).1 ≡ w) ⊎ ((place o w).1 ≡ o ∷ w)
unfolding place
placed o w = ground arith

in_book :
    (o : Order Hundredths) (w : List (Order Hundredths))
    → has (place o w).1 o.client_order_id ≡ true
unfolding place
in_book o w = ground (arith, text_eq_iff o.client_order_id o.client_order_id)

pub desk-IsBroker : IsBroker desk (λ w. w)
desk-IsBroker = record {
  fractionable_book = λ t w. refl;
  submit_once = placed_once;
  submit_book = placed;
  submit_returned = λ o w id e. in_book o w;
  submit_duplicate = λ o w f e dup. in_book o w;
  publish_book = λ e o w. refl;
  acknowledge_book = λ e w. refl;
}
