-- ===== src/Reconcile/Clean.antt =====
-- When a pass of src/shrap/agents/operations/reconciliation_agent/records.py is clean, and what its counts
-- add up to.
use shrap_firm.Prelude.{
  ℕ, ◌+◌, ◌≡◌, ◌≢◌, ◌↔◌, inl, inr, refl, ap, ◌∙◌, map, if◌then◌else◌, option_eq, Bool, true, false,
  not, Option, none, some, List, [], ◌∷◌, ◌++◌, arith, ◌==◌, length, length-append, option_eq_iff,
  Bool-cases, Option-cases, keep,
}
use shrap_firm.Prelude.Text.{Text, text_Eq, text_eq_iff}
use shrap_firm.Prelude.Dict.{Dict, get, put, get-put, get-nil}
use shrap_firm.Reconcile.Compare.{
  StoredOrderState, BrokerOrderState, Discrepancy, DiscrepancyKind, missing_at_broker,
  missing_in_store, status_mismatch, normalized_status, index_from, stored_by_id, broker_by_id,
  walk_broker, walk_stored, compare_orders,
}

-- The keys of a dict are distinct.
abbrev IsDict {ℓ} : {A : Type ℓ} → Dict Text A → Type ℓ
IsDict [] = Unit
IsDict ((k, v) ∷ d) = (get d k ≡ none) × IsDict d

put-IsDict {ℓ} : {A : Type ℓ} (k : Text) (v : A) (d : Dict Text A) → IsDict d → IsDict (put d k v)
unfolding put
put-IsDict k v [] h = (get-nil k, tt)
put-IsDict k v ((j, w) ∷ d) h = elim (Bool-cases (j == k)) [
  | inl same ↦ rw same h
  | inr other ↦ rw other (
    rw (get-put d k j v) (ground (arith, h.0, text_eq_iff j k, text_eq_iff k j)),
    put-IsDict k v d h.1,
  )
]

index_from-IsDict {ℓ} :
    {A : Type ℓ} (id_of : A → Text) (d : Dict Text A) (as_ : List A)
    → IsDict d
    → IsDict (index_from id_of d as_)
unfolding index_from
index_from-IsDict id_of d [] h = h
index_from-IsDict id_of d (a ∷ as_) h =
    index_from-IsDict id_of (put d (id_of a) a) as_ (put-IsDict (id_of a) a d h)

-- What a view says of an order: nothing, or its normalized status.
abbrev pub stored_view : Dict Text StoredOrderState → Text → Option (Option Text)
stored_view d id = elim (get d id) [ none ↦ none | some s ↦ some (normalized_status s.status) ]

abbrev pub broker_view : Dict Text BrokerOrderState → Text → Option (Option Text)
broker_view d id = elim (get d id) [
  | none ↦ none
  | some b ↦ some (normalized_status (some b.status))
]

walk_broker_agrees :
    (stored : Dict Text StoredOrderState) (orders : Dict Text BrokerOrderState) (id : Text)
    (b : BrokerOrderState)
    → (walk_broker stored orders).1 ≡ []
    → get orders id ≡ some b
    → stored_view stored id ≡ some (normalized_status (some b.status))
unfolding walk_broker get
walk_broker_agrees stored [] id b e f = ground arith
walk_broker_agrees stored ((k, c) ∷ orders) id b e f = elim (Option-cases (get stored k)) [
  | inl missing ↦ ground arith
  | inr (s, found) ↦ ground (
    arith,
    text_eq_iff k id,
    option_eq_iff (normalized_status s.status) (normalized_status (some c.status)),
    walk_broker_agrees stored orders id b,
  )
]

walk_stored_agrees :
    (orders : Dict Text BrokerOrderState) (stored : Dict Text StoredOrderState) (id : Text)
    (s : StoredOrderState)
    → walk_stored orders stored ≡ []
    → get stored id ≡ some s
    → get orders id ≢ none
unfolding walk_stored get
walk_stored_agrees orders [] id s e f = ground arith
walk_stored_agrees orders ((k, c) ∷ stored) id s e f =
    ground (arith, text_eq_iff k id, walk_stored_agrees orders stored id s)

agree-walk_broker :
    (stored : Dict Text StoredOrderState) (orders : Dict Text BrokerOrderState)
    → IsDict orders
    → ((id : Text) (b : BrokerOrderState)
        → get orders id ≡ some b
        → stored_view stored id ≡ some (normalized_status (some b.status)))
    → (walk_broker stored orders).1 ≡ []
unfolding walk_broker get
agree-walk_broker stored [] d h = refl
agree-walk_broker stored ((k, c) ∷ orders) d h =
    let rest =
      agree-walk_broker stored orders d.1
        (λ id b e. h id b (ground (arith, d.0, text_eq_iff k id))) in
    let here = h k c (ground (arith, text_eq_iff k k)) in
    elim (Option-cases (get stored k)) [
      | inl missing ↦ ground arith
      | inr (s, found) ↦ ground (
        arith,
        rest,
        here,
        option_eq_iff (normalized_status s.status) (normalized_status (some c.status)),
      )
    ]

agree-walk_stored :
    (orders : Dict Text BrokerOrderState) (stored : Dict Text StoredOrderState)
    → IsDict stored
    → ((id : Text) (s : StoredOrderState) → get stored id ≡ some s → get orders id ≢ none)
    → walk_stored orders stored ≡ []
unfolding walk_stored get
agree-walk_stored orders [] d h = refl
agree-walk_stored orders ((k, c) ∷ stored) d h =
    let rest =
      agree-walk_stored orders stored d.1
        (λ id s e. h id s (ground (arith, d.0, text_eq_iff k id))) in
    let here = h k c (ground (arith, text_eq_iff k k)) in ground (arith, rest, here)

append-nil_iff {ℓ} : {A : Type ℓ} (xs ys : List A) → xs ++ ys ≡ [] → (xs ≡ []) × (ys ≡ [])
append-nil_iff [] ys e = (refl, e)
append-nil_iff (x ∷ xs) ys e = cc

diverging : Dict Text StoredOrderState → Dict Text BrokerOrderState → List Discrepancy
diverging si bi = (walk_broker si bi).1 ++ walk_stored bi si

views_of_clean :
    (si : Dict Text StoredOrderState) (bi : Dict Text BrokerOrderState)
    → diverging si bi ≡ []
    → (id : Text) → stored_view si id ≡ broker_view bi id
unfolding diverging
views_of_clean si bi e id =
    let (one, two) = append-nil_iff (walk_broker si bi).1 (walk_stored bi si) e in
    elim (Option-cases (get bi id)) [
      | inr (b, found) ↦ ground (arith, walk_broker_agrees si bi id b one found)
      | inl missing ↦ elim (Option-cases (get si id)) [
        | inl absent_too ↦ ground arith
        | inr (s, found) ↦ absurd (walk_stored_agrees bi si id s two found missing)
      ]
    ]

clean_of_views :
    (si : Dict Text StoredOrderState) (bi : Dict Text BrokerOrderState)
    → IsDict si
    → IsDict bi
    → ((id : Text) → stored_view si id ≡ broker_view bi id)
    → diverging si bi ≡ []
unfolding diverging
clean_of_views si bi ds db h =
    rw (agree-walk_broker si bi db (λ id b e. ground (arith, h id)))
      (agree-walk_stored bi si ds (λ id s e f. ground (arith, h id)))

-- A pass is clean exactly when the two indexes hold the same orders with the same normalized status.
pub compare_orders-clean :
    (stored : List StoredOrderState) (orders : List BrokerOrderState)
    → (compare_orders stored orders).discrepancies ≡ []
      ↔ ((id : Text) → stored_view (stored_by_id stored) id ≡ broker_view (broker_by_id orders) id)
unfolding compare_orders stored_by_id broker_by_id diverging
compare_orders-clean stored orders = (
  views_of_clean (stored_by_id stored) (broker_by_id orders),
  clean_of_views (stored_by_id stored) (broker_by_id orders)
      (index_from-IsDict (λ s. s.broker_order_id) [] stored tt)
      (index_from-IsDict (λ b. b.broker_order_id) [] orders tt),
)

abbrev pub is_at_broker : Discrepancy → Bool
is_at_broker x = elim x.kind [ missing_at_broker ↦ true | _ ↦ false ]

abbrev pub count_of : (Discrepancy → Bool) → List Discrepancy → ℕ
count_of p xs = length (keep p xs)

walk_broker_counts :
    (stored : Dict Text StoredOrderState) (orders : Dict Text BrokerOrderState)
    → let (matched, xs) = walk_broker stored orders in
      (matched + length xs ≡ length orders)
      × (count_of is_at_broker xs ≡ 0)
      × (count_of (λ x. not (is_at_broker x)) xs ≡ length xs)
unfolding walk_broker
walk_broker_counts stored [] = omega arith
walk_broker_counts stored ((k, c) ∷ orders) = ground (arith, walk_broker_counts stored orders)

walk_stored_counts :
    (orders : Dict Text BrokerOrderState) (stored : Dict Text StoredOrderState)
    → (count_of is_at_broker (walk_stored orders stored) ≡ length (walk_stored orders stored))
      × (count_of (λ x. not (is_at_broker x)) (walk_stored orders stored) ≡ 0)
unfolding walk_stored
walk_stored_counts orders [] = omega arith
walk_stored_counts orders ((k, c) ∷ stored) = ground (arith, walk_stored_counts orders stored)

keep-append {ℓ} :
    {A : Type ℓ} (p : A → Bool) (xs ys : List A) → keep p (xs ++ ys) ≡ keep p xs ++ keep p ys
keep-append p [] ys = refl
keep-append p (x ∷ xs) ys = ground (arith, keep-append p xs ys)

-- What a report says of an order: its kind, and the two statuses as they were given.
abbrev pub Finding : Type 0
Finding = DiscrepancyKind × Option Text × Option Text

abbrev pub finding : Discrepancy → Finding
finding x = (x.kind, x.stored_status, x.broker_status)

abbrev pub about : Text → List Discrepancy → List Finding
about id xs = map finding (keep (λ x. x.broker_order_id == id) xs)

-- What there is to say of an order, by what each view holds of it.
abbrev pub expected : Option StoredOrderState → Option BrokerOrderState → List Finding
expected none none = []
expected none (some b) = (missing_in_store, none, some b.status) ∷ []
expected (some s) none = (missing_at_broker, s.status, none) ∷ []
expected (some s) (some b) =
    if option_eq (normalized_status s.status) (normalized_status (some b.status))
    then []
    else (status_mismatch, s.status, some b.status) ∷ []

abbrev expected_first : Option StoredOrderState → Option BrokerOrderState → List Finding
expected_first s none = []
expected_first s (some b) = expected s (some b)

abbrev expected_second : Option StoredOrderState → Option BrokerOrderState → List Finding
expected_second none b = []
expected_second (some s) none = expected (some s) none
expected_second (some s) (some b) = []

about-walk_broker :
    (stored : Dict Text StoredOrderState) (orders : Dict Text BrokerOrderState) (id : Text)
    → IsDict orders
    → about id (walk_broker stored orders).1 ≡ expected_first (get stored id) (get orders id)
unfolding walk_broker get
about-walk_broker stored [] id distinct = refl
about-walk_broker stored ((k, c) ∷ orders) id distinct =
    let rest = about-walk_broker stored orders id distinct.1 in
    ground (arith, rest, text_eq_iff k id, distinct.0)

about-walk_stored :
    (orders : Dict Text BrokerOrderState) (stored : Dict Text StoredOrderState) (id : Text)
    → IsDict stored
    → about id (walk_stored orders stored) ≡ expected_second (get stored id) (get orders id)
unfolding walk_stored get
about-walk_stored orders [] id distinct = refl
about-walk_stored orders ((k, c) ∷ stored) id distinct =
    let rest = about-walk_stored orders stored id distinct.1 in
    ground (arith, rest, text_eq_iff k id, distinct.0)

map-append {ℓ κ} :
    {A : Type ℓ} {B : Type κ} (f : A → B) (xs ys : List A) → map f (xs ++ ys) ≡ map f xs ++ map f ys
map-append f [] ys = refl
map-append f (x ∷ xs) ys = ground (arith, map-append f xs ys)

expected_both :
    (s : Option StoredOrderState) (b : Option BrokerOrderState)
    → expected_first s b ++ expected_second s b ≡ expected s b
expected_both none none = refl
expected_both none (some b) = refl
expected_both (some s) none = refl
expected_both (some s) (some b) = ground arith

-- Each order is accounted for once: of an identifier that neither index holds nothing is reported, of
-- one that a single index holds one report says where it is missing, with its status there, and of one
-- that both hold a report says the two statuses when they differ once normalized, and nothing else.
-- The matches and the reports of what is missing in the store or differs add up to the broker's orders.
pub compare_orders_counts :
    (stored : List StoredOrderState) (orders : List BrokerOrderState)
    → let r = compare_orders stored orders in
      ((id : Text)
        → about id r.discrepancies
          ≡ expected (get (stored_by_id stored) id) (get (broker_by_id orders) id))
      × (r.matched + count_of (λ x. not (is_at_broker x)) r.discrepancies ≡ r.broker_orders)
unfolding compare_orders stored_by_id broker_by_id
compare_orders_counts stored orders =
    let si = stored_by_id stored in
    let bi = broker_by_id orders in
    let p : Discrepancy → Bool = λ x. not (is_at_broker x) in
    let xs = (walk_broker si bi).1 in
    let ys = walk_stored bi si in
    (
      λ id.
          let q : Discrepancy → Bool = λ x. x.broker_order_id == id in
          ap (map finding) (keep-append q xs ys)
          ∙ map-append finding (keep q xs) (keep q ys)
          ∙ rw
              (
                about-walk_broker si bi id
                    (index_from-IsDict (λ b. b.broker_order_id) [] orders tt),
                about-walk_stored bi si id
                    (index_from-IsDict (λ s. s.broker_order_id) [] stored tt),
              )
              (expected_both (get si id) (get bi id)),
      omega (
        arith,
        walk_broker_counts si bi,
        walk_stored_counts bi si,
        ap length (keep-append p xs ys),
        length-append (keep p xs) (keep p ys),
      ),
    )
