-- ===== src/Execution/Pending.antt =====
-- The pending orders of src/shrap/trading_floor/execution_agent.py: what is watched after a submission,
-- and the pass that checks it again. Times are ticks of the event loop's clock; what the broker says of
-- each order in a pass, and whether the publication goes through, are arguments. The payload of a
-- watched order's event is one that was built before, so its construction does not fail.
use shrap_firm.Prelude.{
  ℕ, ◌+◌, ◌≡◌, refl, inl, inr, Bool, true, false, not, Option, none, some, List, [], ◌∷◌, ◌++◌,
  arith, ◌==◌, contains, ltb, if◌then◌else◌,
}
use shrap_firm.Prelude.Text.{Text, text_Eq, text_eq_iff, codes, lower, is_empty}
use shrap_firm.Prelude.Dict.{Dict, get, put, remove, get-put, get-remove}
use shrap_firm.Execution.Errors.{
  Failure, Attempt, returned, raised, Attempt-cases, is_unknown_order_error,
}

abbrev pub terminal_order_statuses : List Text
terminal_order_statuses =
    codes "filled" ∷ codes "canceled" ∷ codes "cancelled" ∷ codes "expired" ∷ codes "rejected" ∷ []

-- `is_terminal_order_status`
unfoldable pub is_terminal_order_status : Text → Bool
is_terminal_order_status status = contains terminal_order_statuses (lower status)

-- `_order_status_stream`
pub data StatusStream : Type 0 where
  filled status_updated : StatusStream

unfoldable pub order_status_stream : Text → StatusStream
order_status_stream status = if lower status == codes "filled" then filled else status_updated

pub record PendingOrder : Type 0 where
  pub last_status : Text
  pub next_check_at : ℕ

abbrev pub Pending : Type 0
Pending = Dict Text PendingOrder

-- `_track_if_pending`
unfoldable pub track_if_pending : Text → Text → ℕ → ℕ → Pending → Pending
track_if_pending id status now interval pending =
    if is_empty id
    then pending
    else if is_terminal_order_status status
    then remove pending id
    else put pending id (record { last_status = status; next_check_at = now + interval })

-- A status event that the pass published.
pub record Published : Type 0 where
  pub order_id : Text
  pub status : Text
  pub stream : StatusStream

-- `completed` is false when a publication raised, which ends the pass there.
pub record Repoll : Type 0 where
  pub pending : Pending
  pub published : List Published
  pub checked : ℕ
  pub completed : Bool

-- `dict` keys stand once.
abbrev pub IsDict : List (Text × PendingOrder) → Type 0
IsDict [] = Unit
IsDict ((id, entry) ∷ es) = (get es id ≡ none) × IsDict es

module _ (answer : Text → Attempt Text) (goes_out : Text → Bool) (now interval : ℕ) where
  -- `status.lower() != entry.last_status.lower()`
  unfoldable pub is_changed : Text → PendingOrder → Bool
  is_changed status entry = not (lower status == lower entry.last_status)

  -- The entry after the broker's answer.
  unfoldable pub settle : Text → Text → Pending → Pending
  settle id status pending =
      if is_terminal_order_status status
      then remove pending id
      else put pending id (record { last_status = status; next_check_at = now + interval })

  -- The `except` block.
  unfoldable pub retry_later : Text → PendingOrder → Failure → Pending → Pending
  retry_later id entry f pending =
      if is_unknown_order_error f
      then remove pending id
      else put pending id (record entry { next_check_at = now + interval })

  abbrev event_of : Text → Text → Published
  event_of id status = record {
    order_id = id;
    status = status;
    stream = order_status_stream status;
  }

  abbrev passed : Pending → List Published → ℕ → Repoll
  passed pending published checked = record {
    pending = pending;
    published = published;
    checked = checked;
    completed = true;
  }

  -- The body of the loop, for one entry.
  unfoldable pub check_one : Text × PendingOrder → Pending → Repoll
  unfolding settle retry_later
  check_one (id, entry) pending =
      if ltb now entry.next_check_at then passed pending [] 0 else elim (answer id) [
        | raised f ↦ passed (retry_later id entry f pending) [] 0
        | returned status ↦
            if not (is_changed status entry)
            then passed (settle id status pending) [] 1
            else if goes_out id
            then passed (settle id status pending) (event_of id status ∷ []) 1
            else record { pending = pending; published = []; checked = 1; completed = false }
      ]

  -- The loop of `repoll_pending_once` over the entries that were there when it began.
  unfoldable pub repoll : List (Text × PendingOrder) → Pending → Repoll
  repoll [] pending = passed pending [] 0
  repoll (e ∷ es) pending =
      let here = check_one e pending in
      let rest = repoll es here.pending in
      if here.completed
      then record rest {
        published = here.published ++ rest.published;
        checked = here.checked + rest.checked;
      }
      else here

  -- `repoll_pending_once`
  unfoldable pub repoll_pending_once : Pending → Repoll
  unfolding repoll
  repoll_pending_once pending = repoll pending pending

  -- What a pass makes of one entry.
  unfoldable pub next_entry : Text → PendingOrder → Option PendingOrder
  next_entry id entry = if ltb now entry.next_check_at then some entry else elim (answer id) [
    | raised f ↦
        if is_unknown_order_error f
        then none
        else some (record entry { next_check_at = now + interval })
    | returned status ↦
        if is_terminal_order_status status
        then none
        else some (record { last_status = status; next_check_at = now + interval })
  ]

  -- The event for one entry: the broker's status, when the entry is due and the status is another.
  unfoldable pub news_of : Text × PendingOrder → List Published
  news_of (id, entry) = if ltb now entry.next_check_at then [] else elim (answer id) [
    | raised f ↦ []
    | returned status ↦ if is_changed status entry then event_of id status ∷ [] else []
  ]

  abbrev pub news : List (Text × PendingOrder) → List Published
  news [] = []
  news (e ∷ es) = news_of e ++ news es

  check_one-news :
      (e : Text × PendingOrder) (pending : Pending)
      → (check_one e pending).completed ≡ true
      → (check_one e pending).published ≡ news_of e
  unfolding check_one news_of
  check_one-news (id, entry) pending done = ground arith

  repoll-news :
      (es : List (Text × PendingOrder)) (pending : Pending)
      → (repoll es pending).completed ≡ true
      → (repoll es pending).published ≡ news es
  unfolding repoll
  repoll-news [] pending done = refl
  repoll-news (e ∷ es) pending done =
      ground (arith, check_one-news e pending, repoll-news es (check_one e pending).pending)

  -- What a pass makes of an entry that the dict still has.
  abbrev revised : Text → PendingOrder → Option PendingOrder → Option PendingOrder
  revised id entry kept = if ltb now entry.next_check_at then kept else next_entry id entry

  check_one-get :
      (id : Text) (entry : PendingOrder) (pending : Pending) (j : Text)
      → (check_one (id, entry) pending).completed ≡ true
      → get (check_one (id, entry) pending).pending j
        ≡ (if id == j then revised id entry (get pending j) else get pending j)
  unfolding check_one next_entry
  check_one-get id entry pending j done = elim (Attempt-cases (answer id)) [
    | inl (status, said) ↦
        let gone = get-remove pending id j in
        let kept =
          get-put pending id j (record { last_status = status; next_check_at = now + interval }) in
        ground arith
    | inr (f, failed) ↦
        let gone = get-remove pending id j in
        let kept = get-put pending id j (record entry { next_check_at = now + interval }) in
        ground arith
  ]

  repoll-get :
      (es : List (Text × PendingOrder)) (pending : Pending) (id : Text)
      → IsDict es
      → (repoll es pending).completed ≡ true
      → get (repoll es pending).pending id ≡ elim (get es id) [
        | none ↦ get pending id
        | some entry ↦ revised id entry (get pending id)
      ]
  unfolding repoll get
  repoll-get [] pending id dict done = refl
  repoll-get ((i, entry) ∷ es) pending id dict done =
      let here = check_one-get i entry pending id in
      let rest = repoll-get es (check_one (i, entry) pending).pending id dict.1 in
      ground (arith, text_eq_iff i id)

  repoll-completed :
      (es : List (Text × PendingOrder)) (pending : Pending)
      → ((id : Text) → goes_out id ≡ true)
      → (repoll es pending).completed ≡ true
  unfolding repoll check_one
  repoll-completed [] pending sent = refl
  repoll-completed ((id, entry) ∷ es) pending sent =
      ground (arith, sent id, repoll-completed es (check_one (id, entry) pending).pending sent)

  -- When publications go through and no order is pending twice, a pass completes; it publishes
  -- the news of each entry, in the entries' order and nothing else, and makes of each entry what
  -- its answer says: an order that is terminal or that the broker does not know is watched no
  -- longer, one that is not due is left, and every other one is checked again later.
  pub repoll_pending_once_lem :
      (pending : Pending)
      → IsDict pending
      → ((id : Text) → goes_out id ≡ true)
      → let after = repoll_pending_once pending in
        (after.completed ≡ true)
        × (after.published ≡ news pending)
        × ((id : Text)
            → get after.pending id
              ≡ elim (get pending id) [ none ↦ none | some entry ↦ next_entry id entry ])
  unfolding repoll_pending_once next_entry
  repoll_pending_once_lem pending dict sent =
      let done = repoll-completed pending pending sent in
      (
        done,
        repoll-news pending pending done,
        λ id. ground (arith, repoll-get pending pending id dict done),
      )
