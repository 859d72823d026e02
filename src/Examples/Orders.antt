-- ===== src/Examples/Orders.antt =====
-- Approved intents at two agents, and the orders that are watched.
use shrap_firm.Prelude.{
  ◌≡◌, refl, true, Option, none, some, List, [], ◌∷◌, ◌++◌, ◌+◌, ◌*◌, ◌/◌, list_eq, if◌then◌else◌,
  ◌==◌,
}
use shrap_firm.Prelude.Text.{Text, text_Eq, text_eq, codes}
use shrap_firm.Prelude.Dict.{get}
use shrap_firm.Execution.Errors.{Attempt, returned, raised, http_status, other_error}
use shrap_firm.Execution.Orders.{RiskEvent, Order, number}
use shrap_firm.Execution.Submission.{poll_once}
use shrap_firm.Execution.Passes.{AllSettled, poll_once_settles}
use shrap_firm.Execution.Pending.{
  Pending, repoll_pending_once, news, next_entry, IsDict, repoll_pending_once_lem,
}
use shrap_firm.Examples.Numbers.{Hundredths, pos, negsuc, Hundredths_Double}
use shrap_firm.Examples.Stores.{desk, desk-IsBroker}

abbrev approved : Text → Text → Option Text → RiskEvent Hundredths
approved id account mode = record {
  event_id = id;
  payload = some (record {
    approved = true;
    intent = some (record {
      mode = mode;
      ticker = codes "TSLA";
      side = codes "buy";
      quantity = number (pos 400);
      account_id = account;
    });
  });
}

-- Two intents for the first account, one of them not paper, and one for the second.
abbrev batch : List (RiskEvent Hundredths)
batch =
    approved (codes "e1") (codes "PA1") (some (codes "paper"))
    ∷ approved (codes "e2") (codes "PA2") (some (codes "paper"))
    ∷ approved (codes "e3") (codes "PA1") (some (codes "live"))
    ∷ []

-- `math.floor`
abbrev floor : Hundredths → Option Hundredths
floor (pos n) = some (pos (n / 100 * 100))
floor (negsuc n) = some (negsuc (n / 100 * 100 + 99))

abbrev no_orders : List (Order Hundredths)
no_orders = []

poll_once_settles_example :
    let (p, book) = poll_once floor desk (codes "PA1") batch no_orders in
    (p.done ++ p.left ≡ batch) × AllSettled floor desk (λ w. w) (codes "PA1") book p.done no_orders
poll_once_settles_example =
    poll_once_settles floor desk (λ w. w) desk-IsBroker (codes "PA1") batch no_orders

-- Each agent reads the batch, and the first one reads it again.
abbrev rounds : List (Text × List (RiskEvent Hundredths))
rounds = (codes "PA1", batch) ∷ (codes "PA2", batch) ∷ (codes "PA1", batch) ∷ []

-- One order fills, one is unknown, one cannot be asked about, and one is not due.
abbrev watched : Pending
watched =
    (codes "b1", record { last_status = codes "new"; next_check_at = 10 })
    ∷ (codes "b2", record { last_status = codes "new"; next_check_at = 10 })
    ∷ (codes "b3", record { last_status = codes "new"; next_check_at = 10 })
    ∷ (codes "b4", record { last_status = codes "new"; next_check_at = 99 })
    ∷ []

abbrev answer : Text → Attempt Text
answer id =
    if id == codes "b1"
    then returned (codes "filled")
    else if id == codes "b2"
    then raised (http_status 404 none)
    else raised other_error

watched-IsDict : IsDict watched
unfolding get text_eq list_eq
watched-IsDict = (refl, (refl, (refl, (refl, tt))))

repoll_pending_once_lem_example :
    let after = repoll_pending_once answer (λ id. true) 20 5 watched in
    (after.completed ≡ true)
    × (after.published ≡ news answer (λ id. true) 20 5 watched)
    × ((id : Text)
        → get after.pending id ≡ elim (get watched id) [
          | none ↦ none
          | some entry ↦ next_entry answer (λ id. true) 20 5 id entry
        ])
repoll_pending_once_lem_example =
    repoll_pending_once_lem answer (λ id. true) 20 5 watched watched-IsDict (λ id. refl)
