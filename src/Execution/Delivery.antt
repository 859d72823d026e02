-- ===== src/Execution/Delivery.antt =====
-- What a pass of the submission loop does to the broker's book and to the batch that it read.
use shrap_firm.Prelude.{
  ◌≡◌, ◌≢◌, ◌⊎◌, refl, inl, inr, sym, ap, ◌∙◌, Bool, true, false, Option, List, [], ◌∷◌, arith,
  Option-cases, Bool-cases,
}
use shrap_firm.Prelude.Text.{Text, text_Eq, is_empty, upper, strip}
use shrap_firm.Prelude.Double.{Double}
use shrap_firm.Execution.Errors.{
  Failure, value_error, Attempt, returned, raised, Attempt-cases, is_duplicate_order_error,
}
use shrap_firm.Execution.Orders.{
  RiskEvent, intent_of, order_for, mine, route_for_account, Order, build_paper_order,
}
use shrap_firm.Execution.Promises.{
  IsOrderFor, build_paper_order-IsOrderFor, build_paper_order-refusal,
}
use shrap_firm.Execution.Submission.{
  Services, IsBroker, has, acked, fractionable_for, ticker_of, submit, process_risk_event, ack,
  attempt_event, is_skipped, is_skipped_lem, recover, finish, handle,
}

is_empty-upper : (s : Text) → is_empty (upper s) ≡ is_empty s
unfolding upper
is_empty-upper [] = refl
is_empty-upper (c ∷ s) = refl

module _ {F W : Type 0} ⦃d : Double F⦄ (floor : F → Option F) (services : Services F W) where
  -- What the broker answers in this world about the asset of the event.
  abbrev pub takes_fraction : RiskEvent F → W → Bool
  takes_fraction e w = (services.is_fractionable (ticker_of floor services e) w).0

  -- Without a ticker there is no order, whatever the broker would answer.
  no_ticker :
      (e : RiskEvent F) (a b : Bool)
      → is_empty (ticker_of floor services e) ≡ true
      → build_paper_order floor e a ≡ build_paper_order floor e b
  unfolding build_paper_order order_for ticker_of intent_of
  no_ticker e a b empty = elim (Option-cases e.payload) [
    | inl absent ↦ ground arith
    | inr (p, carried) ↦ elim (Option-cases p.intent) [
      | inl missing ↦ ground arith
      | inr (i, holds) ↦ ground (arith, is_empty-upper (strip i.ticker))
    ]
  ]

  -- The order is built for what the broker answers.
  built_for :
      (e : RiskEvent F) (w : W)
      → build_paper_order floor e (fractionable_for floor services e w).0
        ≡ build_paper_order floor e (takes_fraction e w)
  unfolding fractionable_for
  built_for e w = elim (Bool-cases (is_empty (ticker_of floor services e))) [
    | inl empty ↦ no_ticker e _ _ empty
    | inr named ↦ rw (named) refl
  ]

  -- The event, handled in this world, is refused by a ValueError: no order can be built from it with
  -- what the broker answers, or the client of the broker raises one on the reply to its order.
  pub data IsRefused (e : RiskEvent F) (w : W) : Type 0 where
    malformed : build_paper_order floor e (takes_fraction e w) ≡ raised value_error → IsRefused e w
    unread :
        (o : Order F)
        → build_paper_order floor e (takes_fraction e w) ≡ returned o
        → (services.submit_order o (fractionable_for floor services e w).1).0 ≡ raised value_error
        → IsRefused e w

module _ {F W : Type 0} ⦃d : Double F⦄ (floor : F → Option F) (services : Services F W)
    (book : W → List (Order F)) (laws : IsBroker services book) where
  -- The book after a call: unchanged, or with an order for the event added, whose id was not there.
  Extends : RiskEvent F → Bool → W → W → Type 0
  Extends e fractionable w w' =
      (book w' ≡ book w)
      ⊎ ((o : Order F) × (book w' ≡ o ∷ book w)
          × (has (book w) o.client_order_id ≡ false)
          × IsOrderFor floor e fractionable o)

  -- An answer after which the event stays pending, or is refused, or has its order in the book.
  Concludes : Type 0 → Text → Attempt {0} Unit → W → Type 0
  Concludes Refused id answer w =
      ((f : Failure) × (answer ≡ raised f) × (is_skipped f ≡ false))
      ⊎ (Refused ⊎ (has (book w) id ≡ true))

  fractionable_for_book :
      (e : RiskEvent F) (w : W) → book (fractionable_for floor services e w).1 ≡ book w
  unfolding fractionable_for
  fractionable_for_book e w = ground (arith, laws.fractionable_book (ticker_of floor services e) w)

  added :
      (e : RiskEvent F) (fractionable : Bool) (o : Order F) (w : W)
      → IsOrderFor floor e fractionable o
      → Extends e fractionable w (services.submit_order o w).1
  unfolding Extends
  added e fractionable o w for = elim (Bool-cases (has (book w) o.client_order_id)) [
    | inl there ↦ inl (laws.submit_once o w there)
    | inr absent ↦ elim (laws.submit_book o w) [
      | inl same ↦ inl same
      | inr grown ↦ inr (o, grown, absent, for)
    ]
  ]

  Extends-kept :
      (e : RiskEvent F) (fractionable : Bool) (w w1 w2 : W)
      → book w2 ≡ book w1
      → Extends e fractionable w w1
      → Extends e fractionable w w2
  unfolding Extends
  Extends-kept e fractionable w w1 w2 same (inl was) = inl (same ∙ was)
  Extends-kept e fractionable w w1 w2 same (inr (o, was, absent, for)) =
      inr (o, same ∙ was, absent, for)

  Extends-before :
      (e : RiskEvent F) (fractionable : Bool) (w w1 w2 : W)
      → book w1 ≡ book w
      → Extends e fractionable w1 w2
      → Extends e fractionable w w2
  unfolding Extends
  Extends-before e fractionable w w1 w2 same ext = rw (sym same) ext

  -- A submission that failed: the event stays pending, or the failure is a ValueError, or the order is
  -- in the book.
  failed_lem :
      (o : Order F) (w : W) (f : Failure)
      → (services.submit_order o w).0 ≡ raised f
      → Concludes
          ((services.submit_order o w).0 ≡ raised value_error)
          o.client_order_id
          (raised f)
          (services.submit_order o w).1
  unfolding Concludes
  failed_lem o w f failed = elim (is_skipped_lem f) [
    | inl pending ↦ inl (f, refl, pending)
    | inr (inl value) ↦ inr (inl (failed ∙ ap raised value))
    | inr (inr duplicate) ↦ inr (inr (laws.submit_duplicate o w f failed duplicate))
  ]

  submit_lem :
      (e : RiskEvent F) (fractionable : Bool) (o : Order F) (w : W)
      → IsOrderFor floor e fractionable o
      → let (answer, w') = submit floor services e o w in
        Extends e fractionable w w'
        × Concludes ((services.submit_order o w).0 ≡ raised value_error) o.client_order_id answer w'
  unfolding submit Concludes
  submit_lem e fractionable o w for =
      let w1 = (services.submit_order o w).1 in
      elim (Attempt-cases (services.submit_order o w).0) [
        | inl (id, sent) ↦
            let w2 = (services.publish_submitted e.event_id o w1).1 in
            let kept = laws.publish_book e.event_id o w1 in
            let there = laws.submit_returned o w id sent in
            rw (submit, sent)
              (
                Extends-kept e fractionable w w1 w2 kept (added e fractionable o w for),
                inr (inr (rw (kept) there)),
              )
        | inr (f, failed) ↦
            let ends = failed_lem o w f failed in
            rw (submit, failed) (added e fractionable o w for, rw (← failed) ends)
      ]

  refusal-Concludes :
      (e : RiskEvent F) (f : Failure) (w w' : W)
      → build_paper_order floor e (takes_fraction floor services e w) ≡ raised f
      → Concludes (IsRefused floor services e w) e.event_id (raised f) w'
  unfolding Concludes is_skipped is_duplicate_order_error
  refusal-Concludes e f w w' refused =
      elim (build_paper_order-refusal floor e (takes_fraction floor services e w) f refused) [
        | inl value ↦ inr (inl (malformed (refused ∙ ap raised value)))
        | inr another ↦ inl (f, refl, rw another refl)
      ]

  submission-Concludes :
      (e : RiskEvent F) (o : Order F) (answer : Attempt {0} Unit) (w w' : W)
      → build_paper_order floor e (takes_fraction floor services e w) ≡ returned o
      → o.client_order_id ≡ e.event_id
      → Concludes
          ((services.submit_order o (fractionable_for floor services e w).1).0 ≡ raised value_error)
          o.client_order_id
          answer
          w'
      → Concludes (IsRefused floor services e w) e.event_id answer w'
  unfolding Concludes
  submission-Concludes e o answer w w' built same (inl pending) = inl pending
  submission-Concludes e o answer w w' built same (inr (inl reply)) =
      inr (inl (unread o built reply))
  submission-Concludes e o answer w w' built same (inr (inr there)) = inr (inr (rw (← same) there))

  process_risk_event_lem :
      (e : RiskEvent F) (w : W)
      → let (answer, w') = process_risk_event floor services e w in
        Extends e (takes_fraction floor services e w) w w'
        × Concludes (IsRefused floor services e w) e.event_id answer w'
  unfolding process_risk_event Extends
  process_risk_event_lem e w =
      let answer = takes_fraction floor services e w in
      let w1 = (fractionable_for floor services e w).1 in
      let same = fractionable_for_book e w in
      let for_answer = built_for floor services e w in
      elim (Attempt-cases (build_paper_order floor e answer)) [
        | inl (o, built) ↦
            let for = build_paper_order-IsOrderFor floor e answer o built in
            let (grown, ends) = submit_lem e answer o w1 for in
            rw (process_risk_event, for_answer, built)
              (
                Extends-before e answer w w1 (submit floor services e o w1).1 same grown,
                submission-Concludes e o (submit floor services e o w1).0 w
                    (submit floor services e o w1).1 built for.same_id ends,
              )
        | inr (f, refused) ↦
            rw (process_risk_event, for_answer, refused)
              (inl same, refusal-Concludes e f w w1 refused)
      ]

  ack_book :
      (e : RiskEvent F) (counted : Bool) (w : W) → book (ack floor services e counted w).1 ≡ book w
  unfolding ack
  ack_book e counted w = laws.acknowledge_book e.event_id w

  recover_book :
      (e : RiskEvent F) (f : Failure) (w : W) → book (recover floor services e f w).1 ≡ book w
  unfolding recover
  recover_book e f w = ground (arith, ack_book e false w)

  finish_book :
      (e : RiskEvent F) (answer : Attempt Bool) (w : W)
      → book (finish floor services e answer w).1 ≡ book w
  unfolding finish
  finish_book e (returned counted) w = refl
  finish_book e (raised f) w = recover_book e f w

  attempt_event_book :
      (account : Text) (e : RiskEvent F) (w : W)
      → ((route_for_account e account ≡ mine)
          × (book (attempt_event floor services account e w).1
              ≡ book (process_risk_event floor services e w).1))
        ⊎ ((route_for_account e account ≢ mine)
            × (book (attempt_event floor services account e w).1 ≡ book w))
  unfolding attempt_event
  attempt_event_book account e w =
      let (answer, w1) = process_risk_event floor services e w in
      ground (arith, ack_book e false w, ack_book e true w1)

  -- Handling an event of this account does to the book what its processing does, and no other event
  -- touches the book.
  handle_book :
      (account : Text) (e : RiskEvent F) (w : W)
      → ((route_for_account e account ≡ mine)
          × (book (handle floor services account e w).1
              ≡ book (process_risk_event floor services e w).1))
        ⊎ ((route_for_account e account ≢ mine)
            × (book (handle floor services account e w).1 ≡ book w))
  unfolding handle
  handle_book account e w =
      let (answer, w1) = attempt_event floor services account e w in
      ground (arith, attempt_event_book account e w, finish_book e answer w1)

  -- Handling an event leaves the book, or adds an order for it whose id was not there, and then the
  -- event is of this account.
  pub handle_extends :
      (account : Text) (e : RiskEvent F) (w : W)
      → (book (handle floor services account e w).1 ≡ book w)
        ⊎ ((o : Order F) × (book (handle floor services account e w).1 ≡ o ∷ book w)
            × (has (book w) o.client_order_id ≡ false)
            × (route_for_account e account ≡ mine)
            × IsOrderFor floor e (takes_fraction floor services e w) o)
  unfolding Extends
  handle_extends account e w =
      let (grown, outcome) = process_risk_event_lem e w in
      elim (handle_book account e w) [
        | inr (other, same) ↦ inl same
        | inl (own, same) ↦ elim grown [
          | inl kept ↦ inl (same ∙ kept)
          | inr (o, grew, absent, for) ↦ inr (o, same ∙ grew, absent, own, for)
        ]
      ]

  -- An event of this account that is acknowledged was refused, or has its order in the book.
  pub handle_acked :
      (account : Text) (e : RiskEvent F) (w : W) (counted : Bool)
      → route_for_account e account ≡ mine
      → (handle floor services account e w).0 ≡ acked counted
      → IsRefused floor services e w
        ⊎ (has (book (handle floor services account e w).1) e.event_id ≡ true)
  unfolding handle attempt_event finish recover Concludes
  handle_acked account e w counted own done =
      let (grown, outcome) = process_risk_event_lem e w in
      let same = handle_book account e w in
      elim outcome [
        | inl pending ↦ ground arith
        | inr (inl refused) ↦ inl refused
        | inr (inr there) ↦ ground arith
      ]
