-- ===== src/Execution/Passes.antt =====
-- Whole passes of the submission loop, and any number of them, by any of the agents.
use shrap_firm.Prelude.{
  ◌≡◌, ◌⊎◌, refl, inl, inr, ap, ◌∙◌, Bool, true, false, Option, List, [], ◌∷◌, ◌++◌, arith, All,
  All-append, All-weaken,
}
use shrap_firm.Prelude.Text.{Text, text_Eq}
use shrap_firm.Prelude.Double.{Double}
use shrap_firm.Execution.Orders.{RiskEvent, mine, route_for_account, Order}
use shrap_firm.Execution.Promises.{IsOrderFor}
use shrap_firm.Execution.Submission.{
  Services, IsBroker, has, acked, Ending-cases, handle, poll_once,
}
use shrap_firm.Execution.Delivery.{handle_extends, handle_acked, IsRefused, takes_fraction}

-- No client order id stands in the book twice.
abbrev pub IsDistinct : {F : Type 0} → List (Order F) → Type 0
IsDistinct [] = Unit
IsDistinct (o ∷ os) = (has os o.client_order_id ≡ false) × IsDistinct os

append_assoc {ℓ} : {A : Type ℓ} (xs ys zs : List A) → xs ++ (ys ++ zs) ≡ (xs ++ ys) ++ zs
append_assoc [] ys zs = refl
append_assoc (x ∷ xs) ys zs = ap (λ rest. x ∷ rest) (append_assoc xs ys zs)

has-append :
    {F : Type 0} (xs ys : List (Order F)) (id : Text) → has ys id ≡ true → has (xs ++ ys) id ≡ true
has-append [] ys id there = there
has-append (x ∷ xs) ys id there = ground (arith, has-append xs ys id there)

module _ {F W : Type 0} ⦃d : Double F⦄ (floor : F → Option F) (services : Services F W) where
  -- The world after passes by agents, each over the batch that it read.
  unfoldable pub passes : List (Text × List (RiskEvent F)) → W → W
  passes [] w = w
  passes ((account, batch) ∷ rest) w = passes rest (poll_once floor services account batch w).1

  -- The order is that of an event of the batch that names this account, for what the broker answered
  -- about the asset in the world at the turn of the event.
  abbrev pub IsFrom : Text → List (RiskEvent F) → W → Order F → Type 0
  IsFrom account [] w o = ⊥
  IsFrom account (e ∷ es) w o =
      ((route_for_account e account ≡ mine)
        × IsOrderFor floor e (takes_fraction floor services e w) o)
      ⊎ IsFrom account es (handle floor services account e w).1 o

  abbrev pub IsFromOne : List (Text × List (RiskEvent F)) → W → Order F → Type 0
  IsFromOne [] w o = ⊥
  IsFromOne ((account, batch) ∷ rest) w o =
      IsFrom account batch w o ⊎ IsFromOne rest (poll_once floor services account batch w).1 o

module _ {F W : Type 0} (book : W → List (Order F)) where
  -- The book has grown by orders of a kind, and repeats no id if it repeated none.
  pub record Grows (P : Order F → Type 0) (w w' : W) : Type 0 where
    pub new : List (Order F)
    pub grown : book w' ≡ new ++ book w
    pub of_kind : All P new
    pub distinct : IsDistinct (book w) → IsDistinct (book w')

  Grows-none : (P : Order F → Type 0) (w w' : W) → book w' ≡ book w → Grows P w w'
  Grows-none P w w' same = record {
    new = [];
    grown = same;
    of_kind = tt;
    distinct = λ before. rw same before;
  }

  Grows-then :
      (P Q R : Order F → Type 0) (w w1 w2 : W)
      → ((o : Order F) → P o → R o)
      → ((o : Order F) → Q o → R o)
      → Grows P w w1
      → Grows Q w1 w2
      → Grows R w w2
  Grows-then P Q R w w1 w2 p q first then = record {
    new = then.new ++ first.new;
    grown =
        then.grown
        ∙ ap (λ rest. then.new ++ rest) first.grown
        ∙ append_assoc then.new first.new (book w);
    of_kind =
        All-append R then.new first.new (All-weaken Q R then.new q then.of_kind)
          (All-weaken P R first.new p first.of_kind);
    distinct = λ before. then.distinct (first.distinct before);
  }

  Grows-keeps :
      (P : Order F → Type 0) (w w' : W) (id : Text)
      → Grows P w w'
      → has (book w) id ≡ true
      → has (book w') id ≡ true
  Grows-keeps P w w' id grows there = rw (grows.grown) (has-append grows.new (book w) id there)

module _ {F W : Type 0} ⦃d : Double F⦄ (floor : F → Option F) (services : Services F W)
    (book : W → List (Order F)) where
  -- The broker has accepted an order with the event's id.
  abbrev pub IsPlaced : RiskEvent F → W → Type 0
  IsPlaced e w = has (book w) e.event_id ≡ true

  -- Of each event of this account: its order is in the last book, or it was refused in the world at its
  -- turn.
  abbrev pub AllSettled : Text → W → List (RiskEvent F) → W → Type 0
  AllSettled account last [] w = Unit
  AllSettled account last (e ∷ es) w =
      (route_for_account e account ≡ mine → IsPlaced e last ⊎ IsRefused floor services e w)
      × AllSettled account last es (handle floor services account e w).1

module _ {F W : Type 0} ⦃d : Double F⦄ (floor : F → Option F) (services : Services F W)
    (book : W → List (Order F)) (laws : IsBroker services book) where
  handle-Grows :
      (account : Text) (e : RiskEvent F) (w : W)
      → Grows book
          (IsFrom floor services account (e ∷ []) w)
          w
          (handle floor services account e w).1
  handle-Grows account e w = elim (handle_extends floor services book laws account e w) [
    | inl same ↦ Grows-none book _ w _ same
    | inr (o, grew, absent, own, for) ↦ record {
      new = o ∷ [];
      grown = grew;
      of_kind = (inl (own, for), tt);
      distinct = λ before. rw grew (absent, before);
    }
  ]

  From-first :
      (account : Text) (e : RiskEvent F) (es : List (RiskEvent F)) (w : W) (o : Order F)
      → IsFrom floor services account (e ∷ []) w o
      → IsFrom floor services account (e ∷ es) w o
  From-first account e es w o (inl from) = inl from
  From-first account e es w o (inr none) = absurd none

  poll_once-Grows :
      (account : Text) (es : List (RiskEvent F)) (w : W)
      → Grows book (IsFrom floor services account es w) w (poll_once floor services account es w).1
  unfolding poll_once
  poll_once-Grows account [] w = Grows-none book _ w w refl
  poll_once-Grows account (e ∷ es) w =
      let w1 = (handle floor services account e w).1 in
      let first = handle-Grows account e w in
      let only =
        Grows-then book _ _ (IsFrom floor services account (e ∷ es) w) w w1 w1
          (From-first account e es w) (λ o from. from) first
          (Grows-none book (IsFrom floor services account (e ∷ es) w) w1 w1 refl) in
      elim (Ending-cases (handle floor services account e w).0) [
        | inl (counted, ending) ↦
            rw (poll_once, ending)
              (Grows-then book _ _ (IsFrom floor services account (e ∷ es) w) w w1 _
                (From-first account e es w) (λ o from. inr from) first
                (poll_once-Grows account es w1))
        | inr (inl ending) ↦ rw (poll_once, ending) only
        | inr (inr ending) ↦ rw (poll_once, ending) only
      ]

  concluded :
      (account : Text) (e : RiskEvent F) (es : List (RiskEvent F)) (w : W) (counted : Bool)
      → (handle floor services account e w).0 ≡ acked counted
      → let last = (poll_once floor services account es (handle floor services account e w).1).1 in
        route_for_account e account ≡ mine
        → IsPlaced floor services book e last ⊎ IsRefused floor services e w
  concluded account e es w counted ending own =
      let w1 = (handle floor services account e w).1 in
      elim (handle_acked floor services book laws account e w counted own ending) [
        | inl refused ↦ inr refused
        | inr placed ↦
            inl (Grows-keeps book _ w1 _ e.event_id (poll_once-Grows account es w1) placed)
      ]

  -- One pass, with a broker that keeps its promises: what it acknowledged and what it left are the
  -- batch, in order, and every event of this account that it acknowledged has its order in the
  -- broker's book or was refused by a ValueError at its turn: either `build_paper_order` raised it, with
  -- the broker's own answer on whether it takes a fraction of the asset, or the submission raised it.
  pub poll_once_settles :
      (account : Text) (es : List (RiskEvent F)) (w : W)
      → let (p, w') = poll_once floor services account es w in
        (p.done ++ p.left ≡ es) × AllSettled floor services book account w' p.done w
  unfolding poll_once
  poll_once_settles account [] w = (refl, tt)
  poll_once_settles account (e ∷ es) w =
      let w1 = (handle floor services account e w).1 in
      elim (Ending-cases (handle floor services account e w).0) [
        | inl (counted, ending) ↦
            let (split, settled) = poll_once_settles account es w1 in
            rw (poll_once, ending)
              (ap (λ rest. e ∷ rest) split, (concluded account e es w counted ending, settled))
        | inr (inl ending) ↦ rw (poll_once, ending) (refl, tt)
        | inr (inr ending) ↦ rw (poll_once, ending) (refl, tt)
      ]
