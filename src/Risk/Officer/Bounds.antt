-- ===== src/Risk/Officer/Bounds.antt =====
-- How much `RiskOfficer.assess` of src/shrap/risk_compliance/risk_officer/officer.py approves, and when.
use shrap_firm.Prelude.{
  or_empty, ◌≡◌, ◌⊎◌, ◌∙◌, sym, ap, refl, inl, inr, Bool, true, false, Option, none, some, List,
  arith, Option-cases,
}
use shrap_firm.Prelude.Text.{Text, text_Eq}
use shrap_firm.Prelude.Dict.{get}
use shrap_firm.Prelude.Double.{Double, IsOrdered, ◌<=◌, ◌<<◌, min_float}
use shrap_firm.Risk.Switches.{Board, blocks_intent, reduces_position, halted, blocks_intent_iff}
use shrap_firm.Risk.Limits.{PortfolioLimits, regime_multiplier, scaled_for_regime}
use shrap_firm.Risk.Exposure.{BookExposure, symbol_of, by_ticker, shares, or_nought}
use shrap_firm.Risk.Sizing.{size_intent, size_intent-le}
use shrap_firm.Risk.Gate.{no_usable, IsHalving, IsHalving-below}
use shrap_firm.Risk.Breaches.{Fits, check_order-le, check_order_usable, check_order_lem}
use shrap_firm.Risk.Officer.{
  Read, unread, answer, Stores, Question, RiskAssessment, Sized, refuse, take, is_sell, answered,
  signed_value, size_entry, size_sell, size_order, gate, gate_sized, history_for, assess_book,
  assess,
}
use shrap_firm.Risk.Officer.Approvals.{Read-cases, IsGrounded, assess-IsGrounded}

module _ {F : Type 0} ⦃d : Double F⦄ where
  size_entry_lem :
      (stores : Stores F) (id stage : Text) (multiplier : F) (price : Option F) (quantity n : F)
      → size_entry stores id stage multiplier price quantity ≡ take n
      → (posterior : Option F) × (n ≡ size_intent quantity stage multiplier price posterior)
  unfolding size_entry
  size_entry_lem stores id stage multiplier price quantity n took =
      elim (Option-cases stores.latest_posterior) [
        | inl off ↦ (none, ground arith)
        | inr (lookup, on) ↦ elim (Read-cases (lookup id)) [
          | inl gone ↦ ground arith
          | inr (posterior, found) ↦ (posterior, ground arith)
        ]
      ]

  -- A sell takes the smaller of the request and the holding; another order takes the request, or what
  -- the sizing of an entry takes.
  size_order_lem :
      (sell : Bool) (held price : F) (reducing : Bool) (quantity : F) (entry : Sized F) (n : F)
      → (price <= d.nought) ≡ false
      → size_order sell held (some price) reducing quantity entry ≡ take n
      → ((sell ≡ true) × (n ≡ min_float quantity held))
        ⊎ ((sell ≡ false) × ((n ≡ quantity) ⊎ (entry ≡ take n)))
  unfolding size_order size_sell
  size_order_lem sell held price reducing quantity entry n usable took = ground arith

  answered_lem :
      (r : Read (Option F)) (price : F) → answered none r ≡ some price → r ≡ answer (some price)
  answered_lem unread price h = ground arith
  answered_lem (answer a) price h = ground arith

  gate_sized_lem :
      (sum : List F → F) (power : F → F → F) (tolerance : F) (truncate : F → F) (probe : F)
      (stores : Stores F) (q : Question F) (book : BookExposure F) (limits : PortfolioLimits F)
      (price : Option F) (sized : Sized F)
      → (gate_sized sum power tolerance truncate probe stores q book limits price sized).approved
        ≡ true
      → (n : F) × (sized ≡ take n)
        × ((n <= d.nought) ≡ false)
        × (gate_sized sum power tolerance truncate probe stores q book limits price sized
            ≡ gate sum power tolerance truncate probe stores q book limits price n)
  unfolding gate_sized
  gate_sized_lem sum power tolerance truncate probe stores q book limits price (refuse reason) h =
      ground arith
  gate_sized_lem sum power tolerance truncate probe stores q book limits price (take n) h =
      (n, refl, ground arith, ground arith)

  module _ (sum : List F → F) (power : F → F → F) (tolerance : F) (truncate : F → F) (probe : F)
      (stores : Stores F) (q : Question F) where
    -- What an approval against a book says, for the price that was read.
    pub record IsSound (limits : PortfolioLimits F) (board : Board) (book : BookExposure F)
        (approved_quantity : F) : Type 0 where
      pub price : F
      pub price_read : stores.latest_close (symbol_of q.ticker) ≡ answer (some price)
      pub price_is_positive : (d.nought << price) ≡ true
      pub unblocked :
          (halted board q.strategy_ids ≡ false)
          ⊎ (reduces_position
                (or_nought (get (by_ticker book) (symbol_of q.ticker)))
                (signed_value q.quantity (some price) (is_sell q.side))
              ≡ true)
      pub is_positive : (d.nought << approved_quantity) ≡ true
      pub at_most_asked : (approved_quantity <= q.quantity) ≡ true
      pub at_most_held :
          is_sell q.side ≡ true → (approved_quantity <= shares book (symbol_of q.ticker)) ≡ true
      pub size : F
      pub fits :
          Fits sum power tolerance book
            (symbol_of q.ticker)
            q.side
            (scaled_for_regime (regime_multiplier q.regime_label q.regime_band) limits)
            (history_for sum power tolerance truncate probe stores q book)
            price
            size
      pub of_size : (approved_quantity ≡ size) ⊎ (approved_quantity ≡ truncate size)

    gate_price :
        (limits : PortfolioLimits F) (book : BookExposure F) (price : Option F) (n : F)
        → (gate sum power tolerance truncate probe stores q book limits price n).approved ≡ true
        → no_usable price ≡ false
    unfolding gate
    gate_price limits book price n granted =
        check_order_usable sum power tolerance book (symbol_of q.ticker) q.side limits
          (history_for sum power tolerance truncate probe stores q book) truncate probe n price
          granted

    gate-IsSound :
        IsOrdered F
        → IsHalving truncate q.quantity
        → (limits : PortfolioLimits F) (board : Board) (book : BookExposure F)
        → (id stage : Text) (price n : F)
        → stores.latest_close (symbol_of q.ticker) ≡ answer (some price)
        → (halted board q.strategy_ids ≡ false)
          ⊎ (reduces_position
                (or_nought (get (by_ticker book) (symbol_of q.ticker)))
                (signed_value q.quantity (some price) (is_sell q.side))
              ≡ true)
        → (n <= d.nought) ≡ false
        → (n <= q.quantity) ≡ true
        → (is_sell q.side ≡ true → (n <= shares book (symbol_of q.ticker)) ≡ true)
        → let r =
            gate sum power tolerance truncate probe stores q book
              (scaled_for_regime (regime_multiplier q.regime_label q.regime_band) limits)
              (some price)
              n in
          r.approved ≡ true → IsSound limits board book r.approved_quantity
    unfolding gate
    gate-IsSound laws halves limits board book id stage price n read unblocked positive most held
          granted =
        let symbol = symbol_of q.ticker in
        let scaled = scaled_for_regime (regime_multiplier q.regime_label q.regime_band) limits in
        let past = history_for sum power tolerance truncate probe stores q book in
        let halves_below = IsHalving-below truncate q.quantity n laws most halves in
        let (less, above) =
          check_order-le sum power tolerance book symbol q.side scaled past truncate probe n
            halves_below laws (some price) granted in
        let usable = gate_price scaled book (some price) n granted in
        let (size, fits, of_size) =
          (check_order_lem sum power tolerance book symbol q.side scaled past truncate probe n
              (some price) (halves.truncate-le d.nought (laws.le_refl d.nought))).1
            granted in
        record {
          price = price;
          price_read = read;
          price_is_positive = ground arith;
          unblocked = unblocked;
          is_positive = above;
          at_most_asked = laws.le_trans _ n q.quantity less most;
          at_most_held = λ sell. laws.le_trans _ n (shares book symbol) less (held sell);
          size = size;
          fits = fits;
          of_size = of_size;
        }

    -- What the sizing takes of an order at a price above zero.
    sized_lem :
        IsOrdered F
        → (id stage : Text) (price : F) (reducing : Bool) (held n : F) → (price <= d.nought) ≡ false
        → (n <= d.nought) ≡ false
        → size_order (is_sell q.side) held (some price) reducing q.quantity (
            size_entry stores id stage
              (regime_multiplier q.regime_label q.regime_band)
              (some price)
              q.quantity)
          ≡ take n
        → ((n <= q.quantity) ≡ true) × (is_sell q.side ≡ true → (n <= held) ≡ true)
    sized_lem laws id stage price reducing held n usable positive took =
        let multiplier = regime_multiplier q.regime_label q.regime_band in
        let entry = size_entry stores id stage multiplier (some price) q.quantity in
        elim (size_order_lem (is_sell q.side) held price reducing q.quantity entry n usable took) [
          | inl (sell, at) ↦
              ground
                (arith, laws.le_refl q.quantity, laws.le_refl held, laws.le_total held q.quantity)
          | inr (other, inl at) ↦ ground (arith, laws.le_refl q.quantity)
          | inr (other, inr at) ↦
              let (posterior, of_intent) =
                size_entry_lem stores id stage multiplier (some price) q.quantity n at in
              let less = size_intent-le laws q.quantity stage multiplier (some price) posterior in
              ground (arith, less)
        ]

    book_at :
        IsOrdered F
        → IsHalving truncate q.quantity
        → (limits : PortfolioLimits F) (id stage : Text) (board : Board) (book : BookExposure F)
        → (price : Option F) → answered none (stores.latest_close (symbol_of q.ticker)) ≡ price
        → let held_value = or_nought (get (by_ticker book) (symbol_of q.ticker)) in
          let delta = signed_value q.quantity price (is_sell q.side) in
          let multiplier = regime_multiplier q.regime_label q.regime_band in
          let r =
            gate_sized sum power tolerance truncate probe stores q book
              (scaled_for_regime multiplier limits)
              price
              (size_order
                (is_sell q.side)
                (shares book (symbol_of q.ticker))
                price
                (reduces_position held_value delta)
                q.quantity
                (size_entry stores id stage multiplier price q.quantity)) in
          blocks_intent board q.strategy_ids held_value delta ≡ none
          → r.approved ≡ true
          → IsSound limits board book r.approved_quantity
    book_at laws halves limits id stage board book none read free granted =
        let held_value = or_nought (get (by_ticker book) (symbol_of q.ticker)) in
        let delta = signed_value q.quantity none (is_sell q.side) in
        let multiplier = regime_multiplier q.regime_label q.regime_band in
        let scaled = scaled_for_regime multiplier limits in
        let sized =
          size_order (is_sell q.side) (shares book (symbol_of q.ticker)) none
            (reduces_position held_value delta) q.quantity
            (size_entry stores id stage multiplier none q.quantity) in
        let (n, took, positive, gated) =
          gate_sized_lem sum power tolerance truncate probe stores q book scaled none sized
            granted in
        let at_gate = ap (λ (x : RiskAssessment F). x.approved) (sym gated) ∙ granted in
        let no_price = gate_price scaled book none n at_gate in ground arith
    book_at laws halves limits id stage board book (some price) read free granted =
        let held = shares book (symbol_of q.ticker) in
        let held_value = or_nought (get (by_ticker book) (symbol_of q.ticker)) in
        let delta = signed_value q.quantity (some price) (is_sell q.side) in
        let multiplier = regime_multiplier q.regime_label q.regime_band in
        let scaled = scaled_for_regime multiplier limits in
        let reducing = reduces_position held_value delta in
        let sized =
          size_order (is_sell q.side) held (some price) reducing q.quantity
            (size_entry stores id stage multiplier (some price) q.quantity) in
        let (n, took, positive, gated) =
          gate_sized_lem sum power tolerance truncate probe stores q book scaled (some price) sized
            granted in
        let at_gate = ap (λ (x : RiskAssessment F). x.approved) (sym gated) ∙ granted in
        let usable = gate_price scaled book (some price) n at_gate in
        let (most, at_most_held) =
          sized_lem laws id stage price reducing held n usable positive took in
        let sound =
          gate-IsSound laws halves limits board book id stage price n (answered_lem _ price read)
            ((blocks_intent_iff board q.strategy_ids held_value delta).0 free) positive most
            at_most_held at_gate in
        rw (gated) sound

    pub assess_book-IsSound :
        IsOrdered F
        → IsHalving truncate q.quantity
        → (limits : PortfolioLimits F) (id stage : Text) (board : Board) (book : BookExposure F)
        → let r =
            assess_book sum power tolerance truncate probe stores q limits id stage board book in
          r.approved ≡ true → IsSound limits board book r.approved_quantity
    unfolding assess_book
    assess_book-IsSound laws halves limits id stage board book granted =
        let price = answered none (stores.latest_close (symbol_of q.ticker)) in
        let held_value = or_nought (get (by_ticker book) (symbol_of q.ticker)) in
        let delta = signed_value q.quantity price (is_sell q.side) in
        let run =
          assess_book sum power tolerance truncate probe stores q limits id stage board book in
        let multiplier = regime_multiplier q.regime_label q.regime_band in
        let goes_on =
          gate_sized sum power tolerance truncate probe stores q book
            (scaled_for_regime multiplier limits) price
            (size_order (is_sell q.side) (shares book (symbol_of q.ticker)) price
              (reduces_position held_value delta) q.quantity
              (size_entry stores id stage multiplier price q.quantity)) in
        elim (Option-cases (blocks_intent board q.strategy_ids held_value delta)) [
          | inl free ↦
              let reached : run ≡ goes_on = ground arith in
              let on_way = ap (λ (x : RiskAssessment F). x.approved) (sym reached) ∙ granted in
              let sound = book_at laws halves limits id stage board book price refl free on_way in
              rw (reached) sound
          | inr (name, blocked) ↦ ground arith
        ]

    -- What `assess` approves is a positive quantity, at most the one that was asked about and, for a
    -- sell, at most the shares that the account holds; there was a price above zero; no switch that
    -- concerns the intent is active unless it reduces the position; and the quantity is, up to the
    -- truncation to the broker's precision, a size that takes no reading of the book both above its
    -- cap for the regime and above what it was, each by more than the tolerance. The book is that of
    -- the account's last equity and of its positions.
    -- This holds where, for sizes from zero to the one asked about, a midpoint lies between its ends and
    -- truncation raises none.
    pub assess-IsSound :
        IsOrdered F
        → IsHalving truncate q.quantity
        → (limits : PortfolioLimits F)
        → let r = assess sum power tolerance truncate probe stores q limits in
          r.approved ≡ true
          → (g : IsGrounded sum power tolerance truncate probe stores q limits) × IsSound limits
              g.board
              (record { nav = g.nav; positions = g.positions })
              r.approved_quantity
    assess-IsSound laws halves limits granted =
        let g = assess-IsGrounded sum power tolerance truncate probe stores q limits granted in
        let book : BookExposure F = record { nav = g.nav; positions = g.positions } in
        let on_way = ap (λ (x : RiskAssessment F). x.approved) (sym g.same) ∙ granted in
        let sound =
          assess_book-IsSound laws halves limits g.strategy_id (or_empty g.listing.status) g.board
            book on_way in
        (g, rw (g.same) sound)
