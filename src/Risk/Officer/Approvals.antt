-- ===== src/Risk/Officer/Approvals.antt =====
-- What an approval of `RiskOfficer.assess` in src/shrap/risk_compliance/risk_officer/officer.py rests on.
use shrap_firm.Prelude.{
  or_empty, ℕ, ◌+◌, ◌≡◌, ◌⊎◌, ◌∙◌, sym, ap, refl, inl, inr, true, false, Option, none, some, List,
  [], ◌∷◌, arith, ltb, Bool-cases, Option-cases, List-cases,
}
use shrap_firm.Prelude.Text.{Text, is_empty}
use shrap_firm.Prelude.Double.{Double, ◌<<◌}
use shrap_firm.Risk.Switches.{Board}
use shrap_firm.Risk.Monitor.{EquityPoint, last_equity}
use shrap_firm.Risk.Limits.{PortfolioLimits}
use shrap_firm.Risk.Exposure.{Position, BookExposure, make_book}
use shrap_firm.Risk.Freshness.{max_position_age, are_usable, build_book}
use shrap_firm.Risk.Officer.{
  Read, unread, answer, Listing, Stores, Question, RiskAssessment, assess_book, assess_account,
  assess,
}

pub Read-cases {ℓ} : {A : Type ℓ} (r : Read A) → (r ≡ unread) ⊎ ((a : A) × (r ≡ answer a))
Read-cases unread = inl refl
Read-cases (answer a) = inr (a, refl)

module _ {F : Type 0} ⦃d : Double F⦄ where
  build_book_lem :
      (nav : F) (positions : List (Position F)) (observed_at : Option ℕ) (now : ℕ)
      → (book : BookExposure F) → build_book nav positions observed_at now ≡ some book
      → (at : ℕ) × (observed_at ≡ some at)
        × (ltb (at + max_position_age) now ≡ false)
        × ((d.nought << nav) ≡ true)
        × (book ≡ record { nav = nav; positions = positions })
  unfolding build_book are_usable make_book
  build_book_lem nav positions none now book built = ground arith
  build_book_lem nav positions (some at) now book built =
      (at, refl, ground arith, ground arith, ground arith)

  module _ (sum : List F → F) (power : F → F → F) (tolerance : F) (truncate : F → F) (probe : F)
      (stores : Stores F) (q : Question F) where
    -- Every read that an approval rests on, and what the rest of `assess` worked with.
    pub record IsGrounded (limits : PortfolioLimits F) : Type 0 where
      pub strategy_id : Text
      pub others : List Text
      pub attributed : q.strategy_ids ≡ strategy_id ∷ others
      pub listing : Listing
      pub registered : stores.registry strategy_id ≡ answer (some listing)
      pub has_account : is_empty (or_empty listing.account_id) ≡ false
      pub board : Board
      pub switches_read : stores.switches ≡ answer board
      pub positions : List (Position F)
      pub observed_at : ℕ
      pub positions_read :
          stores.latest_positions (or_empty listing.account_id)
          ≡ answer (positions, some observed_at)
      pub is_fresh : ltb (observed_at + max_position_age) q.now ≡ false
      pub nav : F
      pub first : EquityPoint F
      pub rest : List (EquityPoint F)
      pub equity_read : stores.equity_series (or_empty listing.account_id) ≡ answer (first ∷ rest)
      pub nav_is_last : nav ≡ last_equity first rest
      pub nav_is_positive : (d.nought << nav) ≡ true
      pub same :
          assess sum power tolerance truncate probe stores q limits
          ≡ assess_book sum power tolerance truncate probe stores q limits strategy_id
              (or_empty listing.status)
              board
              (record { nav = nav; positions = positions })

    -- The account's part of the reads.
    account_grounds :
        (limits : PortfolioLimits F) (strategy_id account_id stage : Text)
        → let run =
            assess_account sum power tolerance truncate probe stores q limits strategy_id account_id
              stage in
          run.approved ≡ true
          → (board : Board) × (stores.switches ≡ answer board)
            × (positions : List (Position F)) × (at : ℕ) × (stores.latest_positions account_id
                ≡ answer (positions, some at))
            × (ltb (at + max_position_age) q.now ≡ false)
            × (first : EquityPoint F) × (rest : List (EquityPoint F)) × (stores.equity_series
                  account_id
                ≡ answer (first ∷ rest))
            × ((d.nought << last_equity first rest) ≡ true)
            × (run
                ≡ assess_book sum power tolerance truncate probe stores q limits strategy_id stage
                    board
                    (record { nav = last_equity first rest; positions = positions }))
    unfolding assess_account
    account_grounds limits strategy_id account_id stage granted =
        elim (Read-cases stores.switches) [
          | inl gone ↦ ground arith
          | inr (board, has_board) ↦ elim (Read-cases (stores.latest_positions account_id)) [
            | inl gone ↦ ground arith
            | inr ((positions, observed_at), has_positions) ↦
                elim (Read-cases (stores.equity_series account_id)) [
                  | inl gone ↦ ground arith
                  | inr (points, has_points) ↦ elim (List-cases points) [
                    | inl empty ↦
                        let none_read : stores.equity_series account_id ≡ answer [] = cc in
                        ground arith
                    | inr (first, rest, shape) ↦
                        let has_equity : stores.equity_series account_id ≡ answer (first ∷ rest) =
                          cc in
                        let nav = last_equity first rest in
                        elim (Option-cases (build_book nav positions observed_at q.now)) [
                          | inl stale ↦ ground arith
                          | inr (book, built) ↦
                              let (at, seen, fresh, positive, shape_of) =
                                build_book_lem nav positions observed_at q.now book built in
                              let run =
                                assess_account sum power tolerance truncate probe stores q limits
                                  strategy_id account_id stage in
                              let goes_on =
                                assess_book sum power tolerance truncate probe stores q limits
                                  strategy_id stage board in
                              let reached : run ≡ goes_on book = ground arith in
                              (
                                board,
                                has_board,
                                positions,
                                at,
                                cc,
                                fresh,
                                first,
                                rest,
                                has_equity,
                                positive,
                                reached ∙ ap goes_on shape_of,
                              )
                        ]
                  ]
                ]
          ]
        ]

    -- `assess` approves nothing unless every read that it needs gave an answer: the intent names a
    -- strategy, the registry lists it with an account, the switches could be loaded, the positions
    -- come with a snapshot that is at most thirty minutes old, and the equity series has points, the
    -- last of them positive.
    pub assess-IsGrounded :
        (limits : PortfolioLimits F)
        → (assess sum power tolerance truncate probe stores q limits).approved ≡ true
        → IsGrounded limits
    unfolding assess
    assess-IsGrounded limits granted = elim (List-cases q.strategy_ids) [
      | inl nobody ↦ ground arith
      | inr (strategy_id, others, attributed) ↦ elim (Read-cases (stores.registry strategy_id)) [
        | inl gone ↦ ground arith
        | inr (found, has_answer) ↦ elim (Option-cases found) [
          | inl unknown ↦
              let none_found : stores.registry strategy_id ≡ answer none = cc in ground arith
          | inr (listing, known) ↦
              let registered : stores.registry strategy_id ≡ answer (some listing) = cc in
              let account = or_empty listing.account_id in
              elim (Bool-cases (is_empty account)) [
                | inl blank ↦ ground arith
                | inr owned ↦
                    let run = assess sum power tolerance truncate probe stores q limits in
                    let goes_on =
                      assess_account sum power tolerance truncate probe stores q limits strategy_id
                        account (or_empty listing.status) in
                    let reached : run ≡ goes_on = ground arith in
                    let (board, a, positions, at, b, fresh, first, rest, c, positive, same) =
                      account_grounds limits strategy_id account (or_empty listing.status)
                        (ap (λ (x : RiskAssessment F). x.approved) (sym reached) ∙ granted) in
                    record {
                      strategy_id = strategy_id;
                      others = others;
                      attributed = attributed;
                      listing = listing;
                      registered = registered;
                      has_account = owned;
                      board = board;
                      switches_read = a;
                      positions = positions;
                      observed_at = at;
                      positions_read = b;
                      is_fresh = fresh;
                      nav = last_equity first rest;
                      first = first;
                      rest = rest;
                      equity_read = c;
                      nav_is_last = refl;
                      nav_is_positive = positive;
                      same = reached ∙ same;
                    }
              ]
        ]
      ]
    ]
