-- ===== src/Runner/Sizing.antt =====
-- src/shrap/research/strategy_runner/sizing.py and regime_router.py. Times are seconds; the texts that
-- explain a size are left out.
use shrap_firm.Prelude.{
  ℕ, ◌+◌, ◌*◌, ◌≡◌, Bool, true, false, not, ◌&&◌, ◌||◌, Option, none, some, List, [], ◌∷◌, arith,
  ltb, if◌then◌else◌, contains,
}
use shrap_firm.Prelude.Text.{Text, text_Eq}
use shrap_firm.Prelude.Double.{Double, IsOrdered, ◌<=◌, ◌<<◌}

-- `DEFAULT_MAX_EQUITY_AGE`, thirty minutes
abbrev pub max_equity_age : ℕ
max_equity_age = 30 * 60

module _ {F : Type 0} ⦃d : Double F⦄ where
  -- `assert_equity_usable`; `none` is SizingRefused
  unfoldable pub assert_equity_usable : Option F → Option ℕ → ℕ → Option F
  assert_equity_usable none observed_at now = none
  assert_equity_usable (some equity) none now = none
  assert_equity_usable (some equity) (some observed_at) now =
      if equity <= d.nought
      then none
      else if ltb (observed_at + max_equity_age) now
      then none
      else some equity

  -- `size_position`, its quantity; `none` is SizingRefused. The least slot is one dollar.
  unfoldable pub size_position : F → F → F → F → Option F
  size_position target_weight equity price max_quantity =
      let notional = d.mul target_weight equity in
      let quantity = d.div notional price in
      if price <= d.nought
      then none
      else if target_weight <= d.nought
      then some d.nought
      else if notional << d.one
      then some d.nought
      else some (if max_quantity << quantity then max_quantity else quantity)

  -- A size that can be traded is at most the cap.
  pub size_position-le :
      IsOrdered F
      → (weight equity price cap quantity : F)
      → size_position weight equity price cap ≡ some quantity
      → (d.nought << quantity) ≡ true
      → (quantity <= cap) ≡ true
  unfolding size_position
  size_position-le laws weight equity price cap quantity sized positive =
      ground (arith, laws.le_refl cap, laws.le_refl d.nought)

abbrev pub listed : Option (List Text) → List Text
listed none = []
listed (some labels) = labels

abbrev is_nil : List Text → Bool
is_nil [] = true
is_nil (_ ∷ _) = false

-- `is_dormant`
unfoldable pub is_dormant : Option Text → Option (List Text) → Option (List Text) → Bool
is_dormant none fit kill = false
is_dormant (some regime) fit kill =
    (not (is_nil (listed kill)) && contains (listed kill) regime)
    || (not (is_nil (listed fit)) && not (contains (listed fit) regime))
