-- ===== src/Risk/Freshness.antt =====
-- src/shrap/risk_compliance/risk_officer/exposure.py: the book of a snapshot that is fresh enough. Times
-- are seconds.
use shrap_firm.Prelude.{ℕ, ◌+◌, ◌*◌, Bool, false, Option, none, some, List, ltb, not, if◌then◌else◌}
use shrap_firm.Prelude.Double.{Double}
use shrap_firm.Risk.Exposure.{Position, BookExposure, make_book}

-- `DEFAULT_MAX_POSITION_AGE`, thirty minutes
abbrev pub max_position_age : ℕ
max_position_age = 30 * 60

-- `assert_positions_usable`: false is ExposureUnavailable
unfoldable pub are_usable : Option ℕ → ℕ → Bool
are_usable none now = false
are_usable (some observed_at) now = not (ltb (observed_at + max_position_age) now)

module _ {F : Type 0} ⦃d : Double F⦄ where
  -- `build_book`
  unfoldable pub build_book : F → List (Position F) → Option ℕ → ℕ → Option (BookExposure F)
  build_book nav positions observed_at now =
      if are_usable observed_at now
      then make_book (record { nav = nav; positions = positions })
      else none
