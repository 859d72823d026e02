-- ===== src/Registry/Status.antt =====
-- The lifecycle statuses of src/shrap/research/strategy_registry.py and the moves between them.
use shrap_firm.Prelude.{
  ◌≡◌, ◌↔◌, Bool, true, false, Option, none, some, List, [], ◌∷◌, ◌++◌, arith, Comparable, ◌==◌,
  contains, if◌then◌else◌,
}
use shrap_firm.Prelude.Text.{Text, text_eq, text_eq_iff}

-- A status column or argument: one of the eight constants, or any other text.
pub data Status : Type 0 where
  hypothesis paper small_size_paper live_paper : Status
  kill_review kill_review_mike killed retired : Status
  unknown : Text → Status

unfoldable pub status_eq : Status → Status → Bool
status_eq hypothesis hypothesis = true
status_eq paper paper = true
status_eq small_size_paper small_size_paper = true
status_eq live_paper live_paper = true
status_eq kill_review kill_review = true
status_eq kill_review_mike kill_review_mike = true
status_eq killed killed = true
status_eq retired retired = true
status_eq (unknown s) (unknown t) = text_eq s t
status_eq _ _ = false

pub status_eq_iff : (s t : Status) → (status_eq s t ≡ true) ↔ (s ≡ t)
unfolding status_eq
status_eq_iff (unknown s) (unknown t) = ground (arith, text_eq_iff s t)
status_eq_iff _ _ = ground arith

instance abbrev pub status_Eq : Comparable Status
status_Eq = record { equal = status_eq; equal_iff = status_eq_iff }

-- `PROMOTION_PATH`
abbrev pub promotion_path : List Status
promotion_path = hypothesis ∷ paper ∷ small_size_paper ∷ live_paper ∷ []

-- `TERMINAL_STATUSES`
abbrev pub terminal_statuses : List Status
terminal_statuses = killed ∷ retired ∷ []

-- `ALL_STATUSES`
abbrev pub all_statuses : List Status
all_statuses = promotion_path ++ (terminal_statuses ++ (kill_review ∷ kill_review_mike ∷ []))

-- `ALLOWED_TRANSITIONS.get(s, frozenset())`
unfoldable pub allowed_transitions : Status → List Status
allowed_transitions hypothesis = paper ∷ kill_review ∷ killed ∷ retired ∷ []
allowed_transitions paper = small_size_paper ∷ kill_review ∷ killed ∷ retired ∷ []
allowed_transitions small_size_paper = live_paper ∷ kill_review ∷ killed ∷ retired ∷ []
allowed_transitions live_paper = kill_review ∷ killed ∷ retired ∷ []
allowed_transitions kill_review = killed ∷ kill_review_mike ∷ promotion_path
allowed_transitions kill_review_mike = killed ∷ promotion_path
allowed_transitions killed = []
allowed_transitions retired = []
allowed_transitions (unknown _) = []

unfoldable pub is_allowed : Status → Status → Bool
unfolding allowed_transitions status_eq
is_allowed from to = contains (allowed_transitions from) to

-- The streams that lifecycle events go to.
pub data Stream : Type 0 where
  registered promoted demoted killed_stream retired_stream : Stream

unfoldable pub stream_for_transition : Option Status → Status → Stream
stream_for_transition none to = registered
stream_for_transition (some from) to =
    if to == killed
    then killed_stream
    else if to == retired
    then retired_stream
    else if contains (kill_review ∷ kill_review_mike ∷ []) to
    then demoted
    else promoted
