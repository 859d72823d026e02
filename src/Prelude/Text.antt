-- ===== src/Prelude/Text.antt =====
-- Python's `str` as a list of code points, with the three methods that the program calls. They are
-- modelled on ASCII: other letters have no case here, and only ASCII whitespace is stripped.
use Prim.Native.Char.{code}
use Prim.Native.String.{String}
use Prim.Native.Nat.{ℕ, ◌+◌, ◌-◌}
use mathlib.Core.Path.{◌≡◌, refl}
use mathlib.Core.Logic.{◌↔◌}
use mathlib.Core.Bool.{Bool, true, false, ◌&&◌, ◌||◌}
use mathlib.Core.List.{List, [], ◌∷◌, map, reverse}
use native.Mathlib.Omega.{arith}
use shrap_firm.Prelude.Tests.{leb, nat_eq, if◌then◌else◌}
use shrap_firm.Prelude.Equality.{Comparable, list_eq, list_eq_iff, nat_Eq}

abbrev pub Text : Type 0
Text = List ℕ

abbrev pub codes : String → Text
codes String.[] = []
codes (String.◌∷◌ c s) = code c ∷ codes s

-- Shut, so that the tactics see one Boolean; `text_Eq.equal_iff` says what it decides.
unfoldable pub text_eq : Text → Text → Bool
unfolding list_eq
text_eq s t = list_eq s t

pub text_eq_iff : (s t : Text) → (text_eq s t ≡ true) ↔ (s ≡ t)
unfolding text_eq
text_eq_iff s t = list_eq_iff s t

instance abbrev pub text_Eq : Comparable Text
text_Eq = record { equal = text_eq; equal_iff = text_eq_iff }

-- `not s`
abbrev pub is_empty : Text → Bool
is_empty [] = true
is_empty (_ ∷ _) = false

unfoldable pub upper_code : ℕ → ℕ
upper_code c = if leb 97 c && leb c 122 then c - 32 else c

unfoldable pub lower_code : ℕ → ℕ
lower_code c = if leb 65 c && leb c 90 then c + 32 else c

-- Tab to carriage return, the four separators, and the blank.
unfoldable pub is_space : ℕ → Bool
is_space c = (leb 9 c && leb c 13) || ((leb 28 c && leb c 31) || nat_eq c 32)

unfoldable pub strip_left : Text → Text
unfolding is_space
strip_left [] = []
strip_left (c ∷ s) = let rest = strip_left s in if is_space c then rest else c ∷ s

unfoldable pub strip_right : Text → Text
unfolding strip_left
strip_right s = reverse (strip_left (reverse s))

unfoldable pub strip : Text → Text
unfolding strip_left strip_right
strip s = strip_right (strip_left s)

unfoldable pub upper : Text → Text
unfolding upper_code
upper s = map upper_code s

unfoldable pub lower : Text → Text
unfolding lower_code
lower s = map lower_code s

upper_code_idem : (c : ℕ) → upper_code (upper_code c) ≡ upper_code c
unfolding upper_code
upper_code_idem c = ground arith

pub upper_idem : (s : Text) → upper (upper s) ≡ upper s
unfolding upper
upper_idem [] = refl
upper_idem (c ∷ s) = ground (arith, upper_code_idem c, upper_idem s)

strip_works : strip (codes "  tsla ") ≡ codes "tsla"
unfolding strip
strip_works = refl
