-- ===== src/Examples/Numbers.antt =====
-- A number type for the examples: hundredths, with a sign.
use shrap_firm.Prelude.{
  ℕ, suc, ◌+◌, ◌-◌, ◌*◌, ◌/◌, ◌≡◌, refl, Bool, true, false, arith, leb, if◌then◌else◌,
}
use shrap_firm.Prelude.Double.{Double, IsOrdered}

-- `negsuc n` is `-(n + 1)` hundredths.
pub data Hundredths : Type 0 where
  pos negsuc : ℕ → Hundredths

unfoldable pub le : Hundredths → Hundredths → Bool
le (pos a) (pos b) = leb a b
le (pos a) (negsuc b) = false
le (negsuc a) (pos b) = true
le (negsuc a) (negsuc b) = leb b a

abbrev pub neg_of : ℕ → Hundredths
neg_of n = if leb n 0 then pos 0 else negsuc (n - 1)

abbrev minus : ℕ → ℕ → Hundredths
minus a b = if leb b a then pos (a - b) else neg_of (b - a)

unfoldable pub neg : Hundredths → Hundredths
neg (pos a) = neg_of a
neg (negsuc a) = pos (suc a)

unfoldable pub add : Hundredths → Hundredths → Hundredths
add (pos a) (pos b) = pos (a + b)
add (pos a) (negsuc b) = minus a (suc b)
add (negsuc a) (pos b) = minus b (suc a)
add (negsuc a) (negsuc b) = negsuc (suc (a + b))

abbrev pub size : Hundredths → ℕ
size (pos a) = a
size (negsuc a) = suc a

abbrev signed : Hundredths → Hundredths → ℕ → Hundredths
signed (pos a) (negsuc b) n = neg_of n
signed (negsuc a) (pos b) n = neg_of n
signed x y n = pos n

unfoldable pub mul : Hundredths → Hundredths → Hundredths
mul x y = signed x y (size x * size y / 100)

unfoldable pub div : Hundredths → Hundredths → Hundredths
div x y = signed x y (size x * 100 / size y)

instance abbrev pub Hundredths_Double : Double Hundredths
Hundredths_Double = record {
  nought = pos 0;
  one = pos 100;
  add = add;
  sub = λ x y. add x (neg y);
  mul = mul;
  div = div;
  neg = neg;
  le = le;
}

le_refl : (a : Hundredths) → le a a ≡ true
unfolding le
le_refl (pos a) = ground arith
le_refl (negsuc a) = ground arith

le_trans : (a b c : Hundredths) → le a b ≡ true → le b c ≡ true → le a c ≡ true
unfolding le
le_trans (pos a) (pos b) (pos c) h k = ground arith
le_trans (negsuc a) (negsuc b) (negsuc c) h k = ground arith
le_trans (negsuc a) b (pos c) h k = refl
le_trans a b c h k = ground arith

le_total : (a b : Hundredths) → le a b ≡ false → le b a ≡ true
unfolding le
le_total (pos a) (pos b) h = ground arith
le_total (negsuc a) (negsuc b) h = ground arith
le_total a b h = ground arith

pub Hundredths-IsOrdered : IsOrdered Hundredths
Hundredths-IsOrdered = record { le_refl = le_refl; le_trans = le_trans; le_total = le_total }
