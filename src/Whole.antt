-- ===== src/Whole.antt =====
-- Signed whole numbers in the place of doubles, for the examples.
use billee_software.Prelude.{
  ℕ, zero, suc, ◌+◌, ◌-◌, ◌*◌, ◌/◌, Bool, true, false, ltb, leb, ◌==◌, if◌then◌else◌,
}
use billee_software.Prelude.Int.{ℤ, pos, negsuc}
use billee_software.Double.{Double}

-- m - n.
abbrev pub less : ℕ → ℕ → ℤ
less m n = if leb n m then pos (m - n) else negsuc (n - m - 1)

abbrev pub negative : ℤ → ℤ
negative (pos zero) = pos zero
negative (pos (suc n)) = negsuc n
negative (negsuc n) = pos (suc n)

abbrev size : ℤ → ℕ
size (pos n) = n
size (negsuc n) = suc n

abbrev plus : ℤ → ℤ → ℤ
plus (pos a) (pos b) = pos (a + b)
plus (pos a) (negsuc b) = less a (suc b)
plus (negsuc a) (pos b) = less b (suc a)
plus (negsuc a) (negsuc b) = negsuc (a + b + 1)

abbrev signed : ℤ → ℤ → ℕ → ℤ
signed (pos a) (pos b) n = pos n
signed (pos a) (negsuc b) n = negative (pos n)
signed (negsuc a) (pos b) n = negative (pos n)
signed (negsuc a) (negsuc b) n = pos n

abbrev below : ℤ → ℤ → Bool
below (pos a) (pos b) = ltb a b
below (pos a) (negsuc b) = false
below (negsuc a) (pos b) = true
below (negsuc a) (negsuc b) = ltb b a

abbrev same : ℤ → ℤ → Bool
same (pos a) (pos b) = a == b
same (pos a) (negsuc b) = false
same (negsuc a) (pos b) = false
same (negsuc a) (negsuc b) = a == b

abbrev up_to : ℤ → ℤ → Bool
up_to a b = if same a b then true else below a b

instance abbrev pub whole_double : Double ℤ
whole_double = record {
  decimal = λ m k. m;
  of_int = λ x. x;
  nan = pos 0;
  add = plus;
  sub = λ x y. plus x (negative y);
  mul = λ x y. signed x y (size x * size y);
  div = λ x y. signed x y (size x / size y);
  neg = negative;
  lt = below;
  le = up_to;
  eq = same;
  is_nan = λ x. false;
  is_finite = λ x. true;
  lround = λ x. x;
  truncate = λ x. x;
  sqrt = λ x. x;
  abs = λ x. pos (size x);
  sin = λ x. x;
  cos = λ x. x;
  hypot = λ x y. pos (size x + size y);
  atan2 = λ x y. x;
  max = λ x y. if below x y then y else x;
  float_bits = size;
  of_float_bits = pos;
}
