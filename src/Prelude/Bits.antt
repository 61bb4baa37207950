-- ===== src/Prelude/Bits.antt =====
-- What `|` of disjoint bit fields and `&` with a mask of consecutive ones compute, as arithmetic.
use Prim.Native.Nat.{
  ℕ, zero, suc, ◌+◌, ◌-◌, ◌*◌, ◌/◌, ◌%◌, ◌^◌, ◌≤◌, ◌<◌, min, max, bit_and, bit_or, digits, bitwise,
  bit_and-bitwise, bit_or-bitwise,
}
use mathlib.Core.Path.{◌≡◌, refl, ap, ◌∙◌}
use native.Mathlib.Nat.{pow-suc, le_refl}
use native.Mathlib.Omega.{arith}

module _ (over : ℕ → ℕ) (op : ℕ → ℕ → ℕ) where
  -- Any two amounts of fuel that cover the first number give the same digits.
  digits_enough : (a b n k : ℕ) → a ≤ k → a ≤ n → digits over op n a b ≡ digits over op k a b
  digits_enough zero b zero zero p q = refl
  digits_enough zero b zero (suc k) p q = refl
  digits_enough zero b (suc n) zero p q = refl
  digits_enough zero b (suc n) (suc k) p q = refl
  digits_enough (suc a) b zero k p q = absurd (omega arith)
  digits_enough (suc a) b (suc n) zero p q = absurd (omega arith)
  digits_enough (suc a) b (suc n) (suc k) p q =
      ap (λ (t : ℕ). t * 2 + op (suc a % 2) (b % 2))
        (digits_enough (suc a / 2) (b / 2) n k (omega arith) (omega arith))

  pub lowest_digit :
      (a b : ℕ)
      → bitwise over op (suc a) b ≡ bitwise over op (suc a / 2) (b / 2) * 2 + op (suc a % 2) (b % 2)
  lowest_digit a b =
      omega (arith, digits_enough (suc a / 2) (b / 2) a (suc a / 2) (le_refl _) (omega arith))

or_step : (a b : ℕ) → bit_or a b ≡ bit_or (a / 2) (b / 2) * 2 + max (a % 2) (b % 2)
or_step zero b = omega (arith, bit_or-bitwise 0 b, bit_or-bitwise 0 (b / 2))
or_step (suc a) b = omega (
  arith,
  bit_or-bitwise (suc a) b,
  bit_or-bitwise (suc a / 2) (b / 2),
  lowest_digit (λ y. y) max a b,
)

and_step : (a b : ℕ) → bit_and a b ≡ bit_and (a / 2) (b / 2) * 2 + min (a % 2) (b % 2)
and_step zero b = omega (arith, bit_and-bitwise 0 b, bit_and-bitwise 0 (b / 2))
and_step (suc a) b = omega (
  arith,
  bit_and-bitwise (suc a) b,
  bit_and-bitwise (suc a / 2) (b / 2),
  lowest_digit (λ y. 0) min a b,
)

or_zero_below : (n a : ℕ) → a ≤ n → bit_or a 0 ≡ a
or_zero_below n zero h = refl
or_zero_below zero (suc a) h = absurd (omega arith)
or_zero_below (suc n) (suc a) h =
    omega (arith, or_step (suc a) 0, or_zero_below n (suc a / 2) (omega arith))

and_zero_below : (n a : ℕ) → a ≤ n → bit_and a 0 ≡ 0
and_zero_below n zero h = refl
and_zero_below zero (suc a) h = absurd (omega arith)
and_zero_below (suc n) (suc a) h =
    omega (arith, and_step (suc a) 0, and_zero_below n (suc a / 2) (omega arith))

double_pow : (q k : ℕ) → q * 2 ^ suc k ≡ q * 2 ^ k * 2
double_pow q k = omega (arith, ap (λ (t : ℕ). q * t) (pow-suc 2 k))

-- The low `k` bits and what is shifted above them, in either order.
pub or_low_high : (k r q : ℕ) → r < 2 ^ k → bit_or r (q * 2 ^ k) ≡ q * 2 ^ k + r
or_low_high zero r q h =
    let gone : r ≡ 0 = omega arith in
    omega (arith, bit_or-bitwise 0 (q * 2 ^ 0), ap (λ (t : ℕ). bit_or t (q * 2 ^ 0)) gone)
or_low_high (suc k) r q h = ground (
  arith,
  or_step r (q * 2 ^ suc k),
  double_pow q k,
  pow-suc 2 k,
  or_low_high k (r / 2) q (omega (arith, pow-suc 2 k)),
)

pub or_high_low : (k q r : ℕ) → r < 2 ^ k → bit_or (q * 2 ^ k) r ≡ q * 2 ^ k + r
or_high_low zero q r h = ground (arith, or_zero_below q q (le_refl q))
or_high_low (suc k) q r h = ground (
  arith,
  or_step (q * 2 ^ suc k) r,
  double_pow q k,
  pow-suc 2 k,
  or_high_low k q (r / 2) (omega (arith, pow-suc 2 k)),
)

-- `&` with `w` ones keeps the low `w` bits.
and_ones : (w q m : ℕ) → m < 2 ^ w → bit_and (q * 2 ^ w + m) (2 ^ w - 1) ≡ m
and_ones zero q m h = ground (arith, and_zero_below (q + m) (q + m) (le_refl _))
and_ones (suc w) q m h = ground (
  arith,
  and_step (q * 2 ^ suc w + m) (2 ^ suc w - 1),
  double_pow q w,
  pow-suc 2 w,
  and_ones w q (m / 2) (omega (arith, pow-suc 2 w)),
)

-- The bits below the mask's lowest one do not matter.
and_shifted : (k q r m : ℕ) → r < 2 ^ k → bit_and (q * 2 ^ k + r) (m * 2 ^ k) ≡ bit_and q m * 2 ^ k
and_shifted zero q r m h = ground arith
and_shifted (suc k) q r m h = ground (
  arith,
  and_step (q * 2 ^ suc k + r) (m * 2 ^ suc k),
  double_pow q k,
  double_pow m k,
  double_pow (bit_and q m) k,
  pow-suc 2 k,
  and_shifted k q (r / 2) m (omega (arith, pow-suc 2 k)),
)

-- `&` with the ones of positions `k` to `k + w - 1`, at a number split into three fields.
pub and_field :
    (k w q m r : ℕ)
    → m < 2 ^ w
    → r < 2 ^ k
    → bit_and ((q * 2 ^ w + m) * 2 ^ k + r) ((2 ^ w - 1) * 2 ^ k) ≡ m * 2 ^ k
and_field k w q m r hm hr = omega (
  arith,
  and_shifted k (q * 2 ^ w + m) r (2 ^ w - 1) hr,
  ap (λ (t : ℕ). t * 2 ^ k) (and_ones w q m hm),
)

pub and_by_fields :
    (k w a q m r : ℕ)
    → a ≡ (q * 2 ^ w + m) * 2 ^ k + r
    → m < 2 ^ w
    → r < 2 ^ k
    → bit_and a ((2 ^ w - 1) * 2 ^ k) ≡ m * 2 ^ k
and_by_fields k w a q m r e hm hr =
    ap (λ (t : ℕ). bit_and t ((2 ^ w - 1) * 2 ^ k)) e ∙ and_field k w q m r hm hr
