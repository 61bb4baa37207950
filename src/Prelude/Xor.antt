-- ===== src/Prelude/Xor.antt =====
-- `^` on numbers, as arithmetic: it cancels, it goes digit by digit, and so `x ^ (x >> k)` and the
-- multiplication by an odd constant are one to one.
use Prim.Native.Nat.{
  ℕ, zero, suc, ◌+◌, ◌*◌, ◌/◌, ◌%◌, ◌^◌, ◌≤◌, ◌<◌, differ, bit_xor, bit_xor-bitwise,
}
use mathlib.Core.Path.{◌≡◌, refl, sym, ap, ap₂, ◌∙◌}
use native.Mathlib.Nat.{pow-suc, div-div-eq-div-mul, div-le_self}
use native.Mathlib.Omega.{arith}
use billee_software.Prelude.Bits.{lowest_digit}

xor_step : (a b : ℕ) → bit_xor a b ≡ bit_xor (a / 2) (b / 2) * 2 + differ (a % 2) (b % 2)
xor_step zero b = omega (arith, bit_xor-bitwise 0 b, bit_xor-bitwise 0 (b / 2))
xor_step (suc a) b = omega (
  arith,
  bit_xor-bitwise (suc a) b,
  bit_xor-bitwise (suc a / 2) (b / 2),
  lowest_digit (λ y. y) differ a b,
)

-- Two digits.
differ_bits : (x y : ℕ) → x < 2 → y < 2 → (differ x y < 2) × (differ (differ x y) y ≡ x)
differ_bits zero zero hx hy = (omega arith, refl)
differ_bits zero (suc zero) hx hy = (omega arith, refl)
differ_bits (suc zero) zero hx hy = (omega arith, refl)
differ_bits (suc zero) (suc zero) hx hy = (omega arith, refl)
differ_bits (suc (suc x)) y hx hy = absurd (omega arith)
differ_bits zero (suc (suc y)) hx hy = absurd (omega arith)
differ_bits (suc zero) (suc (suc y)) hx hy = absurd (omega arith)

-- The two parts of an exclusive or.
xor_parts :
    (a b : ℕ)
    → (bit_xor a b / 2 ≡ bit_xor (a / 2) (b / 2)) × (bit_xor a b % 2 ≡ differ (a % 2) (b % 2))
xor_parts a b =
    let small = (differ_bits (a % 2) (b % 2) (omega arith) (omega arith)).0 in
    omega (arith, xor_step a b, small)

xor_zero : (n : ℕ) → bit_xor 0 n ≡ n
xor_zero n = bit_xor-bitwise 0 n

-- Any bound of the two numbers serves as the count of digits.
xor_cancel_below : (n a b : ℕ) → a ≤ n → b ≤ n → bit_xor (bit_xor a b) b ≡ a
xor_cancel_below zero zero zero ha hb = refl
xor_cancel_below zero zero (suc b) ha hb = absurd (omega arith)
xor_cancel_below zero (suc a) b ha hb = absurd (omega arith)
xor_cancel_below (suc n) a b ha hb =
    let (half, low) = xor_parts a b in
    let high =
      ap (λ t. bit_xor t (b / 2)) half
      ∙ xor_cancel_below n (a / 2) (b / 2) (omega arith) (omega arith) in
    let bit =
      ap (λ t. differ t (b % 2)) low
      ∙ (differ_bits (a % 2) (b % 2) (omega arith) (omega arith)).1 in
    omega (arith, xor_step (bit_xor a b) b, high, bit)

pub xor_cancel : (a b : ℕ) → bit_xor (bit_xor a b) b ≡ a
xor_cancel a b = xor_cancel_below (a + b) a b (omega arith) (omega arith)

div_pow : (a k : ℕ) → a / 2 ^ suc k ≡ a / 2 / 2 ^ k
div_pow a k = ap (λ t. a / t) (omega (arith, pow-suc 2 k)) ∙ sym (div-div-eq-div-mul a 2 (2 ^ k))

-- A shift goes through.
pub shift_xor : (k a b : ℕ) → bit_xor a b / 2 ^ k ≡ bit_xor (a / 2 ^ k) (b / 2 ^ k)
shift_xor zero a b = omega arith ∙ ap₂ bit_xor (whole a) (whole b)
  where
    whole : (n : ℕ) → n ≡ n / 2 ^ 0
    whole n = omega arith
shift_xor (suc k) a b =
    div_pow (bit_xor a b) k
    ∙ ap (λ t. t / 2 ^ k) (xor_parts a b).0
    ∙ shift_xor k (a / 2) (b / 2)
    ∙ ap₂ bit_xor (sym (div_pow a k)) (sym (div_pow b k))

pub xor-lt : (w a b : ℕ) → a < 2 ^ w → b < 2 ^ w → bit_xor a b < 2 ^ w
xor-lt zero zero zero ha hb = omega arith
xor-lt zero zero (suc b) ha hb = absurd (omega arith)
xor-lt zero (suc a) b ha hb = absurd (omega arith)
xor-lt (suc w) a b ha hb =
    let small = (differ_bits (a % 2) (b % 2) (omega arith) (omega arith)).0 in
    omega (
      arith,
      pow-suc 2 w,
      xor_step a b,
      small,
      xor-lt w (a / 2) (b / 2) (omega (arith, pow-suc 2 w)) (omega (arith, pow-suc 2 w)),
    )

-- `x ^ (x >> k)`.
abbrev pub xor_shift : ℕ → ℕ → ℕ
xor_shift k x = bit_xor x (x / 2 ^ k)

-- A shift by one or more takes a bit away.
shifted_small : (n k x : ℕ) → 1 ≤ k → x < 2 ^ suc n → x / 2 ^ k < 2 ^ n
shifted_small n zero x hk hx = absurd (omega arith)
shifted_small n (suc k) x hk hx =
    omega (arith, pow-suc 2 n, div_pow x k, div-le_self (x / 2) (2 ^ k))

-- It is one to one, if it shifts.
pub xor_shift-injective :
    (n k x y : ℕ) → x < 2 ^ n → y < 2 ^ n → 1 ≤ k → xor_shift k x ≡ xor_shift k y → x ≡ y
xor_shift-injective zero k x y hx hy hk e = omega arith
xor_shift-injective (suc n) k x y hx hy hk e =
    let high : x / 2 ^ k ≡ y / 2 ^ k =
      xor_shift-injective n k (x / 2 ^ k) (y / 2 ^ k) (shifted_small n k x hk hx)
        (shifted_small n k y hk hy) hk
        (sym (shift_xor k x (x / 2 ^ k)) ∙ ap (λ t. t / 2 ^ k) e ∙ shift_xor k y (y / 2 ^ k)) in
    sym (xor_cancel x (x / 2 ^ k)) ∙ ap₂ bit_xor e high ∙ xor_cancel y (y / 2 ^ k)

differ_comm : (x y : ℕ) → differ x y ≡ differ y x
differ_comm zero zero = refl
differ_comm zero (suc y) = refl
differ_comm (suc x) zero = refl
differ_comm (suc x) (suc y) = differ_comm x y

xor_comm_below : (n a b : ℕ) → a ≤ n → b ≤ n → bit_xor a b ≡ bit_xor b a
xor_comm_below zero zero zero ha hb = refl
xor_comm_below zero zero (suc b) ha hb = absurd (omega arith)
xor_comm_below zero (suc a) b ha hb = absurd (omega arith)
xor_comm_below (suc n) a b ha hb = omega (
  arith,
  xor_step a b,
  xor_step b a,
  differ_comm (a % 2) (b % 2),
  xor_comm_below n (a / 2) (b / 2) (omega arith) (omega arith),
)

-- A number that is the same on both sides can be dropped.
pub xor-injective : (s a b : ℕ) → bit_xor s a ≡ bit_xor s b → a ≡ b
xor-injective s a b e =
    let turn = λ (c : ℕ). xor_comm_below (c + s) c s (omega arith) (omega arith) in
    sym (xor_cancel a s) ∙ ap (λ t. bit_xor t s) (turn a ∙ e ∙ sym (turn b)) ∙ xor_cancel b s
