-- ===== src/Double.antt =====
-- All that the sources do with a `double`: literals, casts, arithmetic, comparisons, and the calls of
-- <cmath>. The type and its operations are the compiler's and the C library's, so they are an
-- instance that every user takes; what a proof needs of them is among its hypotheses.
use billee_software.Prelude.{ℕ, Bool}
use billee_software.Prelude.Int.{ℤ, pos}

-- `decimal m k` is the literal m * 10^-k.
pub record Double (D : Type 0) : Type 0 where
  pub decimal : ℤ → ℕ → D
  pub of_int : ℤ → D
  pub nan : D
  pub add : D → D → D
  pub sub : D → D → D
  pub mul : D → D → D
  pub div : D → D → D
  pub neg : D → D
  pub lt : D → D → Bool
  pub le : D → D → Bool
  pub eq : D → D → Bool
  pub is_nan : D → Bool
  pub is_finite : D → Bool
  pub lround : D → ℤ
  pub truncate : D → ℤ
  pub sqrt : D → D
  pub abs : D → D
  pub sin : D → D
  pub cos : D → D
  pub hypot : D → D → D
  pub atan2 : D → D → D
  pub max : D → D → D
  pub float_bits : D → ℕ
  pub of_float_bits : ℕ → D

abbrev pub zero_d : {D : Type 0} ⦃d : Double D⦄ → D
zero_d ⦃d⦄ = d.decimal (pos 0) 0
