-- ===== src/Words/Laws.antt =====
-- What the byte loops write and read.
use billee_software.Prelude.{
  ℕ, ◌+◌, ◌-◌, ◌*◌, ◌/◌, ◌%◌, ◌^◌, ◌<◌, ◌≡◌, refl, bit_or, List, [], ◌∷◌, arith, length, All,
}
use billee_software.Prelude.Int.{ℤ, pos, negsuc, ◌≤ℤ◌}
use billee_software.Prelude.Bits.{or_low_high}
use billee_software.Words.{get_le, to_int32, to_uint32}

-- One iteration of `get_le`, at the `k`-th bit.
or_byte :
    (k value b : ℕ)
    → value < 2 ^ k
    → b * 2 ^ k < 2 ^ 32
    → bit_or value ((b * 2 ^ k) % 2 ^ 32) ≡ b * 2 ^ k + value
or_byte k value b hv hb =
    let small : (b * 2 ^ k) % 2 ^ 32 ≡ b * 2 ^ k = omega arith in
    rw small (or_low_high k value b hv)

-- The number that four bytes stand for, lowest first.
abbrev pub word : ℕ → ℕ → ℕ → ℕ → ℕ
word a b c d = a + 2 ^ 8 * b + 2 ^ 16 * c + 2 ^ 24 * d

module _ (a b c d e f g h : ℕ)
    (small : All (λ x. x < 256) (a ∷ b ∷ c ∷ d ∷ e ∷ f ∷ g ∷ h ∷ [])) where
  pub get_le_low : get_le (a ∷ b ∷ c ∷ d ∷ e ∷ f ∷ g ∷ h ∷ []) 0 4 ≡ word a b c d
  unfolding get_le
  get_le_low = ground (
    arith,
    or_byte 0 0 a,
    or_byte 8 a b,
    or_byte 16 (b * 2 ^ 8 + a) c,
    or_byte 24 (c * 2 ^ 16 + (b * 2 ^ 8 + a)) d,
  )

  pub get_le_high : get_le (a ∷ b ∷ c ∷ d ∷ e ∷ f ∷ g ∷ h ∷ []) 4 4 ≡ word e f g h
  unfolding get_le
  get_le_high = ground (
    arith,
    or_byte 0 0 e,
    or_byte 8 e f,
    or_byte 16 (f * 2 ^ 8 + e) g,
    or_byte 24 (g * 2 ^ 16 + (f * 2 ^ 8 + e)) h,
  )

  pub get_le_pair : get_le (a ∷ b ∷ c ∷ d ∷ e ∷ f ∷ g ∷ h ∷ []) 0 2 ≡ a + 2 ^ 8 * b
  unfolding get_le
  get_le_pair = ground (arith, or_byte 0 0 a, or_byte 8 a b)

  pub get_le_index : get_le (a ∷ b ∷ c ∷ d ∷ e ∷ f ∷ g ∷ h ∷ []) 1 2 ≡ b + 2 ^ 8 * c
  unfolding get_le
  get_le_index = ground (arith, or_byte 0 0 b, or_byte 8 b c)

-- The four bytes that `put_le` writes stand for the number.
pub word_bytes :
    (v : ℕ)
    → v < 2 ^ 32
    → word (v / 2 ^ 0 % 2 ^ 8) (v / 2 ^ 8 % 2 ^ 8) (v / 2 ^ 16 % 2 ^ 8) (v / 2 ^ 24 % 2 ^ 8) ≡ v
word_bytes v h = omega arith

pub to_uint32-lt : (z : ℤ) → to_uint32 z < 2 ^ 32
to_uint32-lt (pos n) = omega arith
to_uint32-lt (negsuc n) = omega arith

-- A value in the range of `int32_t` survives the two casts.
pub to_int32-to_uint32 :
    (z : ℤ) → negsuc (2 ^ 31 - 1) ≤ℤ z → z ≤ℤ pos (2 ^ 31 - 1) → to_int32 (to_uint32 z) ≡ z
to_int32-to_uint32 (pos n) lo hi = ground arith
to_int32-to_uint32 (negsuc n) lo hi = ground arith

-- And every bit pattern is that of the `int32_t` that it is read as.
pub to_uint32-to_int32 : (w : ℕ) → w < 2 ^ 32 → to_uint32 (to_int32 w) ≡ w
to_uint32-to_int32 w h = ground arith

-- A list of eight elements, taken apart.
pub eight {ℓ} :
    {A : Type ℓ} (xs : List A)
    → length xs ≡ 8
    → (a b c d e f g h : A) × (xs ≡ a ∷ b ∷ c ∷ d ∷ e ∷ f ∷ g ∷ h ∷ [])
eight (a ∷ b ∷ c ∷ d ∷ e ∷ f ∷ g ∷ h ∷ []) n = (a, b, c, d, e, f, g, h, refl)
eight [] n = absurd (omega arith)
eight (a ∷ []) n = absurd (omega arith)
eight (a ∷ b ∷ []) n = absurd (omega arith)
eight (a ∷ b ∷ c ∷ []) n = absurd (omega arith)
eight (a ∷ b ∷ c ∷ d ∷ []) n = absurd (omega arith)
eight (a ∷ b ∷ c ∷ d ∷ e ∷ []) n = absurd (omega arith)
eight (a ∷ b ∷ c ∷ d ∷ e ∷ f ∷ []) n = absurd (omega arith)
eight (a ∷ b ∷ c ∷ d ∷ e ∷ f ∷ g ∷ []) n = absurd (omega arith)
eight (a ∷ b ∷ c ∷ d ∷ e ∷ f ∷ g ∷ h ∷ i ∷ r) n = absurd (omega arith)
