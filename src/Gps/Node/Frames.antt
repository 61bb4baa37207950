-- ===== src/Gps/Node/Frames.antt =====
-- Which bytes are taken for a message.
use Prim.Native.Nat.{bit_xor, bit_xor-bitwise}
use billee_software.Prelude.{
  ℕ, ◌+◌, ◌*◌, ◌/◌, ◌^◌, ◌<◌, ◌≡◌, refl, sym, ap, ◌∙◌, ◌↔◌, ◌⊎◌, inl, inr, ◌||◌, none, some, List,
  [], ◌∷◌, ◌==◌, ==_iff, if◌then◌else◌, All, Bool-cases, bit_or, bit_and, arith,
}
use billee_software.Prelude.Bits.{or_high_low, and_by_fields}
use billee_software.Prelude.Xor.{xor_cancel}
use billee_software.Gps.Node.{valid_header, pos_id, cov_id, header_of, message_id}

xor_test : (x v : ℕ) → (bit_xor v v ≡ 0) → (bit_xor x v == 0) ≡ (x == v)
xor_test x v same = elim (Bool-cases (x == v)) [
  | inl h ↦
      let e : x ≡ v = (==_iff x v).0 h in
      (==_iff (bit_xor x v) 0).1 (ap (λ t. bit_xor t v) e ∙ same) ∙ sym h
  | inr h ↦ elim (Bool-cases (bit_xor x v == 0)) [
    | inl k ↦
        let e : x ≡ v =
          sym (xor_cancel x v)
          ∙ ap (λ t. bit_xor t v) ((==_iff (bit_xor x v) 0).0 k)
          ∙ bit_xor-bitwise 0 v in
        k ∙ sym ((==_iff x v).1 e)
    | inr k ↦ k ∙ sym h
  ]
]

-- The choice that the two tests make.
chosen :
    (h l id : ℕ)
    → ((if h == valid_header
          then (if (l == cov_id) || (l == pos_id) then some l else none)
          else none)
        ≡ some id)
      ↔ ((h ≡ valid_header) × (((l ≡ pos_id) × (id ≡ pos_id)) ⊎ ((l ≡ cov_id) × (id ≡ cov_id))))
chosen h l id = ground arith

module _ (b0 b1 b2 b3 : ℕ) (rest : List ℕ)
    (small : All (λ b. b < 256) (b0 ∷ b1 ∷ b2 ∷ b3 ∷ [])) where
  header_of_lem : header_of (b0 ∷ b1 ∷ b2 ∷ b3 ∷ rest) ≡ (b0 * 256 + b1) * 2 ^ 16 + (b2 * 256 + b3)
  unfolding header_of
  header_of_lem =
      let (h0, (h1, (h2, (h3, _)))) = small in
      let first : bit_or (b0 * 2 ^ 24) (b1 * 2 ^ 16) ≡ (b0 * 256 + b1) * 2 ^ 16 =
        or_high_low 24 b0 (b1 * 2 ^ 16) (omega arith) ∙ omega arith in
      let second : bit_or ((b0 * 256 + b1) * 2 ^ 16) (b2 * 2 ^ 8)
          ≡ ((b0 * 256 + b1) * 256 + b2) * 2 ^ 8 =
        or_high_low 16 (b0 * 256 + b1) (b2 * 2 ^ 8) (omega arith) ∙ omega arith in
      ap (λ t. bit_or (bit_or t (b2 * 2 ^ 8)) b3) first
      ∙ ap (λ t. bit_or t b3) second
      ∙ or_high_low 8 ((b0 * 256 + b1) * 256 + b2) b3 h3
      ∙ omega arith

  tests : message_id (b0 ∷ b1 ∷ b2 ∷ b3 ∷ rest) ≡ (
      if b0 * 256 + b1 == valid_header
      then (if (b2 * 256 + b3 == cov_id) || (b2 * 256 + b3 == pos_id)
          then some (b2 * 256 + b3)
          else none)
      else none)
  unfolding message_id
  tests =
      let (h0, (h1, (h2, (h3, _)))) = small in
      let high : header_of (b0 ∷ b1 ∷ b2 ∷ b3 ∷ rest) / 2 ^ 16 ≡ b0 * 256 + b1 =
        omega (arith, header_of_lem) in
      let low : bit_and (header_of (b0 ∷ b1 ∷ b2 ∷ b3 ∷ rest)) 0xFFFF ≡ b2 * 256 + b3 =
        and_by_fields 0 16 (header_of (b0 ∷ b1 ∷ b2 ∷ b3 ∷ rest)) (b0 * 256 + b1) (b2 * 256 + b3) 0
          (omega (arith, header_of_lem)) (omega arith) (omega arith)
        ∙ omega arith in
      rw (high, xor_test (b0 * 256 + b1) valid_header refl, low)

  -- A buffer is a message exactly if it begins with the bytes b5 62, and then 01 36 for a position or
  -- 29 36 for a covariance.
  pub message_id_lem :
      (id : ℕ)
      → (message_id (b0 ∷ b1 ∷ b2 ∷ b3 ∷ rest) ≡ some id) ↔ (
          (b0 ≡ 0xb5)
          × (b1 ≡ 0x62)
          × (b3 ≡ 0x36)
          × (((b2 ≡ 0x01) × (id ≡ pos_id)) ⊎ ((b2 ≡ 0x29) × (id ≡ cov_id))))
  message_id_lem id =
      let (h0, (h1, (h2, (h3, _)))) = small in
      let (there, back) = chosen (b0 * 256 + b1) (b2 * 256 + b3) id in
      (
        λ e.
            let (h, which) = there (sym tests ∙ e) in
            (
              omega arith,
              omega arith,
              elim which [ inl (l, _) ↦ omega arith | inr (l, _) ↦ omega arith ],
              elim which [ inl (l, i) ↦ inl (omega arith, i) | inr (l, i) ↦ inr (omega arith, i) ],
            ),
        λ (e0, e1, e3, which).
            tests
            ∙ back (
              omega arith,
              elim which [ inl (l, i) ↦ inl (omega arith, i) | inr (l, i) ↦ inr (omega arith, i) ],
            ),
      )
