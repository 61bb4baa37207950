-- ===== src/Vio/Geometry/Laws.antt =====
-- The loops of `wrap_angle`.
use billee_software.Prelude.{
  ℕ, zero, suc, ◌≤◌, ◌<◌, ◌≡◌, refl, true, false, Option, some, inl, inr, Bool-cases, arith,
}
use billee_software.Double.{Double}
use billee_software.Vio.Geometry.{pi, two_pi, wrap_down, wrap_up, wrap_angle}

-- `In` holds of the angles at which a turn still makes a difference, and `turns` counts those left.
module _ {D : Type 0} ⦃d : Double D⦄ (In : D → Type 0) (turns : D → ℕ)
    (down : (x : D)
      → In x
      → d.lt pi x ≡ true
      → In (d.sub x two_pi) × (turns (d.sub x two_pi) < turns x))
    (up : (x : D)
      → In x
      → d.le x (d.neg pi) ≡ true
      → In (d.add x two_pi) × (turns (d.add x two_pi) < turns x))
    (lands : (x : D) → In x → d.le x (d.neg pi) ≡ true → d.lt pi (d.add x two_pi) ≡ false) where
  wrap_down_lem :
      (fuel : ℕ) (x : D)
      → In x
      → turns x < fuel
      → (y : D) × (wrap_down fuel x ≡ some y) × In y × (turns y ≤ turns x) × (d.lt pi y ≡ false)
  unfolding wrap_down
  wrap_down_lem zero x i h = absurd (omega arith)
  wrap_down_lem (suc fuel) x i h = elim (Bool-cases (d.lt pi x)) [
    | inl t ↦
        let (i', less) = down x i t in
        let (y, e, iy, le, b) = wrap_down_lem fuel (d.sub x two_pi) i' (omega arith) in
        (y, rw (wrap_down, t) e, iy, omega arith, b)
    | inr f ↦ (x, rw (wrap_down, f), i, omega arith, f)
  ]

  wrap_up_lem :
      (fuel : ℕ) (x : D)
      → In x
      → turns x < fuel
      → d.lt pi x ≡ false
      → (y : D) × (wrap_up fuel x ≡ some y) × (d.lt pi y ≡ false) × (d.le y (d.neg pi) ≡ false)
  unfolding wrap_up
  wrap_up_lem zero x i h b = absurd (omega arith)
  wrap_up_lem (suc fuel) x i h b = elim (Bool-cases (d.le x (d.neg pi))) [
    | inl t ↦
        let (i', less) = up x i t in
        let (y, e, b', c) = wrap_up_lem fuel (d.add x two_pi) i' (omega arith) (lands x i t) in
        (y, rw (wrap_up, t) e, b', c)
    | inr f ↦ (x, rw (wrap_up, f), b, f)
  ]

  -- From an angle at which a turn makes a difference, with more fuel than turns are left, both loops
  -- end, and the result is not above pi and not at or below -pi. It needs that a turn up from -pi or
  -- below does not pass pi.
  pub wrap_angle_lem :
      (fuel : ℕ) (x : D)
      → In x
      → turns x < fuel
      → (y : D) × (wrap_angle fuel x ≡ some y) × (d.lt pi y ≡ false) × (d.le y (d.neg pi) ≡ false)
  unfolding wrap_angle
  wrap_angle_lem fuel x i h =
      let (y, e, iy, le, b) = wrap_down_lem fuel x i h in
      let (z, e', b', c) = wrap_up_lem fuel y iy (omega arith) b in
      (z, rw (wrap_angle, e) e', b', c)

-- If a turn does not change an angle above pi, as with an infinite one, no fuel is enough.
pub wrap_angle-stuck :
    {D : Type 0} ⦃d : Double D⦄ (fuel : ℕ) (x : D)
    → d.lt pi x ≡ true
    → d.sub x two_pi ≡ x
    → wrap_angle fuel x ≡ Option.none
unfolding wrap_angle wrap_down
wrap_angle-stuck fuel x t e = rw (wrap_angle, endless fuel)
  where
    endless : (n : ℕ) → wrap_down n x ≡ Option.none
    endless zero = refl
    endless (suc n) = rw (wrap_down, t, e) (endless n)
