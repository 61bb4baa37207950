-- ===== src/Vio/Geometry/Rounding.antt =====
-- `wrap_angle` on doubles that are rounded as IEEE 754 says.
use billee_software.Prelude.{
  ℕ, ◌+◌, ◌-◌, ◌*◌, ◌≤◌, ◌<◌, ◌≡◌, ◌∙◌, true, false, some, ltb, leb, arith,
}
use billee_software.Double.{Double}
use billee_software.Vio.Geometry.{pi, two_pi, wrap_angle}
use billee_software.Vio.Geometry.Laws.{wrap_angle_lem}

module _ {D : Type 0} (place : D → ℕ) (centre reach : ℕ) where
  -- The value is at most `reach` units away from 0.
  abbrev pub Within : D → Type 0
  Within x = (centre ≤ place x + reach) × (place x ≤ centre + reach)

-- Every finite double is a whole number of the least positive double. `place x` is this number, counted
-- from `centre` for 0. Up to `reach`, doubles compare by their values; a sum or a difference is at most
-- `slack` from the exact one, and rounding does not take it past a double; the product with 2 is exact,
-- and so is the negative; and the rounding is less than a turn.
pub record IsRounded {D : Type 0} (d : Double D) (place : D → ℕ) (centre reach slack : ℕ)
    : Type 0 where
  pub lt_place :
      (x y : D)
      → Within place centre reach x
      → Within place centre reach y
      → d.lt x y ≡ ltb (place x) (place y)
  pub le_place :
      (x y : D)
      → Within place centre reach x
      → Within place centre reach y
      → d.le x y ≡ leb (place x) (place y)
  pub add_near :
      (x y : D)
      → Within place centre reach x
      → Within place centre reach y
      → (place x + place y ≤ place (d.add x y) + centre + slack)
        × (place (d.add x y) + centre ≤ place x + place y + slack)
  pub sub_near :
      (x y : D)
      → Within place centre reach x
      → Within place centre reach y
      → (place x + centre ≤ place (d.sub x y) + place y + slack)
        × (place (d.sub x y) + place y ≤ place x + centre + slack)
  pub add_below :
      (x y z : D)
      → Within place centre reach x
      → Within place centre reach y
      → Within place centre reach z
      → place x + place y ≤ place z + centre
      → place (d.add x y) ≤ place z
  pub sub_above :
      (x y z : D)
      → Within place centre reach x
      → Within place centre reach y
      → Within place centre reach z
      → place z + place y ≤ place x + centre
      → place z ≤ place (d.sub x y)
  pub double_pi : place (two_pi ⦃d = d⦄) + centre ≡ place (pi ⦃d = d⦄) + place (pi ⦃d = d⦄)
  pub negative_pi : place (d.neg (pi ⦃d = d⦄)) + place (pi ⦃d = d⦄) ≡ centre + centre
  pub turn_in_reach : place (two_pi ⦃d = d⦄) ≤ centre + reach
  pub turn_shows : centre + slack < place (two_pi ⦃d = d⦄)

module _ {D : Type 0} ⦃d : Double D⦄ (place : D → ℕ) (centre reach slack : ℕ)
    (rounded : IsRounded d place centre reach slack) where
  -- Twice the distance from 0, and one more below 0.
  abbrev distance : D → ℕ
  distance x = 2 * (place x - centre) + 2 * (centre - place x) + (1 - (place x + 1 - centre))

  pi-Within : Within place centre reach (pi ⦃d = d⦄)
  pi-Within = omega (arith, rounded.double_pi, rounded.turn_in_reach, rounded.turn_shows)

  two_pi-Within : Within place centre reach (two_pi ⦃d = d⦄)
  two_pi-Within = omega (arith, rounded.turn_in_reach, rounded.turn_shows)

  neg_pi-Within : Within place centre reach (d.neg pi)
  neg_pi-Within =
      omega (arith, rounded.negative_pi, pi-Within, rounded.double_pi, rounded.turn_shows)

  down :
      (x : D)
      → Within place centre reach x
      → d.lt pi x ≡ true
      → Within place centre reach (d.sub x two_pi) × (distance (d.sub x two_pi) < distance x)
  down x w t =
      let above : place pi < place x = ground (arith, t, rounded.lt_place pi x pi-Within w) in
      let near = rounded.sub_near x two_pi w two_pi-Within in
      let high =
        rounded.sub_above x two_pi (d.neg pi) w two_pi-Within neg_pi-Within
          (omega (arith, above, rounded.double_pi, rounded.negative_pi)) in
      (
        omega (arith, near, high, w, above, neg_pi-Within, rounded.turn_shows),
        omega (
          arith, near, high, w, above, rounded.double_pi, rounded.negative_pi, rounded.turn_shows,
        ),
      )

  up_below :
      (x : D)
      → Within place centre reach x
      → d.le x (d.neg pi) ≡ true
      → (place x ≤ place (d.neg pi)) × (place (d.add x two_pi) ≤ place pi)
  up_below x w t =
      let under : place x ≤ place (d.neg pi) =
        ground (arith, t, rounded.le_place x (d.neg pi) w neg_pi-Within) in
      (
        under,
        rounded.add_below x two_pi pi w two_pi-Within pi-Within
            (omega (arith, under, rounded.double_pi, rounded.negative_pi)),
      )

  up :
      (x : D)
      → Within place centre reach x
      → d.le x (d.neg pi) ≡ true
      → Within place centre reach (d.add x two_pi) × (distance (d.add x two_pi) < distance x)
  up x w t =
      let (under, low) = up_below x w t in
      let near = rounded.add_near x two_pi w two_pi-Within in
      (
        omega (arith, near, low, w, under, pi-Within, rounded.turn_shows),
        omega (
          arith, near, low, w, under, rounded.double_pi, rounded.negative_pi, rounded.turn_shows,
        ),
      )

  lands :
      (x : D)
      → Within place centre reach x
      → d.le x (d.neg pi) ≡ true
      → d.lt pi (d.add x two_pi) ≡ false
  lands x w t =
      let low = (up_below x w t).1 in
      rounded.lt_place pi (d.add x two_pi) pi-Within (up x w t).0 ∙ ground (arith, low)

  -- On doubles that are rounded as `IsRounded` says, from any angle within the reach, both loops end,
  -- if the fuel is at least twice the angle's distance from 0, and two more, in units of the least
  -- double; and the result is not above pi and not at or below -pi.
  pub wrap_angle_ends :
      (fuel : ℕ) (x : D)
      → Within place centre reach x
      → 2 * (place x - centre) + 2 * (centre - place x) + 2 ≤ fuel
      → (y : D) × (wrap_angle fuel x ≡ some y) × (d.lt pi y ≡ false) × (d.le y (d.neg pi) ≡ false)
  wrap_angle_ends fuel x w enough =
      wrap_angle_lem (Within place centre reach) distance down up lands fuel x w (omega arith)
