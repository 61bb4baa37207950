-- ===== src/Gps/Node/Covariance.antt =====
-- `constructGpsMsg`, against a change of axes of the receiver's covariance matrix.
use billee_software.Prelude.{
  ◌≡◌, refl, sym, ap, Bool, true, false, not, List, [], ◌∷◌, ◌==◌, set, get_elem?, some, replicate,
  if◌then◌else◌, inl, inr, Bool-cases,
}
use billee_software.Double.{Double, zero_d}
use billee_software.Gps.Payload.{PosPayload, CovPayload}
use billee_software.Gps.Node.{CovarianceType, NavSatFix, construct_gps_msg}

-- The axes of a local frame: north, east, down for the receiver; east, north, up for ROS.
pub data Axis : Type 0 where
  first second third : Axis

-- The receiver's axis along which an axis of ROS lies, and whether it points the other way.
abbrev pub axis_of : Axis → Axis
axis_of Axis.first = Axis.second
axis_of Axis.second = Axis.first
axis_of Axis.third = Axis.third

abbrev pub is_reversed : Axis → Bool
is_reversed Axis.first = false
is_reversed Axis.second = false
is_reversed Axis.third = true

abbrev pub row_major {ℓ} : {A : Type ℓ} → (Axis → Axis → A) → List A
row_major f =
    f Axis.first Axis.first
    ∷ f Axis.first Axis.second
    ∷ f Axis.first Axis.third
    ∷ f Axis.second Axis.first
    ∷ f Axis.second Axis.second
    ∷ f Axis.second Axis.third
    ∷ f Axis.third Axis.first
    ∷ f Axis.third Axis.second
    ∷ f Axis.third Axis.third
    ∷ []

module _ {D : Type 0} ⦃d : Double D⦄ where
  open d use {neg, of_float_bits}

  -- The symmetric matrix of the payload.
  abbrev pub received : CovPayload → Axis → Axis → D
  received c Axis.first Axis.first = of_float_bits c.pos_cov_nn
  received c Axis.first Axis.second = of_float_bits c.pos_cov_ne
  received c Axis.first Axis.third = of_float_bits c.pos_cov_nd
  received c Axis.second Axis.first = of_float_bits c.pos_cov_ne
  received c Axis.second Axis.second = of_float_bits c.pos_cov_ee
  received c Axis.second Axis.third = of_float_bits c.pos_cov_ed
  received c Axis.third Axis.first = of_float_bits c.pos_cov_nd
  received c Axis.third Axis.second = of_float_bits c.pos_cov_ed
  received c Axis.third Axis.third = of_float_bits c.pos_cov_dd

  abbrev pub turned : Bool → D → D
  turned reversed x = if reversed then neg x else x

  -- The same matrix in the axes of ROS: each axis that is reversed changes the sign.
  abbrev pub converted : CovPayload → Axis → Axis → D
  converted c i j =
      turned (is_reversed i) (turned (is_reversed j) (received c (axis_of i) (axis_of j)))

  -- What the message says of a covariance that is valid or not.
  abbrev pub Conversion : Bool → CovPayload → NavSatFix D → Type 0
  Conversion false c m =
      (m.position_covariance_type ≡ CovarianceType.unknown)
      × (m.position_covariance ≡ replicate 9 zero_d)
  Conversion true c m =
      let height = converted c Axis.third Axis.third in
      (m.position_covariance_type ≡ CovarianceType.known)
      × (set m.position_covariance 8 height ≡ row_major (converted c))
      × (get_elem? m.position_covariance 8 ≡ some (neg height))

  -- If a negation undoes another, then the covariance of the message is the receiver's, taken from
  -- north, east, down to east, north, up, except for its last entry, the variance of the height,
  -- which has the wrong sign; a covariance that is not valid is sent as unknown, all zero.
  pub construct_gps_msg-Conversion :
      (neg-neg : (x : D) → neg (neg x) ≡ x) (p : PosPayload) (c : CovPayload)
      → Conversion (not (c.pos_cov_valid == 0)) c (construct_gps_msg p c)
  unfolding construct_gps_msg
  construct_gps_msg-Conversion neg-neg p c = elim (Bool-cases (c.pos_cov_valid == 0)) [
    | inl e ↦ rw e (refl, refl)
    | inr e ↦ rw e (refl, refl, ap (λ x. some (neg x)) (sym (neg-neg (of_float_bits c.pos_cov_dd))))
  ]
