-- ===== src/Teleop/Laws.antt =====
-- The safety button of the joystick.
use billee_software.Prelude.{
  ℕ, ◌≡◌, refl, true, some, List, [], ◌∷◌, arith, ◌⊎◌, inl, inr, Bool-cases, ◌<◌, length, get_elem?,
  zero, suc,
}
use billee_software.Prelude.Int.{ℤ, pos, negsuc}
use billee_software.Double.{Double, zero_d}
use billee_software.Teleop.{
  Joy, Twist, JoyTankDrive, at, is_pressed, zero_twist, tank_twist, topic_callback,
}

-- An index into a list.
abbrev pub IsIndex {ℓ} : {A : Type ℓ} → ℤ → List A → Type 0
IsIndex (pos i) xs = i < length xs
IsIndex (negsuc i) xs = zero < zero

at-IsIndex : {A : Type 0} (xs : List A) (i : ℤ) → IsIndex i xs → (a : A) × (at xs i ≡ some a)
at-IsIndex xs (pos i) h = go xs i h
  where
    go : {A : Type 0} (xs : List A) (i : ℕ) → i < length xs → (a : A) × (get_elem? xs i ≡ some a)
    go [] i h = absurd (omega (arith, h))
    go (x ∷ xs) zero h = (x, refl)
    go (x ∷ xs) (suc i) h = go xs i (omega (arith, h))
at-IsIndex xs (negsuc i) h = absurd (omega (arith, h))

-- Only the forward speed and the turning rate may differ from 0.
abbrev pub IsPlanar : {D : Type 0} ⦃d : Double D⦄ → Twist D → Type 0
IsPlanar t =
    (t.linear.y ≡ zero_d) × (t.linear.z ≡ zero_d) × (t.angular.x ≡ zero_d) × (t.angular.y ≡ zero_d)

module _ {F D : Type 0} ⦃f : Double F⦄ ⦃d : Double D⦄ (widen : F → D) where
  -- If the message has the two axes and the button, a twist is published, with no component but the
  -- forward speed and the turning rate; and unless the safety button is pressed it is all 0.
  pub topic_callback-IsPlanar :
      (node : JoyTankDrive F) (msg : Joy F) (button : ℤ)
      → IsIndex node.left_axis_id msg.axes
      → IsIndex node.right_axis_id msg.axes
      → at msg.buttons node.safety_button_id ≡ some button
      → (t : Twist D) × (topic_callback widen node msg ≡ some t)
        × IsPlanar t
        × ((is_pressed button ≡ true) ⊎ (t ≡ zero_twist widen))
  unfolding topic_callback tank_twist
  topic_callback-IsPlanar node msg button l r b =
      let (left, el) = at-IsIndex msg.axes node.left_axis_id l in
      let (right, er) = at-IsIndex msg.axes node.right_axis_id r in
      elim (Bool-cases (is_pressed button)) [
        | inl p ↦ (
          tank_twist widen node left right,
          rw (el, er, b, p) refl,
          (refl, refl, refl, refl),
          inl p,
        )
        | inr p ↦ (zero_twist widen, rw (el, er, b, p) refl, (refl, refl, refl, refl), inr refl)
      ]
