-- ===== src/Vio/Geometry.antt =====
-- ros2_ws/src/perception/zed2i/include/zed2i/geometry_utils.hpp. The loops of `wrap_angle` run on fuel:
-- `none` means that they have not ended.
pub mod Laws
pub mod Rounding
mod Tests
use billee_software.Prelude.{ℕ, zero, suc, Bool, true, false, Option, none, some}
use billee_software.Prelude.Int.{ℤ, pos}
use billee_software.Double.{Double, zero_d}

-- `geometry_msgs::msg::Quaternion`.
pub record Quaternion (D : Type 0) : Type 0 where
  pub x : D
  pub y : D
  pub z : D
  pub w : D

module _ {D : Type 0} ⦃d : Double D⦄ where
  open d use {decimal, add, sub, mul, neg, lt, le, atan2, sin, cos}

  abbrev pub pi : D
  pi = decimal (pos 314159265358979323846) 20

  abbrev pub two_pi : D
  two_pi = mul (decimal (pos 2) 0) pi

  -- `while (angle > kPi) angle -= 2.0 * kPi`.
  pub wrap_down : ℕ → D → Option D
  wrap_down zero angle = none
  wrap_down (suc fuel) angle = elim (lt pi angle) [
    | true ↦ wrap_down fuel (sub angle two_pi)
    | false ↦ some angle
  ]

  -- `while (angle <= -kPi) angle += 2.0 * kPi`.
  pub wrap_up : ℕ → D → Option D
  wrap_up zero angle = none
  wrap_up (suc fuel) angle = elim (le angle (neg pi)) [
    | true ↦ wrap_up fuel (add angle two_pi)
    | false ↦ some angle
  ]

  unfoldable pub wrap_angle : ℕ → D → Option D
  unfolding wrap_down wrap_up
  wrap_angle fuel angle = elim (wrap_down fuel angle) [
    | none ↦ none
    | some lowered ↦ wrap_up fuel lowered
  ]

  abbrev one : D
  one = decimal (pos 1) 0

  abbrev two : D
  two = decimal (pos 2) 0

  unfoldable pub yaw_from_quaternion : Quaternion D → D
  yaw_from_quaternion q =
      let siny_cosp = mul two (add (mul q.w q.z) (mul q.x q.y)) in
      let cosy_cosp = sub one (mul two (add (mul q.y q.y) (mul q.z q.z))) in
      atan2 siny_cosp cosy_cosp

  -- A new message has 0 in `x` and `y`, and `z` and `w` are set.
  unfoldable pub quaternion_from_yaw : D → Quaternion D
  quaternion_from_yaw yaw =
      let half = mul yaw (decimal (pos 5) 1) in
      record { x = zero_d; y = zero_d; z = sin half; w = cos half }
