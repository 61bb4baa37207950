-- ===== src/Teleop.antt =====
-- `JoyTankDrive`, ros2_ws/src/teleop/src/joy_teleop.cpp: the joystick node. The publisher's message is
-- the result of the callback; an axis or a button that the message does not have is `none`, where the
-- C++ reads out of bounds.
pub mod Laws
mod Tests
use billee_software.Prelude.{
  ℕ, Bool, true, not, Option, none, some, List, [], ◌∷◌, ◌==◌, get_elem?, if◌then◌else◌,
}
use billee_software.Prelude.Int.{ℤ, pos, negsuc}
use billee_software.Declares.{Declares, ◌>>=◌}
use billee_software.Double.{Double, zero_d}

-- `sensor_msgs::msg::Joy`.
pub record Joy (F : Type 0) : Type 0 where
  pub axes : List F
  pub buttons : List ℤ

pub record Vector3 (D : Type 0) : Type 0 where
  pub x : D
  pub y : D
  pub z : D

-- `geometry_msgs::msg::Twist`.
pub record Twist (D : Type 0) : Type 0 where
  pub linear : Vector3 D
  pub angular : Vector3 D

pub record JoyTankDrive (F : Type 0) : Type 0 where
  pub left_axis_id : ℤ
  pub right_axis_id : ℤ
  pub safety_button_id : ℤ
  pub max_vel : F
  pub track_width : F

-- The constructor: an index is an `int`, and the two factors are narrowed to `float`.
pub new_joy_tank_drive :
    {F D : Type 0} ⦃d : Double D⦄ → (D → F) → Declares D → Option (JoyTankDrive F)
new_joy_tank_drive ⦃d⦄ narrow given = do
  left_axis_id ← given.declare_int "left_axis" (pos 0)
  right_axis_id ← given.declare_int "right_axis" (pos 2)
  track_width ← given.declare_double "track_width" (d.decimal (pos 67) 2)
  safety_button_id ← given.declare_int "safety_button" (pos 5)
  max_vel ← given.declare_double "max_vel" (d.decimal (pos 0) 1)
  some (record {
    left_axis_id = left_axis_id;
    right_axis_id = right_axis_id;
    safety_button_id = safety_button_id;
    max_vel = narrow max_vel;
    track_width = narrow track_width;
  })

-- `v[i]` with an `int`.
abbrev pub at {ℓ} : {A : Type ℓ} → List A → ℤ → Option A
at xs (pos i) = get_elem? xs i
at xs (negsuc i) = none

abbrev pub is_pressed : ℤ → Bool
is_pressed (pos n) = not (n == 0)
is_pressed (negsuc n) = true

-- `float` and `double`, with the widening.
module _ {F D : Type 0} ⦃f : Double F⦄ ⦃d : Double D⦄ (widen : F → D) where
  abbrev pub zero_twist : Twist D
  zero_twist = record {
    linear = record { x = zero_d; y = zero_d; z = zero_d };
    angular = record { x = zero_d; y = zero_d; z = zero_d };
  }

  -- The sum and the difference are of floats; dividing by 2.0 widens.
  pub tank_twist : JoyTankDrive F → F → F → Twist D
  tank_twist node left_axis right_axis = record {
    linear = record {
      x =
          d.mul (d.div (widen (f.add left_axis right_axis)) (d.decimal (pos 2) 0))
            (widen node.max_vel);
      y = zero_d;
      z = zero_d;
    };
    angular = record {
      x = zero_d;
      y = zero_d;
      z = widen (f.mul (f.div (f.sub right_axis left_axis) node.track_width) node.max_vel);
    };
  }

  abbrev published : JoyTankDrive F → Option F → Option F → Option ℤ → Option (Twist D)
  published node (some left_axis) (some right_axis) (some button) =
      some (if is_pressed button then tank_twist node left_axis right_axis else zero_twist)
  published node left_axis right_axis button = none

  -- The message that is published.
  pub topic_callback : JoyTankDrive F → Joy F → Option (Twist D)
  topic_callback node msg =
      published node (at msg.axes node.left_axis_id) (at msg.axes node.right_axis_id)
        (at msg.buttons node.safety_button_id)
