-- ===== src/Teleop/Tests.antt =====
-- A message with a released safety button, at the node's defaults.
use billee_software.Prelude.{◌≡◌, refl, ◌⊎◌, true, some, [], ◌∷◌, arith}
use billee_software.Prelude.Int.{pos}
use billee_software.Toy.{Toy, toy_double}
use billee_software.Declares.{defaults}
use billee_software.Teleop.{
  new_joy_tank_drive, Joy, Twist, JoyTankDrive, is_pressed, zero_twist, topic_callback,
}
use billee_software.Teleop.Laws.{IsPlanar, topic_callback-IsPlanar}

abbrev node : JoyTankDrive Toy
node = record {
  left_axis_id = pos 0;
  right_axis_id = pos 2;
  safety_button_id = pos 1;
  max_vel = some 1;
  track_width = some 2;
}

abbrev message : Joy Toy
message = record { axes = some 3 ∷ some 0 ∷ some 5 ∷ []; buttons = pos 1 ∷ pos 0 ∷ [] }

topic_callback-IsPlanar_example :
    (t : Twist Toy) × (topic_callback (λ x. x) node message ≡ some t)
    × IsPlanar t
    × ((is_pressed (pos 0) ≡ true) ⊎ (t ≡ zero_twist (λ x. x)))
topic_callback-IsPlanar_example =
    topic_callback-IsPlanar (λ x. x) node message (pos 0) (omega arith) (omega arith) refl

-- The node with no overrides; the axes and the button are those of the source.
joy_tank_drive_made :
    new_joy_tank_drive {F = Toy} {D = Toy} (λ x. x) defaults
    ≡ some (record {
      left_axis_id = pos 0;
      right_axis_id = pos 2;
      safety_button_id = pos 5;
      max_vel = some 0;
      track_width = some 67;
    })
unfolding new_joy_tank_drive
joy_tank_drive_made = refl
