-- ===== src/Odesc/Mock.antt =====
-- `MockDriveBackend`, ros2_ws/src/odesc/src/mock_drive_backend.cpp: wheels that turn as commanded.
use billee_software.Prelude.{
  ℕ, Bool, true, false, List, ◌∷◌, ◌==◌, if◌then◌else◌, length, map, replicate,
}
use billee_software.Double.{Double, zero_d}
use billee_software.Odesc.Backend.{WheelState, two_pi, rest_wheel}

pub record MockDrive (D : Type 0) : Type 0 where
  pub gear_ratio : D
  pub commands_rad_s : List D
  pub states : List (WheelState D)

module _ {D : Type 0} ⦃d : Double D⦄ where
  open d use {add, mul, div, lt, is_finite}

  pub new_mock_drive : ℕ → D → MockDrive D
  new_mock_drive joint_count gear_ratio = record {
    gear_ratio = gear_ratio;
    commands_rad_s = replicate joint_count zero_d;
    states = replicate joint_count rest_wheel;
  }

  pub mock_drive_activate : MockDrive D → MockDrive D
  mock_drive_activate m = record m {
    commands_rad_s = map (λ _. zero_d) m.commands_rad_s;
    states = map (λ _. rest_wheel) m.states;
  }

  abbrev stopped : WheelState D → WheelState D
  stopped state = record state { velocity_rad_s = zero_d }

  pub mock_drive_deactivate : MockDrive D → MockDrive D
  mock_drive_deactivate m = record m {
    commands_rad_s = map (λ _. zero_d) m.commands_rad_s;
    states = map stopped m.states;
  }

  -- One wheel in one cycle, through the motor's units.
  abbrev pub turn : D → D → D → WheelState D → WheelState D
  turn gear_ratio period command state =
      let motor_turns_s = div (mul command gear_ratio) two_pi in
      let wheel_rad_s = div (mul motor_turns_s two_pi) gear_ratio in
      let moved = add state.position_rad (mul wheel_rad_s period) in
      record {
        position_rad = if lt zero_d period then moved else state.position_rad;
        velocity_rad_s = wheel_rad_s;
      }

  pub turn_all : D → D → List D → List (WheelState D) → List (WheelState D)
  turn_all gear_ratio period (command ∷ commands) (state ∷ states) =
      turn gear_ratio period command state ∷ turn_all gear_ratio period commands states
  turn_all gear_ratio period commands states = states

  -- The result, the caller's states, and the backend.
  pub mock_drive_read :
      D → List (WheelState D) → MockDrive D → Bool × List (WheelState D) × MockDrive D
  unfolding turn_all
  mock_drive_read period states m =
      let turned = turn_all m.gear_ratio period m.commands_rad_s m.states in
      if is_finite period then (true, turned, record m { states = turned }) else (false, states, m)

  pub mock_drive_write : List D → MockDrive D → Bool × MockDrive D
  mock_drive_write commands m =
      if length commands == length m.commands_rad_s
      then (true, record m { commands_rad_s = commands })
      else (false, m)
