-- ===== src/Pxx/Mock.antt =====
-- `MockMotorBackend`, ros2_ws/src/pxx/src/mock_motor_backend.cpp: an ideal position servo.
pub mod Laws
use billee_software.Prelude.{
  ℕ, Bool, true, false, Option, none, some, List, [], ◌∷◌, ◌==◌, if◌then◌else◌, length, map,
  replicate,
}
use billee_software.Double.{Double, zero_d}
use billee_software.Pxx.Backend.Motion.{JointState, zero_joint}

pub record MockBackend (D : Type 0) : Type 0 where
  pub commands_rad : List D
  pub states : List (JointState D)

module _ {D : Type 0} ⦃d : Double D⦄ where
  open d use {nan, sub, div, lt, is_nan, is_finite}

  unfoldable pub new_mock : ℕ → MockBackend D
  new_mock joint_count = record {
    commands_rad = replicate joint_count nan;
    states = replicate joint_count zero_joint;
  }

  pub mock_activate : MockBackend D → MockBackend D
  mock_activate m = record {
    commands_rad = map (λ _. nan) m.commands_rad;
    states = map (λ _. zero_joint) m.states;
  }

  abbrev at_rest : JointState D → JointState D
  at_rest state = record state { velocity_rad_s = zero_d }

  pub mock_deactivate : MockBackend D → MockBackend D
  mock_deactivate m = record {
    commands_rad = map (λ _. nan) m.commands_rad;
    states = map at_rest m.states;
  }

  -- One joint in one cycle.
  abbrev pub servo : D → D → JointState D → JointState D
  servo period command state =
      let delta = sub command state.position_rad in
      let moved : JointState D = record {
        position_rad = command;
        velocity_rad_s = if lt zero_d period then div delta period else zero_d;
      } in
      if is_nan command then at_rest state else moved

  pub servo_all : D → List D → List (JointState D) → List (JointState D)
  servo_all period (command ∷ commands) (state ∷ states) =
      servo period command state ∷ servo_all period commands states
  servo_all period commands states = states

  -- The result, the caller's states, and the backend.
  pub mock_read :
      D → List (JointState D) → MockBackend D → Bool × List (JointState D) × MockBackend D
  unfolding servo_all
  mock_read period states m =
      let moved = servo_all period m.commands_rad m.states in
      if is_finite period then (true, moved, record m { states = moved }) else (false, states, m)

  pub mock_write : List D → MockBackend D → Bool × MockBackend D
  mock_write commands m =
      if length commands == length m.commands_rad
      then (true, record m { commands_rad = commands })
      else (false, m)
