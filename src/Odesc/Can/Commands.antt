-- ===== src/Odesc/Can/Commands.antt =====
-- The commands of ODrive CANSimple: the enumeration of ros2_ws/src/odesc/include/odesc/can.hpp.
use billee_software.Prelude.{ℕ, ◌≡◌, refl, some, List, [], ◌∷◌, get_elem?}

pub data Command : Type 0 where
  co_nmt_ctrl odrive_heartbeat odrive_estop get_motor_error get_encoder_error : Command
  get_sensorless_error set_axis_node_id set_axis_requested_state set_axis_startup_config : Command
  get_encoder_estimates get_encoder_count set_controller_modes set_input_pos : Command
  set_input_vel set_input_torque set_limits start_anticogging set_traj_vel_limit : Command
  set_traj_accel_limits set_traj_inertia get_iq get_sensorless_estimates reboot_odrive : Command
  get_vbus_voltage clear_errors set_linear_count set_position_gain set_vel_gains : Command
  get_adc_voltage get_controller_error : Command

abbrev pub command_code : Command → ℕ
command_code Command.co_nmt_ctrl = 0x00
command_code Command.odrive_heartbeat = 0x01
command_code Command.odrive_estop = 0x02
command_code Command.get_motor_error = 0x03
command_code Command.get_encoder_error = 0x04
command_code Command.get_sensorless_error = 0x05
command_code Command.set_axis_node_id = 0x06
command_code Command.set_axis_requested_state = 0x07
command_code Command.set_axis_startup_config = 0x08
command_code Command.get_encoder_estimates = 0x09
command_code Command.get_encoder_count = 0x0A
command_code Command.set_controller_modes = 0x0B
command_code Command.set_input_pos = 0x0C
command_code Command.set_input_vel = 0x0D
command_code Command.set_input_torque = 0x0E
command_code Command.set_limits = 0x0F
command_code Command.start_anticogging = 0x10
command_code Command.set_traj_vel_limit = 0x11
command_code Command.set_traj_accel_limits = 0x12
command_code Command.set_traj_inertia = 0x13
command_code Command.get_iq = 0x14
command_code Command.get_sensorless_estimates = 0x15
command_code Command.reboot_odrive = 0x16
command_code Command.get_vbus_voltage = 0x17
command_code Command.clear_errors = 0x18
command_code Command.set_linear_count = 0x19
command_code Command.set_position_gain = 0x1A
command_code Command.set_vel_gains = 0x1B
command_code Command.get_adc_voltage = 0x1C
command_code Command.get_controller_error = 0x1D

-- All of them, in the enumeration's order.
abbrev pub commands : List Command
commands =
    Command.co_nmt_ctrl ∷ Command.odrive_heartbeat ∷ Command.odrive_estop ∷ Command.get_motor_error
    ∷ Command.get_encoder_error ∷ Command.get_sensorless_error ∷ Command.set_axis_node_id
    ∷ Command.set_axis_requested_state ∷ Command.set_axis_startup_config
    ∷ Command.get_encoder_estimates ∷ Command.get_encoder_count ∷ Command.set_controller_modes
    ∷ Command.set_input_pos ∷ Command.set_input_vel ∷ Command.set_input_torque ∷ Command.set_limits
    ∷ Command.start_anticogging ∷ Command.set_traj_vel_limit ∷ Command.set_traj_accel_limits
    ∷ Command.set_traj_inertia ∷ Command.get_iq ∷ Command.get_sensorless_estimates
    ∷ Command.reboot_odrive ∷ Command.get_vbus_voltage ∷ Command.clear_errors
    ∷ Command.set_linear_count ∷ Command.set_position_gain ∷ Command.set_vel_gains
    ∷ Command.get_adc_voltage ∷ Command.get_controller_error ∷ []

-- The codes number the commands from 0 on, with no gap, so no two commands share one.
pub get_elem?-command_code : (c : Command) → get_elem? commands (command_code c) ≡ some c
get_elem?-command_code Command.co_nmt_ctrl = refl
get_elem?-command_code Command.odrive_heartbeat = refl
get_elem?-command_code Command.odrive_estop = refl
get_elem?-command_code Command.get_motor_error = refl
get_elem?-command_code Command.get_encoder_error = refl
get_elem?-command_code Command.get_sensorless_error = refl
get_elem?-command_code Command.set_axis_node_id = refl
get_elem?-command_code Command.set_axis_requested_state = refl
get_elem?-command_code Command.set_axis_startup_config = refl
get_elem?-command_code Command.get_encoder_estimates = refl
get_elem?-command_code Command.get_encoder_count = refl
get_elem?-command_code Command.set_controller_modes = refl
get_elem?-command_code Command.set_input_pos = refl
get_elem?-command_code Command.set_input_vel = refl
get_elem?-command_code Command.set_input_torque = refl
get_elem?-command_code Command.set_limits = refl
get_elem?-command_code Command.start_anticogging = refl
get_elem?-command_code Command.set_traj_vel_limit = refl
get_elem?-command_code Command.set_traj_accel_limits = refl
get_elem?-command_code Command.set_traj_inertia = refl
get_elem?-command_code Command.get_iq = refl
get_elem?-command_code Command.get_sensorless_estimates = refl
get_elem?-command_code Command.reboot_odrive = refl
get_elem?-command_code Command.get_vbus_voltage = refl
get_elem?-command_code Command.clear_errors = refl
get_elem?-command_code Command.set_linear_count = refl
get_elem?-command_code Command.set_position_gain = refl
get_elem?-command_code Command.set_vel_gains = refl
get_elem?-command_code Command.get_adc_voltage = refl
get_elem?-command_code Command.get_controller_error = refl
