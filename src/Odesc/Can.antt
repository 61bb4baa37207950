-- ===== src/Odesc/Can.antt =====
-- The ODrive CAN protocol of ros2_ws/src/odesc/include/odesc/can.hpp. A `float` is its 32 bits.
pub mod Commands
pub mod Laws
use Commands.{Command, command_code}
use billee_software.Prelude.{
  ℕ, ◌*◌, ◌/◌, ◌%◌, ◌^◌, bit_and, bit_or, Option, none, some, List, ltb, if◌then◌else◌, replicate,
}
use billee_software.Words.{put_le, get_le}

abbrev pub command_id_bits : ℕ
command_id_bits = 5

abbrev pub max_node_id : ℕ
max_node_id = 0x3F

abbrev pub max_data_length : ℕ
max_data_length = 8

pub data AxisState : Type 0 where
  idle closed_loop_control : AxisState

-- `static_cast<std::uint32_t>` of a state.
abbrev pub axis_state_code : AxisState → ℕ
axis_state_code AxisState.idle = 1
axis_state_code AxisState.closed_loop_control = 8

pub record ArbitrationId : Type 0 where
  pub node_id : ℕ
  pub command_id : ℕ

pub record Frame : Type 0 where
  pub arbitration_id : ℕ
  pub data_length : ℕ
  pub payload : List ℕ

-- The bits of the two floats.
pub record EncoderEstimate : Type 0 where
  pub position_turns : ℕ
  pub velocity_turns_s : ℕ

pub make_arbitration_id : ℕ → ℕ → ℕ
make_arbitration_id node_id command_id =
    bit_or (node_id * 2 ^ command_id_bits) (bit_and command_id 0x1F) % 2 ^ 16

unfoldable pub parse_arbitration_id : ℕ → ArbitrationId
parse_arbitration_id arbitration_id = record {
  node_id = bit_and (arbitration_id / 2 ^ command_id_bits) max_node_id % 2 ^ 8;
  command_id = bit_and arbitration_id 0x1F % 2 ^ 8;
}

unfoldable pub make_axis_state_frame : ℕ → AxisState → Frame
unfolding put_le
make_axis_state_frame node_id axis_state = record {
  arbitration_id = make_arbitration_id node_id (command_code Command.set_axis_requested_state);
  data_length = 4;
  payload = put_le (replicate max_data_length 0) 0 (axis_state_code axis_state) 4;
}

-- The velocity, and a torque of zero.
unfoldable pub make_input_velocity_frame : ℕ → ℕ → Frame
unfolding put_le
make_input_velocity_frame node_id bits = record {
  arbitration_id = make_arbitration_id node_id (command_code Command.set_input_vel);
  data_length = 8;
  payload = put_le (replicate max_data_length 0) 0 bits 4;
}

unfoldable pub parse_encoder_estimate : Frame → Option EncoderEstimate
parse_encoder_estimate frame =
    if ltb frame.data_length 8
    then none
    else some (record {
      position_turns = get_le frame.payload 0 4;
      velocity_turns_s = get_le frame.payload 4 4;
    })
