-- ===== src/Pxx/Can.antt =====
-- The protocol half of ros2_ws/src/pxx/include/pxx/can.hpp: frames, and those that the host sends.
-- The parsers of the frames that it receives are in Can/Parse.antt.
pub mod Cob
pub mod Od
pub mod ControlWord
pub mod StatusWord
pub mod Sdo
pub mod Parse
pub mod Dispatch
mod Tests
use Cob
use Sdo
use Prim.Native.String.{String}
use billee_software.Prelude.{
  ℕ, ◌+◌, ◌-◌, ◌*◌, ◌^◌, ◌%◌, bit_or, Bool, true, false, List, [], ◌∷◌, get_or, set, replicate,
  if◌then◌else◌, ◌==◌,
}
use billee_software.Prelude.Int.{ℤ}
use billee_software.Words.{put_le, to_uint32}

abbrev pub min_node_id : ℕ
min_node_id = 1

abbrev pub max_node_id : ℕ
max_node_id = 127

abbrev pub max_data_length : ℕ
max_data_length = 8

pub data NmtCommand : Type 0 where
  start stop enter_pre_operational reset_node reset_communication : NmtCommand

-- `static_cast<std::uint8_t>` of a command.
abbrev pub nmt_code : NmtCommand → ℕ
nmt_code NmtCommand.start = 0x01
nmt_code NmtCommand.stop = 0x02
nmt_code NmtCommand.enter_pre_operational = 0x80
nmt_code NmtCommand.reset_node = 0x81
nmt_code NmtCommand.reset_communication = 0x82

pub data Mode : Type 0 where
  profile_position profile_velocity profile_torque interpolated_position : Mode
  cyclic_sync_position cyclic_sync_velocity cyclic_sync_torque : Mode

-- The value of 6060h.
abbrev pub mode_code : Mode → ℕ
mode_code Mode.profile_position = 1
mode_code Mode.profile_velocity = 3
mode_code Mode.profile_torque = 4
mode_code Mode.interpolated_position = 7
mode_code Mode.cyclic_sync_position = 8
mode_code Mode.cyclic_sync_velocity = 9
mode_code Mode.cyclic_sync_torque = 10

-- A PDO mapping entry.
abbrev pub pdo_map_entry : ℕ → ℕ → ℕ → ℕ
pdo_map_entry index subindex bits =
    bit_or (bit_or (index * 2 ^ 16 % 2 ^ 32) (subindex * 2 ^ 8)) bits

abbrev pub pdo_disabled : ℕ
pdo_disabled = 0x80000000

abbrev pub pdo_transmission_sync_every : ℕ
pdo_transmission_sync_every = 1

pub record Frame : Type 0 where
  pub arbitration_id : ℕ
  pub extended : Bool
  pub data_length : ℕ
  pub payload : List ℕ

-- `Frame frame{}`, with an identifier and a length.
abbrev pub blank : ℕ → ℕ → Frame
blank id len = record {
  arbitration_id = id;
  extended = false;
  data_length = len;
  payload = replicate max_data_length 0;
}

unfoldable pub make_nmt_frame : NmtCommand → ℕ → Frame
make_nmt_frame command node_id =
    let frame = blank Cob.nmt 2 in
    record frame { payload = set (set frame.payload 0 (nmt_code command)) 1 node_id }

unfoldable pub make_sync_frame : Frame
make_sync_frame = blank Cob.sync 0

-- The command specifier is 0x2F, 0x2B, 0x27 or 0x23 for 1 to 4 data bytes.
unfoldable pub make_sdo_write_frame : ℕ → ℕ → ℕ → ℕ → ℕ → Frame
unfolding put_le
make_sdo_write_frame node_id index subindex value size =
    let frame = blank (Cob.rsdo + node_id) 8 in
    let specifier = bit_or 0x23 ((4 - size) * 2 ^ 2) % 2 ^ 8 in
    record frame {
      payload =
          put_le (set (put_le (set frame.payload 0 specifier) 1 index 2) 3 subindex) 4 value size;
    }

unfoldable pub make_sdo_read_frame : ℕ → ℕ → ℕ → Frame
unfolding put_le
make_sdo_read_frame node_id index subindex =
    let frame = blank (Cob.rsdo + node_id) 8 in
    record frame { payload = set (put_le (set frame.payload 0 Sdo.upload) 1 index 2) 3 subindex }

-- RPDO1 carries the target position.
unfoldable pub make_target_position_frame : ℕ → ℤ → Frame
unfolding put_le
make_target_position_frame node_id target_counts =
    let frame = blank (Cob.rpdo1 + node_id) 4 in
    record frame { payload = put_le frame.payload 0 (to_uint32 target_counts) 4 }

pub sdo_abort_text : ℕ → String
sdo_abort_text code =
    if code == 0x05040000
    then "SDO timeout"
    else if code == 0x06010001
    then "read not allowed"
    else if code == 0x06010002
    then "write not allowed"
    else if code == 0x06020000
    then "object does not exist"
    else if code == 0x06090030
    then "value out of range"
    else "unknown abort code"

pub error_code_text : ℕ → String
error_code_text code =
    if code == 0x0000
    then "no error"
    else if code == 0x3230
    then "overload protection"
    else if code == 0x4210
    then "temperature too high"
    else if code == 0x7121
    then "motor stalled"
    else if code == 0x7310
    then "motor overspeed"
    else if code == 0x8130
    then "heartbeat offline"
    else if code == 0x8500
    then "speed error too large"
    else if code == 0x8611
    then "position error too large"
    else "unknown error"
