-- ===== src/Pxx/Can/Parse.antt =====
-- The parsers of ros2_ws/src/pxx/include/pxx/can.hpp. `none` is `std::nullopt`.
use billee_software.Prelude.{
  ℕ, ◌%◌, ◌^◌, bit_and, Bool, not, ◌||◌, Option, none, some, ltb, ◌==◌, if◌then◌else◌, get_or,
}
use billee_software.Prelude.Int.{ℤ}
use billee_software.Words.{get_le, to_int32}
use billee_software.Pxx.Can.{Frame}
use billee_software.Pxx.Can.Cob
use billee_software.Pxx.Can.Sdo

-- The two fields of an identifier; a node number is cast to `uint8_t`.
abbrev pub function_of : Frame → ℕ
function_of frame = bit_and frame.arbitration_id Cob.function_mask

abbrev pub node_of : Frame → ℕ
node_of frame = bit_and frame.arbitration_id Cob.node_mask % 2 ^ 8

pub record SdoResponse : Type 0 where
  pub node_id : ℕ
  pub index : ℕ
  pub subindex : ℕ
  pub aborted : Bool
  pub value : ℕ

unfoldable pub parse_sdo_response : Frame → Option SdoResponse
parse_sdo_response frame =
    if frame.extended || ltb frame.data_length 8 || not (function_of frame == Cob.tsdo)
    then none
    else some (record {
      node_id = node_of frame;
      index = get_le frame.payload 1 2 % 2 ^ 16;
      subindex = get_or frame.payload 3 0;
      aborted = get_or frame.payload 0 0 == Sdo.abort;
      value = get_le frame.payload 4 4;
    })

pub record MotionFeedback : Type 0 where
  pub node_id : ℕ
  pub position_counts : ℤ
  pub velocity_raw : ℤ

unfoldable pub parse_motion_feedback : Frame → Option MotionFeedback
parse_motion_feedback frame =
    if frame.extended || ltb frame.data_length 8 || not (function_of frame == Cob.tpdo1)
    then none
    else some (record {
      node_id = node_of frame;
      position_counts = to_int32 (get_le frame.payload 0 4);
      velocity_raw = to_int32 (get_le frame.payload 4 4);
    })

pub record StatusFeedback : Type 0 where
  pub node_id : ℕ
  pub status_word : ℕ

unfoldable pub parse_status_feedback : Frame → Option StatusFeedback
parse_status_feedback frame =
    if frame.extended || ltb frame.data_length 2 || not (function_of frame == Cob.tpdo2)
    then none
    else some (record { node_id = node_of frame; status_word = get_le frame.payload 0 2 % 2 ^ 16 })

pub record Emergency : Type 0 where
  pub node_id : ℕ
  pub error_code : ℕ

unfoldable pub parse_emergency : Frame → Option Emergency
parse_emergency frame =
    if frame.extended
      || ltb frame.data_length 2
      || node_of frame == 0
      || not (function_of frame == Cob.emcy)
    then none
    else some (record { node_id = node_of frame; error_code = get_le frame.payload 0 2 % 2 ^ 16 })
