-- ===== src/Odesc/Transport.antt =====
-- `odrive_can::SocketCanTransport` of ros2_ws/src/odesc/include/odesc/can.hpp. Its `open` and `close` are
-- the code of the arm's transport again, so they are its definitions; `send` and `receive` know 11-bit
-- identifiers only.
pub mod Laws
use billee_software.Prelude.{
  ℕ, ◌%◌, ◌^◌, bit_and, Bool, not, ◌||◌, Option, none, some, List, ltb, if◌then◌else◌, take, drop,
  replicate,
}
use billee_software.Odesc.Can.{Frame, max_data_length}
use billee_software.Pxx.Transport.{
  Transport, TransportError, OpenCalls, CanFrame, Poll, Sent, copied, can_sff_mask,
  is_open as arm_is_open, close as arm_close, open_on as arm_open_on,
}

abbrev pub is_open : Transport → Bool
is_open t = arm_is_open t

abbrev pub close : Transport → Transport
close t = arm_close t

abbrev pub open_on : OpenCalls → Transport → Option TransportError × Transport
open_on calls t = arm_open_on calls t

unfoldable pub socket_frame : Frame → CanFrame
socket_frame f = record {
  can_id = bit_and f.arbitration_id can_sff_mask;
  can_dlc = f.data_length;
  bytes = copied f.data_length f.payload;
}

unfoldable pub send : Transport → Frame → Bool → Sent
send t f written =
    if not (is_open t) || ltb max_data_length f.data_length
    then Sent.refused
    else if written
    then Sent.sent (socket_frame f)
    else Sent.failed

unfoldable pub frame_of : CanFrame → Frame
frame_of c = record {
  arbitration_id = bit_and c.can_id can_sff_mask % 2 ^ 16;
  data_length = c.can_dlc;
  payload = copied c.can_dlc c.bytes;
}

pub data Received : Type 0 where
  nothing : Received
  error : TransportError → Received
  frame : Frame → Received

-- The last argument is what `::read` filled in, if it read a whole frame.
unfoldable pub receive : Transport → Poll → Option CanFrame → Received
receive t polled read =
    if not (is_open t) then Received.error TransportError.closed else elim polled [
      | Poll.timeout ↦ Received.nothing
      | Poll.interrupted ↦ Received.nothing
      | Poll.failed ↦ Received.error TransportError.poll_failed
      | Poll.no_input ↦ Received.error TransportError.poll_failed
      | Poll.input ↦ elim read [
        | none ↦ Received.error TransportError.read_failed
        | some c ↦ Received.frame (frame_of c)
      ]
    ]
