-- ===== src/Pxx/Transport.antt =====
-- `pxx_can::SocketCanTransport` of ros2_ws/src/pxx/include/pxx/can.hpp. What the kernel answers to a
-- system call is an argument; the text of an error (`strerror`) is not modelled.
pub mod Laws
mod Tests
use billee_software.Prelude.{
  ℕ, ◌+◌, bit_and, bit_or, Bool, true, false, not, ◌||◌, Option, none, some, List, [], ◌∷◌, ◌++◌,
  ltb, ◌==◌, if◌then◌else◌, take, drop, replicate,
}
use billee_software.Pxx.Can.{Frame, max_data_length}

-- `fd_`, with `none` for -1, and the descriptors that were given to `::close`, latest first.
pub record Transport : Type 0 where
  pub fd : Option ℕ
  pub closed : List ℕ

pub data TransportError : Type 0 where
  socket_failed interface_not_found bind_failed : TransportError
  closed_or_invalid write_failed : TransportError
  closed poll_failed read_failed : TransportError

abbrev pub can_eff_flag : ℕ
can_eff_flag = 0x80000000

abbrev pub can_sff_mask : ℕ
can_sff_mask = 0x7FF

abbrev pub can_eff_mask : ℕ
can_eff_mask = 0x1FFFFFFF

-- `struct can_frame`.
pub record CanFrame : Type 0 where
  pub can_id : ℕ
  pub can_dlc : ℕ
  pub bytes : List ℕ

-- The kernel's answers to `socket`, `ioctl` and `bind`; a descriptor and an index are not negative.
pub record OpenCalls : Type 0 where
  pub socket : Option ℕ
  pub ioctl : Option ℕ
  pub bind : Bool

-- A new transport: `fd_{-1}`.
abbrev pub fresh : Transport
fresh = record { fd = none; closed = [] }

abbrev pub is_open : Transport → Bool
is_open t = elim t.fd [ none ↦ false | some _ ↦ true ]

unfoldable pub close : Transport → Transport
close t = elim t.fd [ none ↦ t | some fd ↦ record { fd = none; closed = fd ∷ t.closed } ]

-- `none` is success.
unfoldable pub open_on : OpenCalls → Transport → Option TransportError × Transport
unfolding close
open_on calls t =
    let t' = close t in
    elim calls.socket [
      | none ↦ (some TransportError.socket_failed, t')
      | some fd ↦
          let opened : Transport = record t' { fd = some fd } in
          elim calls.ioctl [
            | none ↦ (some TransportError.interface_not_found, close opened)
            | some _ ↦
                if calls.bind
                then (none, opened)
                else (some TransportError.bind_failed, close opened)
          ]
    ]

-- `memcpy` of the first `n` bytes into zeroed ones.
abbrev pub copied : ℕ → List ℕ → List ℕ
copied n bytes = take n bytes ++ drop n (replicate max_data_length 0)

unfoldable pub socket_frame : Frame → CanFrame
socket_frame f = record {
  can_id =
      if f.extended
      then bit_or (bit_and f.arbitration_id can_eff_mask) can_eff_flag
      else bit_and f.arbitration_id can_sff_mask;
  can_dlc = f.data_length;
  bytes = copied f.data_length f.payload;
}

-- `refused` comes before `::write`, `failed` after it.
pub data Sent : Type 0 where
  refused failed : Sent
  sent : CanFrame → Sent

unfoldable pub send : Transport → Frame → Bool → Sent
send t f written =
    if not (is_open t) || ltb max_data_length f.data_length
    then Sent.refused
    else if written
    then Sent.sent (socket_frame f)
    else Sent.failed

-- What `poll` reports.
pub data Poll : Type 0 where
  timeout interrupted failed no_input input : Poll

unfoldable pub frame_of : CanFrame → Frame
frame_of c =
    let extended = not (bit_and c.can_id can_eff_flag == 0) in
    record {
      arbitration_id =
          if extended then bit_and c.can_id can_eff_mask else bit_and c.can_id can_sff_mask;
      extended = extended;
      data_length = c.can_dlc;
      payload = copied c.can_dlc c.bytes;
    }

pub data Received : Type 0 where
  nothing : Received
  error : TransportError → Received
  frame : Frame → Received

-- The last argument is what `::read` filled in, if it read a whole frame.
unfoldable pub receive : Transport → Poll → Option CanFrame → Received
receive t polled read =
    if not (is_open t) then Received.error TransportError.closed else elim polled [
      | Poll.timeout ↦ Received.nothing
      | Poll.interrupted ↦ Received.nothing
      | Poll.failed ↦ Received.error TransportError.poll_failed
      | Poll.no_input ↦ Received.error TransportError.poll_failed
      | Poll.input ↦ elim read [
        | none ↦ Received.error TransportError.read_failed
        | some c ↦ Received.frame (frame_of c)
      ]
    ]
