-- ===== src/Odesc/Backend.antt =====
-- `odesc::SocketCanDriveBackend`, ros2_ws/src/odesc/src/socketcan_drive_backend.cpp and the class in its
-- header. The receiver thread's rounds are steps of their own, between those of the caller's thread.
pub mod Laws
pub mod Lifecycle
pub mod Reachable
pub mod Estimates
use Prim.Native.String.{String}
use billee_software.Prelude.{
  ℕ, suc, ◌+◌, ◌-◌, Bool, true, false, ◌&&◌, Option, none, some, List, [], ◌∷◌, ◌++◌, ◌==◌,
  if◌then◌else◌, length, map, get_or, set, replicate,
}
use billee_software.Prelude.Int.{pos}
use billee_software.Double.{Double, zero_d}
use billee_software.Pxx.Backend.Motion.{resize}
use billee_software.Pxx.Transport.{Transport, TransportError, OpenCalls, CanFrame, Sent, fresh}
use billee_software.Odesc.Can.{
  AxisState, Frame, max_node_id, parse_arbitration_id, parse_encoder_estimate,
  make_axis_state_frame, make_input_velocity_frame,
}
use billee_software.Odesc.Can.Commands.{Command, command_code}
use billee_software.Odesc.Transport.{is_open, close, open_on, send}

pub record Estimate (D : Type 0) : Type 0 where
  pub position_turns : D
  pub velocity_turns_s : D

pub data DriveError : Type 0 where
  transport : TransportError → DriveError
  not_active count_mismatch : DriveError

-- `wire` holds the frames that the kernel took, oldest first, and `writes` counts its answers.
pub record DriveBackend (D : Type 0) : Type 0 where
  pub can_interface : String
  pub node_ids : List ℕ
  pub gear_ratio : D
  pub can_transport : Transport
  pub rx_running : Bool
  pub rx_joinable : Bool
  pub estimates : List (Estimate D)
  pub error : Option DriveError
  pub wire : List CanFrame
  pub writes : ℕ

pub record WheelState (D : Type 0) : Type 0 where
  pub position_rad : D
  pub velocity_rad_s : D

-- What the kernel answers to `open`, and to each `::write`.
pub record Bus : Type 0 where
  pub opened : OpenCalls
  pub written : ℕ → Bool

abbrev pub set_error : {D : Type 0} → Bool → DriveError → DriveBackend D → DriveBackend D
set_error sink e s = if sink then record s { error = some e } else s

module _ {D : Type 0} ⦃d : Double D⦄ where
  open d use {decimal, mul, div, float_bits, of_float_bits}

  abbrev pub no_estimate : Estimate D
  no_estimate = record { position_turns = zero_d; velocity_turns_s = zero_d }

  abbrev pub empty_estimates : List (Estimate D)
  empty_estimates = replicate (max_node_id + 1) no_estimate

  unfoldable pub new_drive : String → List ℕ → D → DriveBackend D
  new_drive can_interface node_ids gear_ratio = record {
    can_interface = can_interface;
    node_ids = node_ids;
    gear_ratio = gear_ratio;
    can_transport = fresh;
    rx_running = false;
    rx_joinable = false;
    estimates = empty_estimates;
    error = none;
    wire = [];
    writes = 0;
  }

  -- One round of `rx_loop`, with what `receive` returned.
  unfoldable pub rx_round : Option Frame → DriveBackend D → DriveBackend D
  rx_round none s = s
  rx_round (some f) s =
      let id = parse_arbitration_id f.arbitration_id in
      let stored : DriveBackend D = elim (parse_encoder_estimate f) [
        | none ↦ s
        | some e ↦
            let new : Estimate D = record {
              position_turns = of_float_bits e.position_turns;
              velocity_turns_s = of_float_bits e.velocity_turns_s;
            } in
            if id.command_id == command_code Command.get_encoder_estimates
            then record s { estimates = set s.estimates id.node_id new }
            else s
      ] in
      if s.rx_running then stored else s

  module _ (bus : Bus) (sink : Bool) where
    unfoldable pub send_frame : Frame → DriveBackend D → Bool × DriveBackend D
    send_frame f s = elim (send s.can_transport f (bus.written s.writes)) [
      | Sent.refused ↦ (false, set_error sink (transport TransportError.closed_or_invalid) s)
      | Sent.failed ↦ (
        false,
        set_error sink (transport TransportError.write_failed) (record s { writes = suc s.writes }),
      )
      | Sent.sent c ↦ (true, record s { writes = suc s.writes; wire = s.wire ++ c ∷ [] })
    ]

    -- `success &= send_frame(...)` over frames.
    pub send_each : List Frame → Bool → DriveBackend D → Bool × DriveBackend D
    send_each [] success s = (success, s)
    send_each (f ∷ fs) success s = let (r, t) = send_frame f s in send_each fs (success && r) t

    pub request_axis_state_all : AxisState → DriveBackend D → Bool × DriveBackend D
    request_axis_state_all axis_state s =
        send_each (map (λ node. make_axis_state_frame node axis_state) s.node_ids) true s

    -- `none` is `std::terminate`: a thread is assigned to one that is still joinable. The result of
    -- `request_axis_state_all` is dropped.
    unfoldable pub activate : DriveBackend D → Option (Bool × DriveBackend D)
    activate s =
        let (e, t) = open_on bus.opened s.can_transport in
        let opened = record s { can_transport = t } in
        let started = record opened {
          estimates = empty_estimates;
          rx_running = true;
          rx_joinable = true;
        } in
        elim e [
          | some reason ↦ some (false, set_error sink (transport reason) opened)
          | none ↦
              if s.rx_joinable
              then none
              else some (true, (request_axis_state_all AxisState.closed_loop_control started).1)
        ]

    unfoldable pub deactivate : DriveBackend D → Bool × DriveBackend D
    deactivate s =
        let (success, t) =
          if is_open s.can_transport then request_axis_state_all AxisState.idle s else (true, s) in
        (
          success,
          record t {
            rx_running = false;
            rx_joinable = false;
            can_transport = close t.can_transport;
          },
        )

  abbrev pub two_pi : D
  two_pi = decimal (pos 6283185307179586) 15

  abbrev pub rest_wheel : WheelState D
  rest_wheel = record { position_rad = zero_d; velocity_rad_s = zero_d }

  abbrev pub wheel_of : D → Estimate D → WheelState D
  wheel_of gear_ratio e = record {
    position_rad = div (mul e.position_turns two_pi) gear_ratio;
    velocity_rad_s = div (mul e.velocity_turns_s two_pi) gear_ratio;
  }

  -- The loop of `read`, over nodes and states of one length.
  pub read_wheels : D → List (Estimate D) → List ℕ → List (WheelState D) → List (WheelState D)
  read_wheels gear_ratio estimates (node ∷ nodes) (old ∷ states) =
      wheel_of gear_ratio (get_or estimates node no_estimate)
      ∷ read_wheels gear_ratio estimates nodes states
  read_wheels gear_ratio estimates nodes states = states

  unfoldable pub read :
      Bool → List (WheelState D) → DriveBackend D → Bool × List (WheelState D) × DriveBackend D
  unfolding read_wheels
  read sink states s =
      let sized = resize (length s.node_ids) rest_wheel states in
      if is_open s.can_transport
      then (true, read_wheels s.gear_ratio s.estimates s.node_ids sized, s)
      else (false, states, set_error sink not_active s)

  -- The frame of one wheel: the cast to `float` is in `float_bits`.
  abbrev pub velocity_frame : D → ℕ → D → Frame
  velocity_frame gear_ratio node command =
      make_input_velocity_frame node (float_bits (div (mul command gear_ratio) two_pi))

  abbrev pub velocity_frames : D → List ℕ → List D → List Frame
  velocity_frames gear_ratio (node ∷ nodes) (command ∷ commands) =
      velocity_frame gear_ratio node command ∷ velocity_frames gear_ratio nodes commands
  velocity_frames gear_ratio nodes commands = []

  unfoldable pub write : Bus → Bool → List D → DriveBackend D → Bool × DriveBackend D
  write bus sink commands s =
      if is_open s.can_transport
      then if length commands == length s.node_ids
        then send_each bus sink (velocity_frames s.gear_ratio s.node_ids commands) true s
        else (false, set_error sink count_mismatch s)
      else (false, set_error sink not_active s)
