-- ===== src/Odesc/Tests.antt =====
-- Runs of the wheels' protocol, backend and plugin with one wheel.
use billee_software.Prelude.{
  get_elem?, ◌≡◌, refl, ◌^◌, ◌<◌, ◌==◌, ◌&&◌, Bool, true, false, Option, none, some, List, [], ◌∷◌,
  ◌++◌, arith, length, if◌then◌else◌, get_or,
}
use billee_software.Toy.{Toy, toy_double, toy_platform, toy_hardware, toy_opens}
use billee_software.Params.{ok}
use billee_software.Words.{get_le}
use billee_software.Pxx.Transport.{Transport, is_open, open_on, close}
use billee_software.Odesc.Transport.{send}
use billee_software.Pxx.Backend.Attempts.{taken, all_taken}
use billee_software.Odesc.Can.{
  Frame, make_arbitration_id, parse_arbitration_id, make_input_velocity_frame,
  parse_encoder_estimate,
}
use billee_software.Odesc.Can.Commands.{Command, command_code, commands}
use billee_software.Odesc.Can.Laws.{make_arbitration_id-Command, parse-make_input_velocity_frame}
use billee_software.Odesc.Backend.{
  DriveBackend, Bus, new_drive, activate, deactivate, send_frame, rx_round, read, write,
  no_estimate,
}
use billee_software.Odesc.Backend.Laws.{velocities, drive_write_sends}
use billee_software.Odesc.Backend.Lifecycle.{IsWell, estimate_of}
use billee_software.Odesc.Backend.Reachable.{
  IsSound, activates, deactivates, writes, receives, reads, none_yet, one_more, new_drive-IsSound,
  Steps-IsSound,
}
use billee_software.Odesc.Backend.Estimates.{wheels, read-rx_round}
use billee_software.Odesc.System.{
  DriveSystem, socket_can, new_drive_system, node_param, init_joint, init_joints, on_init,
  create_drive_backend,
}
use billee_software.Odesc.System.Laws.{IsReady, drive_on_init-IsReady}

make_arbitration_id-Command_example :
    let id = make_arbitration_id 9 (command_code Command.set_input_vel) in
    let parsed = parse_arbitration_id id in
    (parsed.node_id ≡ 9)
    × (get_elem? commands parsed.command_id ≡ some Command.set_input_vel)
    × (id < 2 ^ 11)
make_arbitration_id-Command_example =
    make_arbitration_id-Command 9 Command.set_input_vel (omega arith)

parse-make_input_velocity_frame_example :
    parse_encoder_estimate (make_input_velocity_frame 9 0x3F800000)
    ≡ some (record { position_turns = 0x3F800000; velocity_turns_s = 0 })
parse-make_input_velocity_frame_example = parse-make_input_velocity_frame 9 0x3F800000 (omega arith)

-- Encoder estimates of node 1.
abbrev estimates : Frame
estimates = record {
  arbitration_id = 0x29;
  data_length = 8;
  payload = 7 ∷ 0 ∷ 0 ∷ 0 ∷ 3 ∷ 0 ∷ 0 ∷ 0 ∷ [];
}

abbrev opened : Transport
opened = record { fd = some 3; closed = [] }

-- The kernel refuses the first frame and takes the rest.
abbrev bus : Bus
bus = record { opened = toy_opens; written = λ n. if n == 0 then false else true }

abbrev idle_wheel : DriveBackend Toy
unfolding new_drive
idle_wheel = new_drive "can2" (1 ∷ []) (some 2)

abbrev turning : DriveBackend Toy
unfolding new_drive
turning = record idle_wheel { can_transport = opened; rx_running = true; rx_joinable = true }

turning-IsWell : IsWell turning
unfolding new_drive
turning-IsWell = record { sized = refl; running = refl; joinable = refl }

-- A bus on which no socket opens.
abbrev dead_bus : Bus
dead_bus = record bus { opened = record toy_opens { socket = none } }

abbrev state_of : Option (Bool × DriveBackend Toy) → DriveBackend Toy
state_of none = idle_wheel
state_of (some r) = r.1

abbrev started : DriveBackend Toy
started = state_of (activate bus true idle_wheel)

started-activate : activate bus true idle_wheel ≡ some (true, started)
unfolding activate open_on close new_drive
started-activate = refl

-- A frame comes, a velocity is written, and the open backend is activated again, in vain.
abbrev moving : DriveBackend Toy
moving = (write bus true (some 5 ∷ []) (rx_round (some estimates) started)).1

abbrev left_running : DriveBackend Toy
left_running = state_of (activate dead_bus true moving)

left_running-activate : activate dead_bus true moving ≡ some (false, left_running)
unfolding activate open_on close new_drive send_frame send
left_running-activate = refl

-- The receiver of an open backend then runs without a socket.
abbrev without_socket : DriveBackend Toy
without_socket = state_of (activate dead_bus true turning)

receiver_left : (without_socket.rx_running ≡ true) × (is_open without_socket.can_transport ≡ false)
unfolding turning activate open_on close new_drive
receiver_left = (refl, refl)

idle_wheel-IsSound : IsSound idle_wheel
unfolding idle_wheel new_drive
idle_wheel-IsSound = new_drive-IsSound "can2" (1 ∷ []) (some 2)

-- Then a read and the end.
abbrev stopped : DriveBackend Toy
stopped = (deactivate bus true (read true [] left_running).2).1

Steps-IsSound_example : IsSound stopped × (stopped.node_ids ≡ idle_wheel.node_ids)
Steps-IsSound_example = Steps-IsSound idle_wheel stopped idle_wheel-IsSound (
    one_more (read true [] left_running).2 _
      (one_more left_running _
        (one_more moving _
          (one_more (rx_round (some estimates) started) _
            (one_more started _
              (one_more idle_wheel _ none_yet (activates bus true true started started-activate))
              (receives (some estimates)))
            (writes bus true (some 5 ∷ [])))
          (activates dead_bus true false left_running left_running-activate))
        (reads true []))
      (deactivates bus true))

drive_write_sends_example :
    let commands : List Toy = some 5 ∷ [] in
    let (done, t) = write bus true commands turning in
    (t.wire ≡ turning.wire ++ taken bus.written turning.writes (velocities commands turning))
    × (done ≡ (
        (1 == length turning.node_ids)
        && all_taken bus.written turning.writes (velocities commands turning)))
    × (t.estimates ≡ turning.estimates)
    × (t.can_transport ≡ turning.can_transport)
unfolding turning
drive_write_sends_example = drive_write_sends bus true (some 5 ∷ []) turning refl

read-rx_round_example :
    let (done, states, _) = read true [] (rx_round (some estimates) turning) in
    (done ≡ true)
    × (states
        ≡ wheels turning.gear_ratio
            (λ k.
              if k == (parse_arbitration_id estimates.arbitration_id).node_id
              then estimate_of (record { position_turns = 7; velocity_turns_s = 3 })
              else get_or turning.estimates k no_estimate)
            turning.node_ids)
unfolding turning parse_encoder_estimate parse_arbitration_id get_le
read-rx_round_example =
    read-rx_round true estimates (record { position_turns = 7; velocity_turns_s = 3 }) [] turning
      turning-IsWell refl refl refl

abbrev plugin : DriveSystem Toy
unfolding new_drive
plugin = record {
  gear_ratio = some 2;
  joint_names = "joint_1" ∷ [];
  node_ids = 1 ∷ [];
  hw_positions = some 0 ∷ [];
  hw_velocities = some 0 ∷ [];
  hw_commands = some 0 ∷ [];
  backend_states = record { position_rad = some 0; velocity_rad_s = some 0 } ∷ [];
  backend = some (socket_can (new_drive "can0" (1 ∷ []) (some 2)));
}

plugin_made : on_init toy_platform true (toy_hardware "velocity") new_drive_system ≡ ok plugin
unfolding on_init init_joints init_joint node_param create_drive_backend new_drive
plugin_made = refl

drive_on_init-IsReady_example : IsReady toy_platform (toy_hardware "velocity").joints plugin
drive_on_init-IsReady_example =
    drive_on_init-IsReady toy_platform true (toy_hardware "velocity") plugin plugin_made
