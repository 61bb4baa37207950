-- ===== src/Pxx/Backend/Tests.antt =====
-- Runs of the arm's backend, with a drive that acknowledges every request.
use billee_software.Prelude.{
  ℕ, ◌+◌, ◌*◌, ◌/◌, ◌%◌, ◌^◌, ◌≡◌, refl, ap, subst, ◌&&◌, Bool, true, false, Option, none, some,
  List, [], ◌∷◌, ◌++◌, get_elem?, arith, length, ◌==◌,
}
use billee_software.Prelude.Int.{negsuc}
use billee_software.Toy.{Toy, toy_double, toy_opens}
use billee_software.Words.{get_le, put_le, to_int32}
use billee_software.Pxx.Can.{
  Frame, make_sdo_read_frame, make_sdo_write_frame, make_nmt_frame, make_target_position_frame,
}
use billee_software.Pxx.Can.Od
use billee_software.Pxx.Can.ControlWord
use billee_software.Pxx.Can.Parse.{
  SdoResponse, parse_sdo_response, parse_motion_feedback, parse_status_feedback, parse_emergency,
}
use billee_software.Pxx.Transport.{close, open_on, send, socket_frame}
use billee_software.Pxx.Backend.{
  Backend, Bus, Event, received, woken, new_backend, store, rx_round, rx_loop, wait_on, wait_for,
  prepare, send_frame, conclude, sdo_transaction, sdo_write, sdo_read,
}
use billee_software.Pxx.Backend.Configure.{
  Entry, mapping, enabling, seed_position, write_all, check_enabled, locate, enable_at,
  configure_node,
}
use billee_software.Pxx.Backend.Configure.Order.{Fate, configure_node-Fate}
use billee_software.Pxx.Backend.Lifecycle.{activate, configure_all, deactivate}
use billee_software.Pxx.Backend.Lifecycle.Laws.{
  IsIdle, IsActive, Outcome, activate-nodes, activate-Outcome, deactivate_attempts, releasing,
}
use billee_software.Pxx.Backend.Attempts.{taken, all_taken}
use billee_software.Pxx.Backend.Motion.{write}
use billee_software.Pxx.Backend.Motion.Laws.{cycle, write_attempts}
use billee_software.Pxx.Backend.Requests.{
  Names, make_sdo_write_frame-Names, get_le-make_target_position_frame,
}
use billee_software.Pxx.Backend.Transaction.{Answer, sdo_transaction-Answer}
use billee_software.Pxx.Backend.Transaction.Replies.{sdo_transaction_answered}

abbrev pub object : ℕ → ℕ → Entry
object index subindex = record { index = index; subindex = subindex; value = 0; size = 4 }

-- The objects that `configure_node` asks for, in its order.
abbrev pub asked : List Entry
asked =
    mapping 1
    ++ object Od.position_actual 0 ∷ object Od.target_position 0 ∷ enabling
    ++ object Od.status_word 0 ∷ []

-- The answer of node 1: "operation enabled" as a status, and as good as any other value.
abbrev pub acknowledgement : Entry → Frame
acknowledgement e = record {
  arbitration_id = 0x581;
  extended = false;
  data_length = 8;
  payload = 0x43 ∷ e.index % 2 ^ 8 ∷ e.index / 2 ^ 8 ∷ e.subindex ∷ 0x27 ∷ 0 ∷ 0 ∷ 0 ∷ [];
}

abbrev pub script : Option Entry → List Event
script none = []
script (some e) = received (some (acknowledgement e)) ∷ woken ∷ []

abbrev pub answering : Bus
answering = record {
  opened = toy_opens;
  written = λ n. true;
  before = λ n. [];
  during = λ n. script (get_elem? asked n);
}

abbrev pub idle_arm : Backend
unfolding new_backend
idle_arm = new_backend "can0" (1 ∷ [])

pub idle_arm-IsIdle : IsIdle idle_arm
unfolding new_backend
idle_arm-IsIdle = record { closed = refl; stopped = refl; joined = refl }

abbrev result : Option (Bool × Backend) → Backend
result none = idle_arm
result (some (ok, s)) = s

abbrev pub active_arm : Backend
active_arm = result (activate answering true idle_arm)

-- The whole sequence succeeds.
pub starts : activate answering true idle_arm ≡ some (true, active_arm)
unfolding activate configure_all configure_node locate enable_at check_enabled write_all
    seed_position sdo_write sdo_read sdo_transaction wait_for wait_on prepare conclude send_frame
    rx_loop rx_round store send open_on close socket_frame make_sdo_read_frame make_sdo_write_frame
    make_nmt_frame parse_sdo_response parse_motion_feedback parse_status_feedback parse_emergency
    get_le put_le new_backend
starts = refl

-- The first request of the sequence, while the receiver runs.
abbrev first_request : Frame
unfolding make_sdo_write_frame put_le
first_request = make_sdo_write_frame 1 Od.control_word 0 ControlWord.fault_reset 2

abbrev listening : Backend
unfolding new_backend
listening = record idle_arm {
  can_transport = record { fd = some 3; closed = [] };
  rx_running = true;
}

configure_node-Fate_example :
    Fate answering 1 active_arm (configure_node answering true 1 active_arm)
configure_node-Fate_example = configure_node-Fate answering true 1 active_arm

sdo_transaction-Answer_example : Answer first_request (answering.during 0) 0x27
unfolding sdo_transaction wait_for wait_on prepare conclude send_frame rx_loop rx_round store send
    socket_frame make_sdo_write_frame put_le parse_sdo_response parse_motion_feedback
    parse_status_feedback parse_emergency get_le new_backend
sdo_transaction-Answer_example =
    sdo_transaction-Answer answering true first_request listening 0x27 refl

abbrev first_answer : SdoResponse
first_answer = record {
  node_id = 1;
  index = Od.control_word;
  subindex = 0;
  aborted = false;
  value = 0x27;
}

sdo_transaction_answered_example :
    (sdo_transaction answering true first_request listening).0 ≡ some 0x27
unfolding send send_frame socket_frame make_sdo_write_frame put_le parse_sdo_response get_le
    sdo_transaction wait_for wait_on prepare conclude rx_loop rx_round store parse_motion_feedback
    parse_status_feedback parse_emergency new_backend
sdo_transaction_answered_example =
    sdo_transaction_answered answering true first_request
      (acknowledgement (object Od.control_word 0)) listening (socket_frame first_request)
      first_answer [] [] refl refl refl tt refl refl

activate-Outcome_example :
    (r : Bool × Backend) × (activate answering true idle_arm ≡ some r) × Outcome r
activate-Outcome_example = activate-Outcome answering true idle_arm idle_arm-IsIdle

pub active_arm-IsActive : IsActive active_arm
active_arm-IsActive =
    let (r, e, o) = activate-Outcome answering true idle_arm idle_arm-IsIdle in
    let same : r ≡ (true, active_arm) = ground (arith, e, starts) in subst Outcome same o

active_arm-nodes : length active_arm.node_ids ≡ 1
unfolding new_backend
active_arm-nodes = ap length (activate-nodes answering true idle_arm (true, active_arm) starts)

deactivate_attempts_example :
    let (ok, t) = deactivate answering true active_arm in
    let fs = releasing active_arm.node_ids in
    (t.wire ≡ active_arm.wire ++ taken answering.written active_arm.writes fs)
    × (t.writes ≡ active_arm.writes + length fs)
    × (ok ≡ all_taken answering.written active_arm.writes fs)
deactivate_attempts_example =
    deactivate_attempts answering true active_arm active_arm-IsActive.opened

write_attempts_example :
    let ratios : List Toy = some 2 ∷ [] in
    let (ok, t) = write answering true ratios (some 5 ∷ []) active_arm in
    let fs = cycle ratios (some 5 ∷ []) active_arm in
    (t.wire ≡ active_arm.wire ++ taken answering.written active_arm.writes fs)
    × (ok ≡ ((1 == length active_arm.node_ids) && all_taken answering.written active_arm.writes fs))
write_attempts_example =
    write_attempts answering true (some 2 ∷ []) (some 5 ∷ []) active_arm active_arm-IsActive.opened

make_sdo_write_frame-Names_example :
    let f = make_sdo_write_frame 127 Od.target_position 0 70000 4 in
    Names f 127 Od.target_position 0 × (get_le f.payload 4 4 ≡ 70000 % 2 ^ (8 * 4))
make_sdo_write_frame-Names_example =
    make_sdo_write_frame-Names 127 Od.target_position 0 70000 4 (omega arith) (omega arith)
      (omega arith) (omega arith) (omega arith)

get_le-make_target_position_frame_example :
    to_int32 (get_le (make_target_position_frame 5 (negsuc 41)).payload 0 4) ≡ negsuc 41
get_le-make_target_position_frame_example =
    get_le-make_target_position_frame 5 (negsuc 41) (omega arith) (omega arith)
