-- ===== src/Pxx/Backend.antt =====
-- The state of `pxx::SocketCanMotorBackend`, its receiver thread, and one SDO transaction:
-- ros2_ws/src/pxx/src/socketcan_motor_backend.cpp and the class in its header. The thread that calls
-- the backend and the receiver thread share `feedback` and `sdo_response`; the record `Bus` says
-- how they interleave and what the kernel answers.
pub mod Receiver
pub mod Transaction
pub mod Requests
pub mod Emits
pub mod Serving
pub mod Attempts
pub mod Errors
pub mod Feedback
pub mod Configure
pub mod Lifecycle
pub mod Motion
pub mod Tests
use Prim.Native.String.{String}
use billee_software.Prelude.{
  ℕ, suc, ◌+◌, ◌*◌, ◌^◌, ◌%◌, bit_and, bit_or, Bool, true, false, not, ◌&&◌, ◌||◌, Option, none,
  some, List, [], ◌∷◌, ◌++◌, ◌==◌, if◌then◌else◌, get_or, set, replicate,
}
use billee_software.Prelude.Int.{ℤ, pos}
use billee_software.Pxx.Can.{
  Frame, max_node_id, make_sdo_write_frame, make_sdo_read_frame, sdo_abort_text,
}
use billee_software.Pxx.Can.Cob
use billee_software.Pxx.Can.Parse.{
  SdoResponse, parse_sdo_response, parse_motion_feedback, parse_status_feedback, parse_emergency,
}
use billee_software.Pxx.Transport.{
  Transport, TransportError, OpenCalls, CanFrame, Sent, fresh, send,
}

pub record MotorFeedback : Type 0 where
  pub position_counts : ℤ
  pub velocity_raw : ℤ
  pub status_word : ℕ
  pub error_code : ℕ

abbrev pub no_feedback : MotorFeedback
no_feedback = record {
  position_counts = pos 0;
  velocity_raw = pos 0;
  status_word = 0;
  error_code = 0;
}

abbrev pub empty_feedback : List MotorFeedback
empty_feedback = replicate (max_node_id + 1) no_feedback

-- The messages that the code puts together, by their variable parts.
pub data BackendError : Type 0 where
  transport : TransportError → BackendError
  timed_out : (node index subindex : ℕ) → BackendError
  aborted : (node index subindex code : ℕ) → String → BackendError
  not_enabled : (node status code : ℕ) → String → BackendError
  in_fault : (node status code : ℕ) → String → BackendError
  not_active count_mismatch : BackendError

-- `error` is the caller's string; `wire` holds the frames that the kernel took, oldest first;
-- `writes` and `waits` count the calls of `::write` and the waits for an answer.
pub record Backend : Type 0 where
  pub can_interface : String
  pub node_ids : List ℕ
  pub can_transport : Transport
  pub rx_running : Bool
  pub rx_joinable : Bool
  pub feedback : List MotorFeedback
  pub sdo_response : Option SdoResponse
  pub error : Option BackendError
  pub wire : List CanFrame
  pub writes : ℕ
  pub waits : ℕ

-- The constructor.
unfoldable pub new_backend : String → List ℕ → Backend
new_backend can_interface node_ids = record {
  can_interface = can_interface;
  node_ids = node_ids;
  can_transport = fresh;
  rx_running = false;
  rx_joinable = false;
  feedback = empty_feedback;
  sdo_response = none;
  error = none;
  wire = [];
  writes = 0;
  waits = 0;
}

-- During a wait the receiver thread takes what `receive` returned, or the waiter wakes and looks.
pub data Event : Type 0 where
  received : Option Frame → Event
  woken : Event

-- `opened` answers the calls of `open`, `written` says which `::write` succeeds, `before` is what the
-- receiver took since the wait before, and `during` what happens in a wait until its timeout.
pub record Bus : Type 0 where
  pub opened : OpenCalls
  pub written : ℕ → Bool
  pub before : ℕ → List (Option Frame)
  pub during : ℕ → List Event

-- `SetError`; the flag says whether the caller passed a string.
abbrev pub set_error : Bool → BackendError → Backend → Backend
set_error sink e s = if sink then record s { error = some e } else s

-- What one frame changes: the chain of `rx_loop`.
pub store : Frame → Backend → Backend
store f s = elim (parse_motion_feedback f) [
  | some m ↦
      let old = get_or s.feedback m.node_id no_feedback in
      let new = record old { position_counts = m.position_counts; velocity_raw = m.velocity_raw } in
      record s { feedback = set s.feedback m.node_id new }
  | none ↦ elim (parse_status_feedback f) [
    | some t ↦
        let old = get_or s.feedback t.node_id no_feedback in
        let new = record old { status_word = t.status_word } in
        record s { feedback = set s.feedback t.node_id new }
    | none ↦ elim (parse_emergency f) [
      | some e ↦
          let old = get_or s.feedback e.node_id no_feedback in
          let new = record old { error_code = e.error_code } in
          record s { feedback = set s.feedback e.node_id new }
      | none ↦ elim (parse_sdo_response f) [
        | some r ↦ record s { sdo_response = some r }
        | none ↦ s
      ]
    ]
  ]
]

-- One round of `rx_loop`.
pub rx_round : Option Frame → Backend → Backend
rx_round none s = s
rx_round (some f) s = if s.rx_running then store f s else s

pub rx_loop : List (Option Frame) → Backend → Backend
rx_loop [] s = s
rx_loop (o ∷ os) s = rx_loop os (rx_round o s)

-- A fallible operation: `none` is `false`, and the state changes in either case.
abbrev pub M : Type 0 → Type 0
M A = Backend → Option A × Backend

abbrev pub pure : {A : Type 0} → A → M A
pure a s = (some a, s)

-- What the code returns: `true` for a result.
abbrev pub is_done {ℓ} : {A : Type ℓ} → Option A → Bool
is_done none = false
is_done (some a) = true

abbrev pub then_run : {A B : Type 0} → Option A × Backend → (A → M B) → Option B × Backend
then_run (none, s) f = (none, s)
then_run (some a, s) f = f a s

infixl 5 ◌>>=◌ ◌>>◌
abbrev pub ◌>>=◌ : {A B : Type 0} → M A → (A → M B) → M B
◌>>=◌ m f s = then_run (m s) f

abbrev pub ◌>>◌ : {B : Type 0} → M (Unit {0}) → M B → M B
m >> k = m >>= λ _. k

-- The object that a request names, as `sdo_transaction` reads it back from the frame.
abbrev pub request_node : Frame → ℕ
request_node f = bit_and f.arbitration_id Cob.node_mask % 2 ^ 8

abbrev pub request_index : Frame → ℕ
request_index f = bit_or (get_or f.payload 1 0) (get_or f.payload 2 0 * 2 ^ 8) % 2 ^ 16

abbrev pub request_subindex : Frame → ℕ
request_subindex f = get_or f.payload 3 0

-- Whether the response answers the request: the predicate of the wait.
abbrev pub answers : Frame → Option SdoResponse → Bool
answers request none = false
answers request (some r) =
    r.node_id == request_node request
    && r.index == request_index request
    && r.subindex == request_subindex request

pub wait_on : Frame → List Event → Backend → Bool × Backend
wait_on request [] s = (answers request s.sdo_response, s)
wait_on request (received o ∷ es) s = wait_on request es (rx_round o s)
wait_on request (woken ∷ es) s =
    let rest = wait_on request es s in if answers request s.sdo_response then (true, s) else rest

-- `sdo_cv_.wait_for`: it looks before it sleeps, after each wake, and at the timeout.
pub wait_for : Frame → List Event → Backend → Bool × Backend
unfolding wait_on
wait_for request es s =
    let rest = wait_on request es s in if answers request s.sdo_response then (true, s) else rest

-- The receiver takes what came since the last wait, and any old response is forgotten.
pub prepare : Bus → Backend → Backend
prepare bus s = record (rx_loop (bus.before s.waits) s) { sdo_response = none }

module _ (bus : Bus) (sink : Bool) where
  pub send_frame : Frame → M (Unit {0})
  send_frame f s = elim (send s.can_transport f (bus.written s.writes)) [
    | Sent.refused ↦ (none, set_error sink (transport TransportError.closed_or_invalid) s)
    | Sent.failed ↦ (
      none,
      set_error sink (transport TransportError.write_failed) (record s { writes = suc s.writes }),
    )
    | Sent.sent c ↦ (some tt, record s { writes = suc s.writes; wire = s.wire ++ c ∷ [] })
  ]

  -- What follows the wait.
  pub conclude : Frame → Bool × Backend → Option ℕ × Backend
  conclude request (false, s) = (
    none,
    set_error sink
        (timed_out (request_node request) (request_index request) (request_subindex request)) s,
  )
  conclude request (true, s) = elim s.sdo_response [
    | none ↦ (none, s)
    | some r ↦
        if r.aborted
        then (
          none,
          set_error sink
              (aborted (request_node request) (request_index request) (request_subindex request)
                r.value (sdo_abort_text r.value))
              s,
        )
        else (some r.value, s)
  ]

  abbrev pub await : Frame → M ℕ
  await request s =
      conclude request (wait_for request (bus.during s.waits) (record s { waits = suc s.waits }))

  pub sdo_transaction : Frame → M ℕ
  sdo_transaction request s = then_run (send_frame request (prepare bus s)) (λ _. await request)

  pub sdo_write : (node_id index subindex value size : ℕ) → M (Unit {0})
  sdo_write node_id index subindex value size = do
    _ ← sdo_transaction (make_sdo_write_frame node_id index subindex value size)
    pure tt

  pub sdo_read : (node_id index subindex : ℕ) → M ℕ
  sdo_read node_id index subindex = sdo_transaction (make_sdo_read_frame node_id index subindex)
