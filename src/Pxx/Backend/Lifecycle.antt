-- ===== src/Pxx/Backend/Lifecycle.antt =====
-- `activate` and `deactivate` of `SocketCanMotorBackend`; the destructor is `deactivate`.
pub mod Laws
pub mod Progress
pub mod Tests
use billee_software.Prelude.{
  ℕ, Bool, true, false, ◌&&◌, Option, none, some, List, [], ◌∷◌, if◌then◌else◌,
}
use billee_software.Pxx.Can.{NmtCommand, Frame, make_nmt_frame, make_sdo_write_frame}
use billee_software.Pxx.Can.Od
use billee_software.Pxx.Can.ControlWord
use billee_software.Pxx.Transport.{is_open, close, open_on}
use billee_software.Pxx.Backend.{
  Backend, Bus, transport, set_error, send_frame, rx_loop, empty_feedback, is_done,
}
use billee_software.Pxx.Backend.Configure.{configure_node}

abbrev pub shutdown_frame : ℕ → Frame
shutdown_frame node = make_sdo_write_frame node Od.control_word 0 ControlWord.shutdown 2

abbrev pub standby_frame : ℕ → Frame
standby_frame node = make_nmt_frame NmtCommand.enter_pre_operational node

module _ (bus : Bus) (sink : Bool) where
  -- The loop: both frames are sent whatever became of those before.
  unfoldable pub release_nodes : List ℕ → Bool → Backend → Bool × Backend
  release_nodes [] success s = (success, s)
  release_nodes (node ∷ nodes) success s =
      let (first, s1) = send_frame bus sink (shutdown_frame node) s in
      let (second, s2) = send_frame bus sink (standby_frame node) s1 in
      release_nodes nodes (success && is_done first && is_done second) s2

  -- The receiver takes what came, the loop runs if the socket is open, and thread and socket end.
  unfoldable pub stop : Bool × Backend → Bool × Backend
  stop (success, s) = (
    success,
    record s { rx_running = false; rx_joinable = false; can_transport = close s.can_transport },
  )

  unfoldable pub deactivate : Backend → Bool × Backend
  unfolding stop
  deactivate s =
      let ready = rx_loop (bus.before s.waits) s in
      stop (if is_open s.can_transport then release_nodes s.node_ids true ready else (true, ready))

-- The loop over the nodes: the first failure undoes all, with no error string.
unfoldable pub configure_all : Bus → Bool → List ℕ → Backend → Bool × Backend
configure_all bus sink [] s = (true, s)
configure_all bus sink (node ∷ nodes) s =
    let (r, t) = configure_node bus sink node s in
    elim r [ none ↦ (false, (deactivate bus false t).1) | some _ ↦ configure_all bus sink nodes t ]

-- `none` is `std::terminate`: a thread is assigned to one that is still joinable.
unfoldable pub activate : Bus → Bool → Backend → Option (Bool × Backend)
activate bus sink s =
    let (e, t) = open_on bus.opened s.can_transport in
    let opened = record s { can_transport = t } in
    let started = record opened {
      feedback = empty_feedback;
      rx_running = true;
      rx_joinable = true;
    } in
    elim e [
      | some reason ↦ some (false, set_error sink (transport reason) opened)
      | none ↦ if s.rx_joinable then none else some (configure_all bus sink s.node_ids started)
    ]
