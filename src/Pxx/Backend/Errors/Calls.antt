-- ===== src/Pxx/Backend/Errors/Calls.antt =====
-- `activate`, `read` and `write` of `SocketCanMotorBackend` with an error string.
use billee_software.Prelude.{
  ℕ, ◌≡◌, refl, ap, ◌∙◌, Bool, true, false, ◌&&◌, ◌||◌, Option, none, some, List, [], ◌∷◌, arith,
  Bool-cases, Option-cases, inl, inr,
}
use billee_software.Double.{Double}
use billee_software.Pxx.Can.{Frame, make_sync_frame, make_target_position_frame}
use billee_software.Pxx.Transport.{open_on, is_open}
use billee_software.Pxx.Backend.{Backend, Bus, send_frame, rx_loop, is_done}
use billee_software.Pxx.Backend.Receiver.{rx_loop-Untouched}
use billee_software.Pxx.Backend.Configure.{configure_node}
use billee_software.Pxx.Backend.Lifecycle.{
  shutdown_frame, standby_frame, release_nodes, stop, deactivate, configure_all, activate,
}
use billee_software.Pxx.Backend.Motion.{rad_to_counts, JointState, read, write, send_targets}
use billee_software.Pxx.Backend.Errors.{
  has_error, send_frame-Reports, send_frame-keeps, send_frame-silent, configure_node-Reports,
}

module _ (bus : Bus) where
  release_nodes-error :
      (nodes : List ℕ) (success : Bool) (s : Backend)
      → (release_nodes bus false nodes success s).1.error ≡ s.error
  unfolding release_nodes
  release_nodes-error [] success s = refl
  release_nodes-error (node ∷ nodes) success s =
      let (first, s1) = send_frame bus false (shutdown_frame node) s in
      let (second, s2) = send_frame bus false (standby_frame node) s1 in
      release_nodes-error nodes (success && is_done first && is_done second) s2
      ∙ send_frame-silent bus (standby_frame node) s1
      ∙ send_frame-silent bus (shutdown_frame node) s

  -- `deactivate(nullptr)`.
  deactivate-error : (s : Backend) → (deactivate bus false s).1.error ≡ s.error
  unfolding deactivate stop
  deactivate-error s =
      let ready = rx_loop (bus.before s.waits) s in
      let same = (rx_loop-Untouched (bus.before s.waits) s).same_error in
      elim (Bool-cases (is_open s.can_transport)) [
        | inl e ↦ rw e (release_nodes-error s.node_ids true ready ∙ same)
        | inr e ↦ rw e same
      ]

  -- The call worked, or it has left an error.
  abbrev pub IsReported : Bool × Backend → Type 0
  IsReported r = (r.0 || has_error r.1) ≡ true

  configure_all-IsReported :
      (nodes : List ℕ) (s : Backend) → IsReported (configure_all bus true nodes s)
  unfolding configure_all
  configure_all-IsReported [] s = refl
  configure_all-IsReported (node ∷ nodes) s =
      let t = (configure_node bus true node s).1 in
      let reported = configure_node-Reports bus node s in
      elim (Option-cases (configure_node bus true node s).0) [
        | inl e ↦ rw (e, configure_all) (ap is_done (deactivate-error t) ∙ (rw e at reported))
        | inr (_, e) ↦ rw (e, configure_all) (configure_all-IsReported nodes t)
      ]

  -- `none` is `std::terminate`.
  abbrev pub IsReportedUnless : Option (Bool × Backend) → Type 0
  IsReportedUnless none = Unit {0}
  IsReportedUnless (some r) = IsReported r

  activate-IsReported : (s : Backend) → IsReportedUnless (activate bus true s)
  unfolding activate
  activate-IsReported s = elim (Option-cases (open_on bus.opened s.can_transport).0) [
    | inr (reason, e) ↦ rw (e, activate) refl
    | inl e ↦ elim (Bool-cases s.rx_joinable) [
      | inl j ↦ rw (e, j, activate) tt
      | inr j ↦ rw (e, j, activate) (configure_all-IsReported s.node_ids _)
    ]
  ]

  -- `success &= send_frame(...)`.
  sent-IsReported :
      (f : Frame) (success : Bool) (s : Backend)
      → IsReported (success, s)
      → let (r, t) = send_frame bus true f s in IsReported (success && is_done r, t)
  sent-IsReported f true s h = send_frame-Reports bus f s
  sent-IsReported f false s h = send_frame-keeps bus f s h

  module _ {D : Type 0} ⦃d : Double D⦄ where
    -- A failed send has left an error, and the loop keeps it.
    send_targets-IsReported :
        (nodes : List ℕ) (ratios commands : List D) (success : Bool) (s : Backend)
        → IsReported (success, s)
        → IsReported (send_targets bus true nodes ratios commands success s)
    unfolding send_targets
    send_targets-IsReported (node ∷ nodes) (ratio ∷ ratios) (command ∷ commands) success s h =
        let f = make_target_position_frame node (rad_to_counts (d.mul command ratio)) in
        let (r, t) = send_frame bus true f s in
        elim (Bool-cases (d.is_nan command)) [
          | inl e ↦ rw e (send_targets-IsReported nodes ratios commands success s h)
          | inr e ↦ rw e (
              send_targets-IsReported nodes ratios commands (success && is_done r) t
                (sent-IsReported f success s h))
        ]
    send_targets-IsReported [] ratios commands success s h = h
    send_targets-IsReported (node ∷ nodes) [] commands success s h = h
    send_targets-IsReported (node ∷ nodes) (ratio ∷ ratios) [] success s h = h

    write-IsReported :
        (ratios commands : List D) (s : Backend) → IsReported (write bus true ratios commands s)
    unfolding write
    write-IsReported ratios commands s =
        let (ok, t) = send_targets bus true s.node_ids ratios commands true s in
        let done =
          sent-IsReported make_sync_frame ok t
            (send_targets-IsReported s.node_ids ratios commands true s refl) in
        ground (arith, done)

    read-IsReported :
        (ratios : List D) (states : List (JointState D)) (s : Backend)
        → let (ok, _, t) = read true ratios states s in IsReported (ok, t)
    unfolding read
    read-IsReported ratios states s = ground arith

    -- When `activate`, `read` or `write` returns false, there is an error afterwards: whatever the
    -- state and the bus, also if there was none before, and wherever in the call the failure lay.
    pub failures-Reported :
        (ratios commands : List D) (states : List (JointState D)) (s : Backend)
        → let (ok, _, t) = read true ratios states s in
          IsReportedUnless (activate bus true s)
          × IsReported (ok, t)
          × IsReported (write bus true ratios commands s)
    failures-Reported ratios commands states s =
        (activate-IsReported s, read-IsReported ratios states s, write-IsReported ratios commands s)
