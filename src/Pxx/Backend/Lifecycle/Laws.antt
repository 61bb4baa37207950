-- ===== src/Pxx/Backend/Lifecycle/Laws.antt =====
-- The states between calls, and what `deactivate` sends.
use billee_software.Prelude.{
  ℕ, ◌+◌, ◌≤◌, ◌≡◌, refl, ap, subst, ◌∙◌, Bool, true, false, ◌&&◌, none, some, List, [], ◌∷◌, ◌++◌,
  arith, length, Option-cases, Bool-cases, inl, inr,
}
use billee_software.Pxx.Can.{make_nmt_frame, make_sdo_write_frame}
use billee_software.Pxx.Backend.Attempts.{
  Attempts, taken, all_taken, none-Attempts, append-Attempts, send_frame-Attempts,
}
use mathlib.Core.Path.{ap₂}
use mathlib.Core.List.{append_assoc, append-nil}
use billee_software.Pxx.Transport.{
  CanFrame, OpenCalls, Transport, is_open, close, open_on, socket_frame,
}
use billee_software.Pxx.Backend.{
  Backend, Bus, send_frame, rx_loop, is_done, empty_feedback, set_error, transport,
}
use billee_software.Pxx.Backend.Receiver.{rx_loop-Untouched}
use billee_software.Pxx.Backend.Emits.{IsSteady}
use billee_software.Pxx.Backend.Configure.{configure_node}
use billee_software.Pxx.Backend.Configure.Order.{configure_node-Fate, Fate-Steady}
use billee_software.Pxx.Backend.Lifecycle.{
  shutdown_frame, standby_frame, release_nodes, deactivate, configure_all, activate,
}

-- Closed, with no receiver.
pub record IsIdle (s : Backend) : Type 0 where
  pub closed : is_open s.can_transport ≡ false
  pub stopped : s.rx_running ≡ false
  pub joined : s.rx_joinable ≡ false

-- Open, with a receiver, and with an entry of feedback for every node number.
pub record IsActive (s : Backend) : Type 0 where
  pub opened : is_open s.can_transport ≡ true
  pub running : s.rx_running ≡ true
  pub joinable : s.rx_joinable ≡ true
  pub sized : length s.feedback ≡ 128

pub closed-is_open : (t : Transport) → is_open (close t) ≡ false
unfolding close
closed-is_open t = ground arith

-- From any state `deactivate` leaves the backend idle.
deactivate-IsIdle : (bus : Bus) (sink : Bool) (s : Backend) → IsIdle (deactivate bus sink s).1
unfolding deactivate
deactivate-IsIdle bus sink s = record { closed = closed-is_open _; stopped = refl; joined = refl }

Steady-IsActive : (s t : Backend) → IsActive s → IsSteady s t → IsActive t
Steady-IsActive s t a k = ground arith

-- What the result of a call promises of the state.
abbrev pub Outcome : Bool × Backend → Type 0
Outcome (true, s) = IsActive s
Outcome (false, s) = IsIdle s

pub configure_all-Outcome :
    (bus : Bus) (sink : Bool) (nodes : List ℕ) (s : Backend)
    → IsActive s
    → Outcome (configure_all bus sink nodes s)
unfolding configure_all
configure_all-Outcome bus sink [] s a = a
configure_all-Outcome bus sink (node ∷ nodes) s a =
    let t = (configure_node bus sink node s).1 in
    elim (Option-cases (configure_node bus sink node s).0) [
      | inl e ↦ rw (e, configure_all, Outcome) (deactivate-IsIdle bus false t)
      | inr (_, e) ↦
          rw (e, configure_all, Outcome)
            (configure_all-Outcome bus sink nodes t
              (Steady-IsActive s t a (Fate-Steady (configure_node-Fate bus sink node s))))
    ]

pub open_on-is_open :
    (calls : OpenCalls) (t : Transport)
    → let (e, t') = open_on calls t in is_open t' ≡ elim e [ none ↦ true | some _ ↦ false ]
unfolding open_on
open_on-is_open calls t = ground arith

-- From an idle state `activate` never terminates the program, and leaves the backend active if it
-- succeeds and idle if it fails.
pub activate-Outcome :
    (bus : Bus) (sink : Bool) (s : Backend)
    → IsIdle s
    → (r : Bool × Backend) × (activate bus sink s ≡ some r) × Outcome r
unfolding activate
activate-Outcome bus sink s i =
    let t = (open_on bus.opened s.can_transport).1 in
    let opened = record s { can_transport = t } in
    let started = record opened {
      feedback = empty_feedback;
      rx_running = true;
      rx_joinable = true;
    } in
    let state = open_on-is_open bus.opened s.can_transport in
    elim (Option-cases (open_on bus.opened s.can_transport).0) [
      | inl e ↦ (
        configure_all bus sink s.node_ids started,
        rw (e, activate, i.joined),
        configure_all-Outcome bus sink s.node_ids started
            (record { opened = rw e at state; running = refl; joinable = refl; sized = refl }),
      )
      | inr (reason, e) ↦ (
        (false, set_error sink (transport reason) opened),
        rw (e, activate),
        ground (arith, rw e at state),
      )
    ]

-- The frames that `deactivate` attempts.
abbrev pub releasing : List ℕ → List CanFrame
releasing [] = []
releasing (node ∷ nodes) =
    socket_frame (shutdown_frame node) ∷ socket_frame (standby_frame node) ∷ releasing nodes

frames_short :
    (node : ℕ) → ((shutdown_frame node).data_length ≤ 8) × ((standby_frame node).data_length ≤ 8)
unfolding make_nmt_frame make_sdo_write_frame
frames_short node = omega arith

regroup :
    (fs rest : List CanFrame) (a b : CanFrame)
    → ((fs ++ a ∷ []) ++ b ∷ []) ++ rest ≡ fs ++ a ∷ b ∷ rest
regroup fs rest a b = simp append_assoc

release_nodes-Attempts :
    (bus : Bus) (sink : Bool) (nodes : List ℕ) (s0 s : Backend) (fs : List CanFrame)
    (success : Bool)
    → is_open s.can_transport ≡ true
    → Attempts bus.written fs s0 success s
    → let (ok, t) = release_nodes bus sink nodes success s in
      Attempts bus.written (fs ++ releasing nodes) s0 ok t
unfolding release_nodes
release_nodes-Attempts bus sink [] s0 s fs success o p = rw (append-nil fs) p
release_nodes-Attempts bus sink (node ∷ nodes) s0 s fs success o p =
    let shut = shutdown_frame node in
    let stand = standby_frame node in
    let (r1, s1) = send_frame bus sink shut s in
    let (r2, s2) = send_frame bus sink stand s1 in
    let first = send_frame-Attempts bus sink shut s o (frames_short node).0 in
    let o1 = ap is_open first.same_socket ∙ o in
    let second = send_frame-Attempts bus sink stand s1 o1 (frames_short node).1 in
    let p1 = append-Attempts bus.written fs _ s0 s s1 success (is_done r1) p first in
    let p2 = append-Attempts bus.written _ _ s0 s1 s2 _ (is_done r2) p1 second in
    let (ok, t) = release_nodes bus sink nodes (success && is_done r1 && is_done r2) s2 in
    subst (λ xs. Attempts bus.written xs s0 ok t)
      (regroup fs (releasing nodes) (socket_frame shut) (socket_frame stand))
      (release_nodes-Attempts bus sink nodes s0 s2 _ _ (ap is_open second.same_socket ∙ o1) p2)

-- `deactivate` of an open backend attempts "shutdown" and "pre-operational" for every node, in
-- order and whatever fails. The wire grows by exactly the frames that the kernel takes, and the
-- result is `true` exactly when it takes them all.
pub deactivate_attempts :
    (bus : Bus) (sink : Bool) (s : Backend)
    → is_open s.can_transport ≡ true
    → let (ok, t) = deactivate bus sink s in
      let fs = releasing s.node_ids in
      (t.wire ≡ s.wire ++ taken bus.written s.writes fs)
      × (t.writes ≡ s.writes + length fs)
      × (ok ≡ all_taken bus.written s.writes fs)
unfolding deactivate
deactivate_attempts bus sink s o =
    let ready = rx_loop (bus.before s.waits) s in
    let kept = rx_loop-Untouched (bus.before s.waits) s in
    let a =
      release_nodes-Attempts bus sink s.node_ids ready ready [] true
        (ap is_open kept.same_transport ∙ o) (none-Attempts bus.written ready) in
    rw o (
      a.wired
          ∙ ap₂ (λ x k. x ++ taken bus.written k (releasing s.node_ids)) kept.same_wire
              kept.same_writes,
      a.counted ∙ ap (λ k. k + length (releasing s.node_ids)) kept.same_writes,
      a.judged ∙ ap (λ k. all_taken bus.written k (releasing s.node_ids)) kept.same_writes,
    )

pub deactivate-nodes :
    (bus : Bus) (sink : Bool) (s : Backend) → (deactivate bus sink s).1.node_ids ≡ s.node_ids
unfolding deactivate
deactivate-nodes bus sink s =
    let ready = rx_loop (bus.before s.waits) s in
    let kept = rx_loop-Untouched (bus.before s.waits) s in
    elim (Bool-cases (is_open s.can_transport)) [
      | inl o ↦
          let a =
            release_nodes-Attempts bus sink s.node_ids ready ready [] true
              (ap is_open kept.same_transport ∙ o) (none-Attempts bus.written ready) in
          simp o (a.same_nodes ∙ kept.same_nodes)
      | inr c ↦ simp c kept.same_nodes
    ]

configure_all-nodes :
    (bus : Bus) (sink : Bool) (nodes : List ℕ) (s : Backend)
    → (configure_all bus sink nodes s).1.node_ids ≡ s.node_ids
unfolding configure_all
configure_all-nodes bus sink [] s = refl
configure_all-nodes bus sink (node ∷ nodes) s =
    let t = (configure_node bus sink node s).1 in
    let kept = (Fate-Steady (configure_node-Fate bus sink node s)).same_nodes in
    elim (Option-cases (configure_node bus sink node s).0) [
      | inl e ↦ rw (e, configure_all) (deactivate-nodes bus false t ∙ kept)
      | inr (_, e) ↦ rw (e, configure_all) (configure_all-nodes bus sink nodes t ∙ kept)
    ]

pub activate-nodes :
    (bus : Bus) (sink : Bool) (s : Backend) (r : Bool × Backend)
    → activate bus sink s ≡ some r
    → r.1.node_ids ≡ s.node_ids
unfolding activate
activate-nodes bus sink s r e =
    let opened = record s { can_transport = (open_on bus.opened s.can_transport).1 } in
    let started = record opened {
      feedback = empty_feedback;
      rx_running = true;
      rx_joinable = true;
    } in
    ground (arith, configure_all-nodes bus sink s.node_ids started)
