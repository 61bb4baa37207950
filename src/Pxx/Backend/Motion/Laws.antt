-- ===== src/Pxx/Backend/Motion/Laws.antt =====
-- What `read` reports and what `write` sends.
use mathlib.Core.List.{append_assoc, append-nil}
use billee_software.Prelude.{
  ℕ, ◌≤◌, ◌≡◌, refl, sym, ap, subst, ◌∙◌, Bool, true, false, ◌&&◌, Option, none, some, List, [],
  ◌∷◌, ◌++◌, arith, length, if◌then◌else◌, Bool-cases, Option-cases, ◌==◌, inl, inr, get_or, take,
  replicate, length-append, length-take, length-replicate, ◌-◌,
}
use billee_software.Prelude.Int.{ℤ, pos}
use billee_software.Double.{Double}
use mathlib.Core.Option
use billee_software.Pxx.Can.{error_code_text, make_target_position_frame, make_sync_frame}
use billee_software.Pxx.Transport.{CanFrame, is_open, socket_frame}
use billee_software.Pxx.Backend.{
  Backend, Bus, MotorFeedback, BackendError, no_feedback, in_fault, set_error, send_frame, is_done,
}
use billee_software.Pxx.Backend.Attempts.{
  Attempts, taken, all_taken, none-Attempts, append-Attempts, send_frame-Attempts,
}
use billee_software.Pxx.Backend.Motion.{
  JointState, zero_joint, rad_to_counts, in_fault_state, joint_of, read_joints, read, send_targets,
  write, resize,
}

targets_short :
    (node : ℕ) (counts : ℤ)
    → ((make_target_position_frame node counts).data_length ≤ 8) × (make_sync_frame.data_length ≤ 8)
unfolding make_target_position_frame make_sync_frame
targets_short node counts = omega arith

pub length-resize {ℓ} : {A : Type ℓ} (n : ℕ) (a : A) (xs : List A) → length (resize n a xs) ≡ n
unfolding resize
length-resize n a xs = omega (
  arith,
  length-append (take n xs) (replicate (n - length xs) a),
  length-take n xs,
  length-replicate (n - length xs) a,
)

module _ {D : Type 0} ⦃d : Double D⦄ where
  open d use {mul, is_nan}

  -- One target for each joint that has a command.
  abbrev pub targets : List ℕ → List D → List D → List CanFrame
  targets (node ∷ nodes) (ratio ∷ ratios) (command ∷ commands) =
      if is_nan command
      then targets nodes ratios commands
      else socket_frame (make_target_position_frame node (rad_to_counts (mul command ratio)))
        ∷ targets nodes ratios commands
  targets nodes ratios commands = []

  send_targets-Attempts :
      (bus : Bus) (sink : Bool) (nodes : List ℕ) (ratios commands : List D) (success : Bool)
      (s0 s : Backend) (fs : List CanFrame)
      → is_open s.can_transport ≡ true
      → Attempts bus.written fs s0 success s
      → let (ok, t) = send_targets bus sink nodes ratios commands success s in
        Attempts bus.written (fs ++ targets nodes ratios commands) s0 ok t
  unfolding send_targets
  send_targets-Attempts bus sink (node ∷ nodes) (ratio ∷ ratios) (command ∷ commands) success s0 s
        fs o p =
      let frame = make_target_position_frame node (rad_to_counts (mul command ratio)) in
      let (r, t) = send_frame bus sink frame s in
      let one = send_frame-Attempts bus sink frame s o (targets_short node _).0 in
      let more = append-Attempts bus.written fs _ s0 s t success (is_done r) p one in
      let (ok, u) = send_targets bus sink nodes ratios commands (success && is_done r) t in
      let rest = targets nodes ratios commands in
      elim (Bool-cases (is_nan command)) [
        | inl gone ↦
            rw gone (send_targets-Attempts bus sink nodes ratios commands success s0 s fs o p)
        | inr there ↦ rw there (
            subst (λ xs. Attempts bus.written xs s0 ok u)
              (append_assoc fs (socket_frame frame ∷ []) rest)
              (send_targets-Attempts bus sink nodes ratios commands (success && is_done r) s0 t _
                (ap is_open one.same_socket ∙ o) more))
      ]
  send_targets-Attempts bus sink nodes ratios commands success s0 s fs o p = rw (append-nil fs) p

  -- What an open backend attempts in `write`: the targets and then SYNC, if there is one command for
  -- each node.
  abbrev pub cycle : List D → List D → Backend → List CanFrame
  cycle ratios commands s =
      if length commands == length s.node_ids
      then targets s.node_ids ratios commands ++ socket_frame make_sync_frame ∷ []
      else []

  -- An open backend with one command for each node.
  pub write-Attempts :
      (bus : Bus) (sink : Bool) (ratios commands : List D) (s : Backend)
      → is_open s.can_transport ≡ true
      → (length commands == length s.node_ids) ≡ true
      → let (ok, t) = write bus sink ratios commands s in
        Attempts bus.written (cycle ratios commands s) s ok t
  unfolding write
  write-Attempts bus sink ratios commands s o e =
      let (ok, t) = send_targets bus sink s.node_ids ratios commands true s in
      let p =
        send_targets-Attempts bus sink s.node_ids ratios commands true s s [] o
          (none-Attempts bus.written s) in
      let sync =
        send_frame-Attempts bus sink make_sync_frame t (ap is_open p.same_socket ∙ o)
          (targets_short 0 (pos 0)).1 in
      rw (o, e) (append-Attempts bus.written _ _ s t _ ok _ p sync)

  -- With one command for each node, an open backend attempts the targets of the joints that have a
  -- command, in order, and then SYNC, whatever fails; without, nothing. The wire grows by what the
  -- kernel takes, and the result is `true` exactly when there is one command for each node and the
  -- kernel takes every frame.
  pub write_attempts :
      (bus : Bus) (sink : Bool) (ratios commands : List D) (s : Backend)
      → is_open s.can_transport ≡ true
      → let (ok, t) = write bus sink ratios commands s in
        (t.wire ≡ s.wire ++ taken bus.written s.writes (cycle ratios commands s))
        × (ok ≡ (
            (length commands == length s.node_ids)
            && all_taken bus.written s.writes (cycle ratios commands s)))
  unfolding write
  write_attempts bus sink ratios commands s o =
      elim (Bool-cases (length commands == length s.node_ids)) [
        | inl e ↦
            let a = write-Attempts bus sink ratios commands s o e in
            (
              a.wired,
              a.judged
                  ∙ ap (λ b. b && all_taken bus.written s.writes (cycle ratios commands s)) (sym e),
            )
        | inr e ↦ ground (arith, o, e, append-nil s.wire)
      ]

-- The first node whose status word has the fault bit.
abbrev pub first_fault : List MotorFeedback → List ℕ → Option ℕ
first_fault feedback [] = none
first_fault feedback (node ∷ nodes) =
    let rest = first_fault feedback nodes in
    if in_fault_state (get_or feedback node no_feedback) then some node else rest

-- The error that names a node in fault.
abbrev pub fault_error : List MotorFeedback → ℕ → BackendError
fault_error feedback node =
    let f = get_or feedback node no_feedback in
    in_fault node f.status_word f.error_code (error_code_text f.error_code)

module _ {D : Type 0} ⦃d : Double D⦄ where
  -- Every joint, converted.
  abbrev pub joints : List MotorFeedback → List ℕ → List D → List (JointState D)
  joints feedback (node ∷ nodes) (ratio ∷ ratios) =
      joint_of (get_or feedback node no_feedback) ratio ∷ joints feedback nodes ratios
  joints feedback nodes ratios = []

  read_joints_lem :
      (feedback : List MotorFeedback) (nodes : List ℕ) (ratios : List D)
      (states : List (JointState D))
      → length ratios ≡ length nodes
      → length states ≡ length nodes
      → let (e, states') = read_joints feedback nodes ratios states in
        (e ≡ Option.map (fault_error feedback) (first_fault feedback nodes))
        × (first_fault feedback nodes ≡ none → states' ≡ joints feedback nodes ratios)
        × (length states' ≡ length nodes)
  unfolding read_joints
  read_joints_lem feedback [] [] [] h k = (refl, λ _. refl, refl)
  read_joints_lem feedback [] (ratio ∷ ratios) states h k = absurd (omega arith)
  read_joints_lem feedback [] [] (old ∷ states) h k = absurd (omega arith)
  read_joints_lem feedback (node ∷ nodes) [] states h k = absurd (omega arith)
  read_joints_lem feedback (node ∷ nodes) (ratio ∷ ratios) [] h k = absurd (omega arith)
  read_joints_lem feedback (node ∷ nodes) (ratio ∷ ratios) (old ∷ states) h k =
      let (same_error, same_states, same_length) =
        read_joints_lem feedback nodes ratios states (omega arith) (omega arith) in
      ground (arith, same_error, same_states, same_length)

  -- What an open backend's `read` comes to: the result, the states, and the backend after it.
  abbrev pub Report :
      Bool → List D → Backend → Option ℕ → Bool × List (JointState D) × Backend → Type 0
  Report sink ratios s none (ok, states, t) =
      (ok ≡ true) × (states ≡ joints s.feedback s.node_ids ratios) × (t ≡ s)
  Report sink ratios s (some node) (ok, states, t) =
      (ok ≡ false) × (t ≡ set_error sink (fault_error s.feedback node) s)

  -- With a gear ratio for each node, `read` of an open backend fails exactly when some node is in
  -- fault, with an error that names the first one; otherwise it returns every joint's feedback,
  -- converted. The caller's states then have one entry for each node, and of the backend only the
  -- error changes.
  pub read_reports :
      (sink : Bool) (ratios : List D) (states : List (JointState D)) (s : Backend)
      → is_open s.can_transport ≡ true
      → length ratios ≡ length s.node_ids
      → (length (read sink ratios states s).1 ≡ length s.node_ids)
        × Report sink ratios s (first_fault s.feedback s.node_ids) (read sink ratios states s)
  unfolding read
  read_reports sink ratios states s o h =
      let sized = resize (length s.node_ids) zero_joint states in
      let (same_error, same_states, same_length) =
        read_joints_lem s.feedback s.node_ids ratios sized h
          (length-resize (length s.node_ids) zero_joint states) in
      elim (Option-cases (first_fault s.feedback s.node_ids)) [
        | inl e ↦
            rw (o, e, same_error ∙ ap (Option.map (fault_error s.feedback)) e)
              (same_length, (refl, same_states e, refl))
        | inr (node, e) ↦
            rw (o, e, same_error ∙ ap (Option.map (fault_error s.feedback)) e)
              (same_length, (refl, refl))
      ]

module _ {D : Type 0} ⦃d : Double D⦄ where
  pub read-nodes :
      (sink : Bool) (ratios : List D) (states : List (JointState D)) (s : Backend)
      → length ratios ≡ length s.node_ids
      → length states ≡ length s.node_ids
      → let (ok, states', t) = read sink ratios states s in
        (length states' ≡ length s.node_ids) × (t.node_ids ≡ s.node_ids)
  unfolding read
  read-nodes sink ratios states s h k =
      let sized = resize (length s.node_ids) zero_joint states in
      let rows =
        read_joints_lem s.feedback s.node_ids ratios sized h
          (length-resize (length s.node_ids) zero_joint states) in
      ground (arith, rows.2)

  pub write-nodes :
      (bus : Bus) (sink : Bool) (ratios commands : List D) (s : Backend)
      → (write bus sink ratios commands s).1.node_ids ≡ s.node_ids
  unfolding write
  write-nodes bus sink ratios commands s = elim (Bool-cases (is_open s.can_transport)) [
    | inr c ↦ simp c (ground arith)
    | inl o ↦ elim (Bool-cases (length commands == length s.node_ids)) [
      | inr c ↦ simp (o, c) (ground arith)
      | inl e ↦ (write-Attempts bus sink ratios commands s o e).same_nodes
    ]
  ]
