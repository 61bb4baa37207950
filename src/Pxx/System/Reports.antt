-- ===== src/Pxx/System/Reports.antt =====
-- From the bus to the controllers: what `read` of the plugin makes of the frames that the receiver took.
use billee_software.Prelude.{
  ℕ, ◌≡◌, refl, sym, ap, ◌∙◌, Bool, true, false, Option, none, some, Option-cases, inl, inr, List,
  [], ◌∷◌, arith, length, map, get_or, if◌then◌else◌, subst,
}
use billee_software.Double.{Double}
use billee_software.Pxx.Can.{Frame, error_code_text}
use billee_software.Pxx.Transport.{is_open}
use billee_software.Pxx.Backend.{
  Backend, MotorFeedback, BackendError, no_feedback, in_fault, rx_loop,
}
use billee_software.Pxx.Backend.Receiver.{rx_loop-Untouched}
use billee_software.Pxx.Backend.Feedback.{learned, rx_loop-learned}
use billee_software.Pxx.Backend.Lifecycle.Laws.{IsActive}
use billee_software.Pxx.Backend.Motion.{JointState, in_fault_state, joint_of, read}
use billee_software.Pxx.Backend.Motion.Laws.{first_fault, fault_error, joints, read_reports}
use billee_software.Pxx.System.{socket_can, System, copy_states, system_read}
use billee_software.Pxx.System.Laws.{Fits, IsShaped, with_backend-IsShaped}

-- The first node in fault, where `view` says what is known of each node.
abbrev pub faulty : (ℕ → MotorFeedback) → List ℕ → Option ℕ
faulty view [] = none
faulty view (node ∷ nodes) =
    let rest = faulty view nodes in if in_fault_state (view node) then some node else rest

abbrev pub fault_of : (ℕ → MotorFeedback) → ℕ → BackendError
fault_of view node =
    let f = view node in in_fault node f.status_word f.error_code (error_code_text f.error_code)

first_fault-faulty :
    (feedback : List MotorFeedback) (view : ℕ → MotorFeedback) (nodes : List ℕ)
    → ((k : ℕ) → get_or feedback k no_feedback ≡ view k)
    → first_fault feedback nodes ≡ faulty view nodes
first_fault-faulty feedback view [] same = refl
first_fault-faulty feedback view (node ∷ nodes) same =
    rw (same node, first_fault-faulty feedback view nodes same) refl

module _ {D : Type 0} ⦃d : Double D⦄ where
  -- The joints, converted.
  abbrev pub joints_of : (ℕ → MotorFeedback) → List ℕ → List D → List (JointState D)
  joints_of view (node ∷ nodes) (ratio ∷ ratios) =
      joint_of (view node) ratio ∷ joints_of view nodes ratios
  joints_of view nodes ratios = []

  joints-joints_of :
      (feedback : List MotorFeedback) (view : ℕ → MotorFeedback) (nodes : List ℕ) (ratios : List D)
      → ((k : ℕ) → get_or feedback k no_feedback ≡ view k)
      → joints feedback nodes ratios ≡ joints_of view nodes ratios
  joints-joints_of feedback view [] ratios same = refl
  joints-joints_of feedback view (node ∷ nodes) [] same = refl
  joints-joints_of feedback view (node ∷ nodes) (ratio ∷ ratios) same =
      rw (same node, joints-joints_of feedback view nodes ratios same) refl

  copy_states-map :
      (field : JointState D → D) (states : List (JointState D)) (olds : List D)
      → length states ≡ length olds
      → copy_states field states olds ≡ map field states
  unfolding copy_states
  copy_states-map field [] [] h = refl
  copy_states-map field [] (old ∷ olds) h = absurd (omega arith)
  copy_states-map field (state ∷ states) [] h = absurd (omega arith)
  copy_states-map field (state ∷ states) (old ∷ olds) h =
      ap (λ xs. field state ∷ xs) (copy_states-map field states olds (omega arith))

  -- What a `read` of the plugin says: OK with the converted joints, or ERROR, with the values as they
  -- were and an error that names the node in fault.
  abbrev pub Conveys :
      (ℕ → MotorFeedback)
      → List ℕ
      → List D
      → System D
      → Option ℕ
      → Option (Bool × System D)
      → Type 0
  Conveys view nodes ratios s none r =
      (t : System D) × (r ≡ some (true, t))
      × (t.hw_positions ≡ map (λ x. x.position_rad) (joints_of view nodes ratios))
      × (t.hw_velocities ≡ map (λ x. x.velocity_rad_s) (joints_of view nodes ratios))
  Conveys view nodes ratios s (some node) r =
      (t : System D) × (c : Backend) × (r ≡ some (false, t))
      × (t.hw_positions ≡ s.hw_positions)
      × (t.hw_velocities ≡ s.hw_velocities)
      × (t.backend ≡ some (socket_can c ratios))
      × (c.error ≡ some (fault_of view node))

  read-Conveys :
      (period : D) (n : ℕ) (ratios : List D) (b : Backend) (s : System D) (view : ℕ → MotorFeedback)
      → IsShaped n s
      → s.backend ≡ some (socket_can b ratios)
      → is_open b.can_transport ≡ true
      → ((k : ℕ) → get_or b.feedback k no_feedback ≡ view k)
      → Conveys view b.node_ids ratios s (faulty view b.node_ids) (system_read period s)
  unfolding system_read
  read-Conveys period n ratios b s view v present is_up same =
      let it : v.backend ≡ socket_can b ratios = ground (arith, present) in
      let (nodes, rates) = subst (Fits n) it v.fits in
      let (sized, report) = read_reports true ratios s.backend_states b is_up (rates ∙ sym nodes) in
      let found = first_fault-faulty b.feedback view b.node_ids same in
      let (_, got, c) = read true ratios s.backend_states b in
      let stored = record s { backend_states = got; backend = some (socket_can c ratios) } in
      elim (Option-cases (faulty view b.node_ids)) [
        | inl e ↦
            let (ok, states, _) = rw (found, e) at report in
            let shown = record stored {
              hw_positions = copy_states (λ x. x.position_rad) got s.hw_positions;
              hw_velocities = copy_states (λ x. x.velocity_rad_s) got s.hw_velocities;
            } in
            let converted = states ∙ joints-joints_of b.feedback view b.node_ids ratios same in
            rw e (
              shown,
              ground (arith, present, ok),
              copy_states-map _ got s.hw_positions (sized ∙ nodes ∙ sym v.positions)
                  ∙ ap (map (λ x. x.position_rad)) converted,
              copy_states-map _ got s.hw_velocities (sized ∙ nodes ∙ sym v.velocities)
                  ∙ ap (map (λ x. x.velocity_rad_s)) converted,
            )
        | inr (node, e) ↦
            let (failed, after) = rw (found, e) at report in
            let named : fault_error b.feedback node ≡ fault_of view node = rw (same node) refl in
            rw e (
              stored,
              c,
              ground (arith, present, failed),
              refl,
              refl,
              refl,
              ap (λ x. x.error) after ∙ ap some named,
            )
      ]

  -- The receiver of an active arm takes any frames, and then the plugin reads. If the status of no
  -- joint's node has the fault bit, the controllers see for each joint the last position and velocity
  -- that its node sent, converted; otherwise ERROR is returned, the controllers see what they saw
  -- before, and the error names the first such node. What other nodes send changes neither.
  pub system_read-rx_loop :
      (period : D) (n : ℕ) (ratios : List D) (b : Backend) (s : System D) (os : List (Option Frame))
      → IsShaped n s
      → s.backend ≡ some (socket_can b ratios)
      → IsActive b
      → let view = λ (k : ℕ). learned k os (get_or b.feedback k no_feedback) in
        Conveys view b.node_ids ratios s
          (faulty view b.node_ids)
          (system_read period (record s { backend = some (socket_can (rx_loop os b) ratios) }))
  system_read-rx_loop period n ratios b s os v present a =
      let kept = rx_loop-Untouched os b in
      let heard = rx_loop os b in
      let view = λ (k : ℕ). learned k os (get_or b.feedback k no_feedback) in
      let it : v.backend ≡ socket_can b ratios = ground (arith, present) in
      let (nodes, rates) = subst (Fits n) it v.fits in
      let shaped =
        with_backend-IsShaped n s (socket_can heard ratios) v
          (ap length kept.same_nodes ∙ nodes, rates) in
      let t = record s { backend = some (socket_can heard ratios) } in
      subst (λ ns. Conveys view ns ratios s (faulty view ns) (system_read period t)) kept.same_nodes
        (read-Conveys period n ratios heard t view shaped refl
          (ap is_open kept.same_transport ∙ a.opened)
          (λ k. rx_loop-learned os b k a.running a.sized))
