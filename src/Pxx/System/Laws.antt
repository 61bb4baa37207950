-- ===== src/Pxx/System/Laws.antt =====
-- Every vector of the plugin has one element for each joint, at every time after `on_init`.
use billee_software.Prelude.{
  ℕ, ◌≡◌, refl, ◌∙◌, Bool, true, false, Option, none, some, List, [], ◌∷◌, arith, length,
  length-map, subst, Option-cases, Bool-cases, inl, inr,
}
use mathlib.Core.Option
use billee_software.Double.{Double}
use billee_software.Pxx.Backend.{Bus}
use billee_software.Pxx.Backend.Lifecycle.Laws.{activate-nodes, deactivate-nodes}
use billee_software.Pxx.Backend.Motion.{JointState}
use billee_software.Pxx.Backend.Motion.Laws.{write-nodes, read-nodes}
use billee_software.Pxx.Mock.Laws.{
  MockFits, mock_activate-Fits, mock_deactivate-Fits, mock_read-Fits, mock_write-Fits,
}
use billee_software.Pxx.System.{
  MotorBackend, mock, socket_can, System, backend_activate, backend_deactivate, backend_read,
  backend_write, on_activate, on_deactivate, on_cleanup, on_shutdown, cleared, copy_states,
  system_read, system_write,
}

module _ {D : Type 0} ⦃d : Double D⦄ where
  abbrev pub Fits : ℕ → MotorBackend D → Type 0
  Fits n (mock m) = MockFits n m
  Fits n (socket_can b ratios) = (length b.node_ids ≡ n) × (length ratios ≡ n)

  pub record IsShaped (n : ℕ) (s : System D) : Type 0 where
    pub names : length s.joint_names ≡ n
    pub nodes : length s.node_ids ≡ n
    pub ratios : length s.gear_ratios ≡ n
    pub positions : length s.hw_positions ≡ n
    pub velocities : length s.hw_velocities ≡ n
    pub commands : length s.hw_commands ≡ n
    pub states : length s.backend_states ≡ n
    pub backend : MotorBackend D
    pub present : s.backend ≡ some backend
    pub fits : Fits n backend

  backend_activate-Fits :
      (bus : Bus) (n : ℕ) (b b' : MotorBackend D) (success : Bool)
      → Fits n b
      → backend_activate bus b ≡ some (success, b')
      → Fits n b'
  backend_activate-Fits bus n (mock m) b' success f e = ground (arith, mock_activate-Fits n m f)
  backend_activate-Fits bus n (socket_can b ratios) b' success f e =
      grind (arith, activate-nodes bus true b)

  backend_deactivate-Fits :
      (bus : Bus) (n : ℕ) (b : MotorBackend D) → Fits n b → Fits n (backend_deactivate bus b).1
  backend_deactivate-Fits bus n (mock m) f = mock_deactivate-Fits n m f
  backend_deactivate-Fits bus n (socket_can b ratios) f =
      ground (arith, deactivate-nodes bus true b)

  backend_read-Fits :
      (n : ℕ) (period : D) (states : List (JointState D)) (b : MotorBackend D)
      → Fits n b
      → length states ≡ n
      → let (ok, states', b') = backend_read period states b in Fits n b' × (length states' ≡ n)
  backend_read-Fits n period states (mock m) f h = mock_read-Fits n period states m f h
  backend_read-Fits n period states (socket_can b ratios) f h =
      ground (arith, read-nodes true ratios states b)

  backend_write-Fits :
      (bus : Bus) (n : ℕ) (commands : List D) (b : MotorBackend D)
      → Fits n b
      → Fits n (backend_write bus commands b).1
  backend_write-Fits bus n commands (mock m) f = mock_write-Fits n commands m f
  backend_write-Fits bus n commands (socket_can b ratios) f =
      ground (arith, write-nodes bus true ratios commands b)

  length-copy_states :
      (field : JointState D → D) (states : List (JointState D)) (olds : List D)
      → length (copy_states field states olds) ≡ length olds
  unfolding copy_states
  length-copy_states field [] olds = refl
  length-copy_states field (state ∷ states) [] = refl
  length-copy_states field (state ∷ states) (old ∷ olds) =
      omega (arith, length-copy_states field states olds)

  pub with_backend-IsShaped :
      (n : ℕ) (s : System D) (b : MotorBackend D)
      → IsShaped n s
      → Fits n b
      → IsShaped n (record s { backend = some b })
  with_backend-IsShaped n s b v f = record {
    names = v.names;
    nodes = v.nodes;
    ratios = v.ratios;
    positions = v.positions;
    velocities = v.velocities;
    commands = v.commands;
    states = v.states;
    backend = b;
    present = refl;
    fits = f;
  }

  cleared-IsShaped :
      (n : ℕ) (s : System D) (b : MotorBackend D)
      → IsShaped n s
      → Fits n b
      → IsShaped n (cleared b s)
  cleared-IsShaped n s b v f = record {
    names = v.names;
    nodes = v.nodes;
    ratios = v.ratios;
    positions = v.positions;
    velocities = length-map s.hw_velocities _ ∙ v.velocities;
    commands = length-map s.hw_commands _ ∙ v.commands;
    states = v.states;
    backend = b;
    present = refl;
    fits = f;
  }

  activate-IsShaped :
      (bus : Bus) (n : ℕ) (s t : System D) (success : Bool)
      → IsShaped n s
      → on_activate bus s ≡ some (success, t)
      → IsShaped n t
  unfolding on_activate
  activate-IsShaped bus n s t success v e = elim (Option-cases (backend_activate bus v.backend)) [
    | inl h ↦ absurd (ground (arith, v.present, h))
    | inr ((true, b'), h) ↦
        let f = backend_activate-Fits bus n v.backend b' true v.fits h in
        subst (IsShaped n) (ground (arith, v.present, h)) (cleared-IsShaped n s b' v f)
    | inr ((false, b'), h) ↦
        let f = backend_activate-Fits bus n v.backend b' false v.fits h in
        subst (IsShaped n) (ground (arith, v.present, h)) (with_backend-IsShaped n s b' v f)
  ]

  deactivate-IsShaped :
      (bus : Bus) (n : ℕ) (s t : System D)
      → IsShaped n s
      → on_deactivate bus s ≡ some t
      → IsShaped n t
  unfolding on_deactivate
  deactivate-IsShaped bus n s t v e =
      let b' = (backend_deactivate bus v.backend).1 in
      subst (IsShaped n) (ground (arith, v.present))
        (cleared-IsShaped n s b' v (backend_deactivate-Fits bus n v.backend v.fits))

  write-IsShaped :
      (bus : Bus) (n : ℕ) (s t : System D) (success : Bool)
      → IsShaped n s
      → system_write bus s ≡ some (success, t)
      → IsShaped n t
  unfolding system_write
  write-IsShaped bus n s t success v e =
      let b' = (backend_write bus s.hw_commands v.backend).1 in
      subst (IsShaped n) (ground (arith, v.present))
        (with_backend-IsShaped n s b' v (backend_write-Fits bus n s.hw_commands v.backend v.fits))

  states-IsShaped :
      (n : ℕ) (s : System D) (states : List (JointState D)) (positions velocities : List D)
      (b : MotorBackend D)
      → IsShaped n s
      → length states ≡ n
      → length positions ≡ n
      → length velocities ≡ n
      → Fits n b
      → IsShaped n (record s {
        backend_states = states;
        hw_positions = positions;
        hw_velocities = velocities;
        backend = some b;
      })
  states-IsShaped n s states positions velocities b v hs hp hv f = record {
    names = v.names;
    nodes = v.nodes;
    ratios = v.ratios;
    positions = hp;
    velocities = hv;
    commands = v.commands;
    states = hs;
    backend = b;
    present = refl;
    fits = f;
  }

  read-IsShaped :
      (period : D) (n : ℕ) (s t : System D) (success : Bool)
      → IsShaped n s
      → system_read period s ≡ some (success, t)
      → IsShaped n t
  unfolding system_read
  read-IsShaped period n s t success v e =
      let (ok, states, b') = backend_read period s.backend_states v.backend in
      let fit = backend_read-Fits n period s.backend_states v.backend v.fits v.states in
      let stored = record s { backend_states = states; backend = some b' } in
      let moved = record stored {
        hw_positions = copy_states (λ x. x.position_rad) states s.hw_positions;
        hw_velocities = copy_states (λ x. x.velocity_rad_s) states s.hw_velocities;
      } in
      let keeps =
        states-IsShaped n s states s.hw_positions s.hw_velocities b' v fit.1 v.positions
          v.velocities fit.0 in
      let copies =
        states-IsShaped n s states moved.hw_positions moved.hw_velocities b' v fit.1
          (length-copy_states _ states s.hw_positions ∙ v.positions)
          (length-copy_states _ states s.hw_velocities ∙ v.velocities) fit.0 in
      elim (Bool-cases ok) [
        | inl h ↦ subst (IsShaped n) (ground (arith, v.present, h)) copies
        | inr h ↦ subst (IsShaped n) (ground (arith, v.present, h)) keeps
      ]

-- A call of the plugin by the controller manager.
pub data Call (D : Type 0) : Type 0 where
  activates deactivates cleans_up shuts_down writes : Bus → Call D
  reads : D → Call D

module _ {D : Type 0} ⦃d : Double D⦄ where
  -- What a call leaves, whatever it returns; `none` ends the program.
  unfoldable pub run_call : Call D → System D → Option (System D)
  run_call (activates bus) s = Option.map (λ r. r.1) (on_activate bus s)
  run_call (deactivates bus) s = on_deactivate bus s
  run_call (cleans_up bus) s = on_cleanup bus s
  run_call (shuts_down bus) s = on_shutdown bus s
  run_call (writes bus) s = Option.map (λ r. r.1) (system_write bus s)
  run_call (reads period) s = Option.map (λ r. r.1) (system_read period s)

  map_inverse :
      (o : Option (Bool × System D)) (t : System D)
      → Option.map (λ r. r.1) o ≡ some t
      → (ok : Bool) × (o ≡ some (ok, t))
  map_inverse none t e = cc
  map_inverse (some (ok, u)) t e = (ok, ground arith)

  -- No call changes the length of a vector of the plugin or of its backend: each has one element for
  -- each joint before, so it has one after.
  pub run_call-IsShaped :
      (c : Call D) (n : ℕ) (s t : System D) → IsShaped n s → run_call c s ≡ some t → IsShaped n t
  unfolding run_call on_cleanup on_shutdown
  run_call-IsShaped (activates bus) n s t v e =
      let (ok, h) = map_inverse (on_activate bus s) t e in activate-IsShaped bus n s t ok v h
  run_call-IsShaped (deactivates bus) n s t v e = deactivate-IsShaped bus n s t v e
  run_call-IsShaped (cleans_up bus) n s t v e = deactivate-IsShaped bus n s t v e
  run_call-IsShaped (shuts_down bus) n s t v e = deactivate-IsShaped bus n s t v e
  run_call-IsShaped (writes bus) n s t v e =
      let (ok, h) = map_inverse (system_write bus s) t e in write-IsShaped bus n s t ok v h
  run_call-IsShaped (reads period) n s t v e =
      let (ok, h) = map_inverse (system_read period s) t e in read-IsShaped period n s t ok v h
