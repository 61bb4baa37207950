-- ===== src/Odesc/Backend/Laws.antt =====
-- The state between calls, and what reaches the wire.
use mathlib.Core.List.{append_assoc, append-nil}
use billee_software.Prelude.{
  ℕ, suc, ◌+◌, ◌≤◌, ◌≡◌, refl, ap, ◌∙◌, Bool, true, ◌&&◌, List, [], ◌∷◌, ◌++◌, ◌==◌, arith, length,
  map, All, Bool-cases, inl, inr, if◌then◌else◌,
}
use billee_software.Prelude.Int.{pos}
use billee_software.Double.{Double}
use billee_software.Pxx.Backend.Attempts.{taken, all_taken}
use billee_software.Pxx.Transport.{CanFrame, is_open}
use billee_software.Odesc.Can.{AxisState, Frame, make_axis_state_frame, make_input_velocity_frame}
use billee_software.Odesc.Transport.{socket_frame, send}
use billee_software.Odesc.Backend.{
  DriveBackend, Bus, send_frame, send_each, request_axis_state_all, write, velocity_frame,
  velocity_frames,
}

abbrev pub IsShort : Frame → Type 0
IsShort f = f.data_length ≤ 8

axis_frames-IsShort :
    (state : AxisState) (nodes : List ℕ)
    → All IsShort (map (λ node. make_axis_state_frame node state) nodes)
unfolding make_axis_state_frame
axis_frames-IsShort state [] = tt
axis_frames-IsShort state (node ∷ nodes) = (omega arith, axis_frames-IsShort state nodes)

-- The frames of `request_axis_state_all`, as the kernel gets them.
abbrev pub requests : AxisState → List ℕ → List CanFrame
requests state nodes = map socket_frame (map (λ node. make_axis_state_frame node state) nodes)

module _ {D : Type 0} ⦃d : Double D⦄ where
  -- The sends of a loop: every frame is attempted, and the result says whether the kernel took all.
  pub record Sends (w : ℕ → Bool) (fs : List CanFrame) (s : DriveBackend D) (before after : Bool)
      (t : DriveBackend D) : Type 0 where
    pub counted : t.writes ≡ s.writes + length fs
    pub wired : t.wire ≡ s.wire ++ taken w s.writes fs
    pub judged : after ≡ (before && all_taken w s.writes fs)
    pub same_socket : t.can_transport ≡ s.can_transport
    pub same_estimates : t.estimates ≡ s.estimates
    pub same_nodes : t.node_ids ≡ s.node_ids
    pub same_running : t.rx_running ≡ s.rx_running
    pub same_joinable : t.rx_joinable ≡ s.rx_joinable

  send_frame-Sends :
      (bus : Bus) (sink : Bool) (f : Frame) (before : Bool) (s : DriveBackend D)
      → is_open s.can_transport ≡ true
      → IsShort f
      → let (r, t) = send_frame bus sink f s in
        Sends bus.written (socket_frame f ∷ []) s before (before && r) t
  unfolding send_frame send
  send_frame-Sends bus sink f before s o h = ground (arith, append-nil s.wire)

  append-Sends :
      (w : ℕ → Bool) (f : CanFrame) (fs : List CanFrame) (s t u : DriveBackend D) (a b c : Bool)
      → Sends w (f ∷ []) s a b t
      → Sends w fs t b c u
      → Sends w (f ∷ fs) s a c u
  append-Sends w f fs s t u a b c p q =
      let start : t.writes ≡ suc s.writes = omega (arith, p.counted) in
      let rest = taken w (suc s.writes) fs in
      let wired : u.wire ≡ t.wire ++ rest = q.wired ∙ ap (λ k. t.wire ++ taken w k fs) start in
      let judged : c ≡ (b && all_taken w (suc s.writes) fs) =
        q.judged ∙ ap (λ k. b && all_taken w k fs) start in
      elim (Bool-cases (w s.writes)) [
        | inl e ↦ ground (arith, p, q, wired, judged, e, append_assoc s.wire (f ∷ []) rest)
        | inr e ↦ ground (arith, p, q, wired, judged, e, append-nil s.wire)
      ]

  none-Sends : (w : ℕ → Bool) (s : DriveBackend D) (a : Bool) → Sends w [] s a a s
  none-Sends w s a = ground (arith, append-nil s.wire)

  send_each-Sends :
      (bus : Bus) (sink : Bool) (fs : List Frame) (before : Bool) (s : DriveBackend D)
      → is_open s.can_transport ≡ true
      → All IsShort fs
      → let (ok, t) = send_each bus sink fs before s in
        Sends bus.written (map socket_frame fs) s before ok t
  unfolding send_each
  send_each-Sends bus sink [] before s o h = none-Sends bus.written s before
  send_each-Sends bus sink (f ∷ fs) before s o (short, h) =
      let (r, t) = send_frame bus sink f s in
      let one = send_frame-Sends bus sink f before s o short in
      append-Sends bus.written _ _ s t _ before (before && r) _ one
        (send_each-Sends bus sink fs (before && r) t (ap is_open one.same_socket ∙ o) h)

  velocity_frames-IsShort :
      (ratio : D) (nodes : List ℕ) (commands : List D)
      → All IsShort (velocity_frames ratio nodes commands)
  unfolding make_input_velocity_frame
  velocity_frames-IsShort ratio (node ∷ nodes) (command ∷ commands) =
      (omega arith, velocity_frames-IsShort ratio nodes commands)
  velocity_frames-IsShort ratio [] commands = tt
  velocity_frames-IsShort ratio (node ∷ nodes) [] = tt

  pub request-Sends :
      (bus : Bus) (sink : Bool) (state : AxisState) (s : DriveBackend D)
      → is_open s.can_transport ≡ true
      → let (ok, t) = request_axis_state_all bus sink state s in
        Sends bus.written (requests state s.node_ids) s true ok t
  unfolding request_axis_state_all
  request-Sends bus sink state s o =
      send_each-Sends bus sink _ true s o (axis_frames-IsShort state s.node_ids)

  pub write_frames-Sends :
      (bus : Bus) (sink : Bool) (commands : List D) (s : DriveBackend D)
      → is_open s.can_transport ≡ true
      → let frames = velocity_frames s.gear_ratio s.node_ids commands in
        let (ok, t) = send_each bus sink frames true s in
        Sends bus.written (map socket_frame frames) s true ok t
  write_frames-Sends bus sink commands s o =
      send_each-Sends bus sink _ true s o (velocity_frames-IsShort s.gear_ratio s.node_ids commands)

  -- For each wheel the input velocity of its node: the turns of the motor in a second for the
  -- commanded radians of the wheel.
  abbrev pub wheel_frames : D → List ℕ → List D → List CanFrame
  wheel_frames ratio [] commands = []
  wheel_frames ratio (node ∷ nodes) [] = []
  wheel_frames ratio (node ∷ nodes) (command ∷ commands) =
      socket_frame (
        make_input_velocity_frame node
          (d.float_bits (d.div (d.mul command ratio) (d.decimal (pos 6283185307179586) 15))))
      ∷ wheel_frames ratio nodes commands

  -- What an open drive backend attempts in `write`: one velocity for each wheel, if there is one
  -- command for each.
  abbrev pub velocities : List D → DriveBackend D → List CanFrame
  velocities commands s =
      if length commands == length s.node_ids
      then wheel_frames s.gear_ratio s.node_ids commands
      else []

  map-velocity_frames :
      (ratio : D) (nodes : List ℕ) (commands : List D)
      → map socket_frame (velocity_frames ratio nodes commands) ≡ wheel_frames ratio nodes commands
  map-velocity_frames ratio [] commands = refl
  map-velocity_frames ratio (node ∷ nodes) [] = refl
  map-velocity_frames ratio (node ∷ nodes) (command ∷ commands) =
      ap (λ l. socket_frame (velocity_frame ratio node command) ∷ l)
        (map-velocity_frames ratio nodes commands)

  -- An open backend attempts, if there is one command for each node, the velocity of every wheel, in
  -- order and whatever fails, and nothing otherwise: for each node a frame with its number and the
  -- motor's turns in a second, the command times the gear ratio by 2 pi. The result is `true` exactly
  -- when there is one command for each node and the kernel takes every frame. The estimates and the
  -- socket stay.
  pub drive_write_sends :
      (bus : Bus) (sink : Bool) (commands : List D) (s : DriveBackend D)
      → is_open s.can_transport ≡ true
      → let (ok, t) = write bus sink commands s in
        (t.wire ≡ s.wire ++ taken bus.written s.writes (velocities commands s))
        × (ok ≡ (
            (length commands == length s.node_ids)
            && all_taken bus.written s.writes (velocities commands s)))
        × (t.estimates ≡ s.estimates)
        × (t.can_transport ≡ s.can_transport)
  unfolding write
  drive_write_sends bus sink commands s o =
      let p = write_frames-Sends bus sink commands s o in
      elim (Bool-cases (length commands == length s.node_ids)) [
        | inl e ↦
            rw (o, e, ← map-velocity_frames s.gear_ratio s.node_ids commands)
              (p.wired, p.judged, p.same_estimates, p.same_socket)
        | inr e ↦ ground (arith, o, e, append-nil s.wire)
      ]
