-- ===== src/Odesc/Backend/Reachable.antt =====
-- The states of the drives' backend that its calls and the receiver's rounds lead to.
use Prim.Native.String.{String}
use mathlib.Core.Option.{some-injective, none-ne-some}
use billee_software.Prelude.{
  ℕ, ◌≡◌, refl, sym, ap, subst, ◌∙◌, Bool, true, false, not, ◌||◌, Option, none, some, List, ◌==◌,
  arith, length, length-set, Bool-cases, Option-cases, inl, inr,
}
use billee_software.Double.{Double}
use billee_software.Pxx.Transport.{CanFrame, is_open, open_on}
use billee_software.Pxx.Backend.Lifecycle.Laws.{open_on-is_open, closed-is_open}
use billee_software.Odesc.Can.{AxisState, Frame, parse_arbitration_id, parse_encoder_estimate}
use billee_software.Odesc.Backend.{
  new_drive, DriveBackend, Bus, rx_round, request_axis_state_all, activate, deactivate, set_error,
  read, write, empty_estimates, WheelState, transport,
}
use billee_software.Odesc.Backend.Laws.{Sends, request-Sends, write_frames-Sends}
use billee_software.Odesc.Backend.Lifecycle.{estimate_of}

module _ {D : Type 0} ⦃d : Double D⦄ where
  -- Every node number has its estimate, the flag and the thread go together, and while the socket is
  -- open they are on.
  pub record IsSound (s : DriveBackend D) : Type 0 where
    pub sized : length s.estimates ≡ 64
    pub joinable : s.rx_joinable ≡ s.rx_running
    pub served : (not (is_open s.can_transport) || s.rx_running) ≡ true

  -- A call that returns, in any state, or a round of the receiver.
  pub data Step (s : DriveBackend D) : DriveBackend D → Type 0 where
    activates :
        (bus : Bus) (sink ok : Bool) (t : DriveBackend D)
        → activate bus sink s ≡ some (ok, t)
        → Step s t
    deactivates : (bus : Bus) (sink : Bool) → Step s (deactivate bus sink s).1
    writes : (bus : Bus) (sink : Bool) (commands : List D) → Step s (write bus sink commands s).1
    reads : (sink : Bool) (states : List (WheelState D)) → Step s (read sink states s).2
    receives : (f : Option Frame) → Step s (rx_round f s)

  -- Any number of steps.
  pub data Steps (s : DriveBackend D) : DriveBackend D → Type 0 where
    none_yet : Steps s s
    one_more : (t u : DriveBackend D) → Steps s t → Step t u → Steps s u

  abbrev Holds : DriveBackend D → DriveBackend D → Type 0
  Holds s t = IsSound t × (t.node_ids ≡ s.node_ids)

  -- A new backend has these properties.
  pub new_drive-IsSound :
      (name : String) (nodes : List ℕ) (ratio : D) → IsSound (new_drive name nodes ratio)
  unfolding new_drive
  new_drive-IsSound name nodes ratio = record { sized = refl; joinable = refl; served = refl }

  Sends-IsSound :
      (w : ℕ → Bool) (fs : List CanFrame) (s t : DriveBackend D) (a b : Bool)
      → Sends w fs s a b t
      → IsSound s
      → IsSound t
  Sends-IsSound w fs s t a b p v = record {
    sized = ap length p.same_estimates ∙ v.sized;
    joinable = p.same_joinable ∙ v.joinable ∙ sym p.same_running;
    served =
        ap (λ o. not o || t.rx_running) (ap is_open p.same_socket)
        ∙ ap (λ r. not (is_open s.can_transport) || r) p.same_running
        ∙ v.served;
  }

  activate-IsSound :
      (bus : Bus) (sink ok : Bool) (s t : DriveBackend D)
      → IsSound s
      → activate bus sink s ≡ some (ok, t)
      → Holds s t
  unfolding activate
  activate-IsSound bus sink ok s t v e =
      let socket = (open_on bus.opened s.can_transport).1 in
      let opened = record s { can_transport = socket } in
      let started = record opened {
        estimates = empty_estimates;
        rx_running = true;
        rx_joinable = true;
      } in
      let state = open_on-is_open bus.opened s.can_transport in
      elim (Option-cases (open_on bus.opened s.can_transport).0) [
        | inr (reason, h) ↦
            let o : is_open socket ≡ false = rw h at state in
            let failed = set_error sink (transport reason) opened in
            let same : failed ≡ t = ground (arith, h) in
            let kept : Holds s failed = ground (arith, o, v.sized, v.joinable, v.served) in
            subst (Holds s) same kept
        | inl h ↦ elim (Bool-cases s.rx_joinable) [
          | inl j ↦ absurd (none-ne-some _ (rw (activate, h, j) at e))
          | inr j ↦
              let o : is_open socket ≡ true = rw h at state in
              let asked =
                (request_axis_state_all bus sink AxisState.closed_loop_control started).1 in
              let p = request-Sends bus sink AxisState.closed_loop_control started o in
              let same : asked ≡ t =
                ap (λ r. r.1) (some-injective _ _ (rw (activate, h, j) at e)) in
              let begun : IsSound started = record {
                sized = refl;
                joinable = refl;
                served = rw o refl;
              } in
              subst (Holds s) same (Sends-IsSound _ _ started asked _ _ p begun, p.same_nodes)
        ]
      ]

  deactivate-IsSound :
      (bus : Bus) (sink : Bool) (s : DriveBackend D) → IsSound s → Holds s (deactivate bus sink s).1
  unfolding deactivate
  deactivate-IsSound bus sink s v =
      let p = request-Sends bus sink AxisState.idle s in
      elim (Bool-cases (is_open s.can_transport)) [
        | inl o ↦
            let q = p o in
            rw o (
              record {
                sized = ap length q.same_estimates ∙ v.sized;
                joinable = refl;
                served = rw closed-is_open refl;
              },
              q.same_nodes,
            )
        | inr c ↦
            rw c
              (record { sized = v.sized; joinable = refl; served = rw closed-is_open refl }, refl)
      ]

  write-IsSound :
      (bus : Bus) (sink : Bool) (commands : List D) (s : DriveBackend D)
      → IsSound s
      → Holds s (write bus sink commands s).1
  unfolding write
  write-IsSound bus sink commands s v =
      let p = write_frames-Sends bus sink commands s in
      elim (Bool-cases (is_open s.can_transport)) [
        | inr c ↦ ground (arith, c, v.sized, v.joinable, v.served)
        | inl o ↦ elim (Bool-cases (length commands == length s.node_ids)) [
          | inr c ↦ ground (arith, o, c, v.sized, v.joinable, v.served)
          | inl e ↦ rw (o, e) (Sends-IsSound _ _ s _ _ _ (p o) v, (p o).same_nodes)
        ]
      ]

  read-IsSound :
      (sink : Bool) (states : List (WheelState D)) (s : DriveBackend D)
      → IsSound s
      → Holds s (read sink states s).2
  unfolding read
  read-IsSound sink states s v = ground (arith, v.sized, v.joinable, v.served)

  rx_round-IsSound : (f : Option Frame) (s : DriveBackend D) → IsSound s → Holds s (rx_round f s)
  unfolding rx_round
  rx_round-IsSound none s v = (v, refl)
  rx_round-IsSound (some f) s v =
      let id = parse_arbitration_id f.arbitration_id in
      let keeps = length-set s.estimates id.node_id in
      elim (Option-cases (parse_encoder_estimate f)) [
        | inl none_there ↦ ground (arith, none_there, v.sized, v.joinable, v.served)
        | inr (e, there) ↦
            ground (arith, there, v.sized, v.joinable, v.served, keeps (estimate_of e))
      ]

  Step-IsSound : (s t : DriveBackend D) → Step s t → IsSound s → Holds s t
  Step-IsSound s _ (activates bus sink ok t e) v = activate-IsSound bus sink ok s t v e
  Step-IsSound s _ (deactivates bus sink) v = deactivate-IsSound bus sink s v
  Step-IsSound s _ (writes bus sink commands) v = write-IsSound bus sink commands s v
  Step-IsSound s _ (reads sink states) v = read-IsSound sink states s v
  Step-IsSound s _ (receives f) v = rx_round-IsSound f s v

  -- From a state with these properties on, whatever calls are made and return, in whatever state, and
  -- whatever frames come between them: while the socket is open the receiver runs, the thread is
  -- joinable exactly while it is told to run, there is an estimate for each of the 64 node numbers,
  -- and the nodes stay. The receiver may run without a socket: after an `activate` of an open backend
  -- whose socket then does not open.
  pub Steps-IsSound :
      (s t : DriveBackend D) → IsSound s → Steps s t → IsSound t × (t.node_ids ≡ s.node_ids)
  Steps-IsSound s _ v none_yet = (v, refl)
  Steps-IsSound s _ v (one_more u t before last) =
      let (sound, same) = Steps-IsSound s u v before in
      let (sound', same') = Step-IsSound u t last sound in (sound', same' ∙ same)
