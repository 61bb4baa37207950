-- ===== src/Odesc/Backend/Estimates.antt =====
-- What `read` says after a frame of encoder estimates.
use billee_software.Prelude.{
  ℕ, ◌<◌, ◌≡◌, refl, Bool, true, some, List, [], ◌∷◌, ◌==◌, arith, length, set, get_or, get_or-set,
  ==_iff, if◌then◌else◌,
}
use billee_software.Double.{Double}
use billee_software.Pxx.Transport.{is_open}
use billee_software.Pxx.Backend.Motion.{resize}
use billee_software.Pxx.Backend.Motion.Laws.{length-resize}
use billee_software.Odesc.Can.{Frame, EncoderEstimate, parse_arbitration_id, parse_encoder_estimate}
use billee_software.Odesc.Can.Laws.{parse_arbitration_id-bounds}
use billee_software.Odesc.Can.Commands.{Command, command_code}
use billee_software.Odesc.Backend.{
  DriveBackend, rx_round, read, WheelState, Estimate, no_estimate, read_wheels, wheel_of,
  rest_wheel,
}
use billee_software.Odesc.Backend.Lifecycle.{IsWell, estimate_of}

module _ {D : Type 0} ⦃d : Double D⦄ where
  -- The wheels of the nodes, by a function that gives the estimates.
  abbrev pub wheels : D → (ℕ → Estimate D) → List ℕ → List (WheelState D)
  wheels ratio estimate_at [] = []
  wheels ratio estimate_at (node ∷ nodes) =
      wheel_of ratio (estimate_at node) ∷ wheels ratio estimate_at nodes

  read_wheels_lem :
      (ratio : D) (estimates : List (Estimate D)) (estimate_at : ℕ → Estimate D) (nodes : List ℕ)
      (states : List (WheelState D))
      → ((k : ℕ) → get_or estimates k no_estimate ≡ estimate_at k)
      → length states ≡ length nodes
      → read_wheels ratio estimates nodes states ≡ wheels ratio estimate_at nodes
  unfolding read_wheels
  read_wheels_lem ratio estimates estimate_at [] [] same h = refl
  read_wheels_lem ratio estimates estimate_at [] (old ∷ states) same h = absurd (omega arith)
  read_wheels_lem ratio estimates estimate_at (node ∷ nodes) [] same h = absurd (omega arith)
  read_wheels_lem ratio estimates estimate_at (node ∷ nodes) (old ∷ states) same h =
      let rest = read_wheels_lem ratio estimates estimate_at nodes states same (omega arith) in
      rw (same node, rest)

  -- When the receiver takes a whole frame of encoder estimates, the next `read` gives the wheels of
  -- that frame's node the frame's position and velocity, converted, and every other wheel what it
  -- had.
  pub read-rx_round :
      (sink : Bool) (f : Frame) (e : EncoderEstimate) (states : List (WheelState D))
      (s : DriveBackend D)
      → IsWell s
      → is_open s.can_transport ≡ true
      → parse_encoder_estimate f ≡ some e
      → (parse_arbitration_id f.arbitration_id).command_id
        ≡ command_code Command.get_encoder_estimates
      → let id = parse_arbitration_id f.arbitration_id in
        let (ok, states', _) = read sink states (rx_round (some f) s) in
        (ok ≡ true)
        × (states'
            ≡ wheels s.gear_ratio
                (λ k. if k == id.node_id then estimate_of e else get_or s.estimates k no_estimate)
                s.node_ids)
  unfolding read rx_round
  read-rx_round sink f e states s w o parsed command =
      let id = parse_arbitration_id f.arbitration_id in
      let stored = record s { estimates = set s.estimates id.node_id (estimate_of e) } in
      let inside : id.node_id < length s.estimates =
        omega (arith, w.sized, (parse_arbitration_id-bounds f.arbitration_id).0) in
      let same : rx_round (some f) s ≡ stored =
        ground (arith, w.running, o, parsed, (==_iff _ _).1 command) in
      let sized = length-resize (length s.node_ids) rest_wheel states in
      let rows =
        read_wheels_lem s.gear_ratio stored.estimates
          (λ k. if k == id.node_id then estimate_of e else get_or s.estimates k no_estimate)
          s.node_ids (resize (length s.node_ids) rest_wheel states)
          (λ k. get_or-set s.estimates id.node_id k (estimate_of e) no_estimate inside) sized in
      rw (same, o) (refl, rows)
