-- ===== src/Odesc/Backend/Lifecycle.antt =====
-- The drives' backend between its calls, and its start.
use billee_software.Prelude.{◌≡◌, List, length}
use billee_software.Double.{Double}
use billee_software.Pxx.Transport.{is_open}
use billee_software.Odesc.Can.{EncoderEstimate}
use billee_software.Odesc.Backend.{DriveBackend, Estimate}

module _ {D : Type 0} ⦃d : Double D⦄ where
  open d use {of_float_bits}

  -- The socket, the flag and the thread go together, and every node number has its estimate.
  pub record IsWell (s : DriveBackend D) : Type 0 where
    pub sized : length s.estimates ≡ 64
    pub running : s.rx_running ≡ is_open s.can_transport
    pub joinable : s.rx_joinable ≡ is_open s.can_transport

  -- And the nodes stay.
  pub IsKept : DriveBackend D → DriveBackend D → Type 0
  IsKept s t = IsWell t × (t.node_ids ≡ s.node_ids)

  abbrev pub estimate_of : EncoderEstimate → Estimate D
  estimate_of e = record {
    position_turns = of_float_bits e.position_turns;
    velocity_turns_s = of_float_bits e.velocity_turns_s;
  }
