-- ===== src/Pxx/Can/Dispatch.antt =====
-- Which parser takes which frame: the order of the tests in `rx_loop` does not matter, and every
-- node number that comes out of a parser indexes the 128 entries of `feedback_`.
use billee_software.Prelude.{ℕ, ◌<◌, ◌≡◌, ◌⊎◌, ◌+◌, Option, none, some, arith}
use billee_software.Prelude.Int.{ℤ}
use billee_software.Words.Masks.{and_function_mask, and_node_mask}
use billee_software.Pxx.Can.{
  Frame, NmtCommand, make_nmt_frame, make_sync_frame, make_sdo_write_frame, make_sdo_read_frame,
  make_target_position_frame,
}
use billee_software.Pxx.Can.Parse.{
  parse_sdo_response, parse_motion_feedback, parse_status_feedback, parse_emergency, SdoResponse,
  MotionFeedback, StatusFeedback, Emergency,
}

-- One of two parsers refuses.
abbrev pub Clash {ℓ κ} : {A : Type ℓ} {B : Type κ} → Option A → Option B → Type (ℓ ⊔ κ)
Clash a b = (a ≡ none) ⊎ (b ≡ none)

-- No frame is taken by two of the four parsers.
pub parsers_exclusive :
    (f : Frame)
    → Clash (parse_motion_feedback f) (parse_status_feedback f)
      × Clash (parse_motion_feedback f) (parse_emergency f)
      × Clash (parse_motion_feedback f) (parse_sdo_response f)
      × Clash (parse_status_feedback f) (parse_emergency f)
      × Clash (parse_status_feedback f) (parse_sdo_response f)
      × Clash (parse_emergency f) (parse_sdo_response f)
unfolding parse_motion_feedback parse_status_feedback parse_emergency parse_sdo_response
parsers_exclusive f = ground arith

-- What holds of a value that is there.
abbrev pub Holds {ℓ} : {A : Type ℓ} → (A → Type 0) → Option A → Type 0
Holds P none = Unit {0}
Holds P (some a) = P a

-- Whatever the parsers take comes from a node below 128, and an emergency from a node above 0.
pub parsed_node_bounds :
    (f : Frame)
    → Holds (λ (m : MotionFeedback). m.node_id < 128) (parse_motion_feedback f)
      × Holds (λ (s : StatusFeedback). s.node_id < 128) (parse_status_feedback f)
      × Holds (λ (e : Emergency). (0 < e.node_id) × (e.node_id < 128)) (parse_emergency f)
      × Holds (λ (r : SdoResponse). r.node_id < 128) (parse_sdo_response f)
unfolding parse_motion_feedback parse_status_feedback parse_emergency parse_sdo_response
parsed_node_bounds f = ground (arith, and_node_mask f.arbitration_id)

-- No parser takes the frame.
abbrev pub Ignored : Frame → Type 0
Ignored f =
    (parse_motion_feedback f ≡ none)
    × (parse_status_feedback f ≡ none)
    × (parse_emergency f ≡ none)
    × (parse_sdo_response f ≡ none)

-- What the host sends to a node below 128 is ignored by its own receiver.
pub requests-Ignored :
    (c : NmtCommand) (node index subindex value size : ℕ) (counts : ℤ)
    → node < 128
    → Ignored (make_nmt_frame c node)
      × Ignored make_sync_frame
      × Ignored (make_sdo_write_frame node index subindex value size)
      × Ignored (make_sdo_read_frame node index subindex)
      × Ignored (make_target_position_frame node counts)
unfolding make_nmt_frame make_sync_frame make_sdo_write_frame make_sdo_read_frame
    make_target_position_frame parse_motion_feedback parse_status_feedback parse_emergency
    parse_sdo_response
requests-Ignored c node index subindex value size counts h =
    ground (arith, and_function_mask (0x600 + node), and_function_mask (0x200 + node))
