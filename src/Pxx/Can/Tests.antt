-- ===== src/Pxx/Can/Tests.antt =====
-- The laws of the arm's protocol, at one frame each.
use billee_software.Prelude.{◌<◌, [], ◌∷◌, arith, false}
use billee_software.Prelude.Int.{pos}
use billee_software.Pxx.Can.{
  Frame, NmtCommand, make_nmt_frame, make_sync_frame, make_sdo_write_frame, make_sdo_read_frame,
  make_target_position_frame,
}
use billee_software.Pxx.Can.Parse.{
  parse_sdo_response, parse_motion_feedback, parse_status_feedback, parse_emergency, MotionFeedback,
  StatusFeedback, Emergency, SdoResponse,
}
use billee_software.Pxx.Can.Dispatch.{
  Clash, Holds, Ignored, parsers_exclusive, parsed_node_bounds, requests-Ignored,
}

-- Motion feedback of node 5.
abbrev motion : Frame
motion = record {
  arbitration_id = 0x185;
  extended = false;
  data_length = 8;
  payload = 1 ∷ 2 ∷ 3 ∷ 4 ∷ 5 ∷ 6 ∷ 7 ∷ 8 ∷ [];
}

parsers_exclusive_example :
    Clash (parse_motion_feedback motion) (parse_status_feedback motion)
    × Clash (parse_motion_feedback motion) (parse_emergency motion)
    × Clash (parse_motion_feedback motion) (parse_sdo_response motion)
    × Clash (parse_status_feedback motion) (parse_emergency motion)
    × Clash (parse_status_feedback motion) (parse_sdo_response motion)
    × Clash (parse_emergency motion) (parse_sdo_response motion)
parsers_exclusive_example = parsers_exclusive motion

parsed_node_bounds_example :
    Holds (λ (m : MotionFeedback). m.node_id < 128) (parse_motion_feedback motion)
    × Holds (λ (s : StatusFeedback). s.node_id < 128) (parse_status_feedback motion)
    × Holds (λ (e : Emergency). (0 < e.node_id) × (e.node_id < 128)) (parse_emergency motion)
    × Holds (λ (r : SdoResponse). r.node_id < 128) (parse_sdo_response motion)
parsed_node_bounds_example = parsed_node_bounds motion

requests-Ignored_example :
    Ignored (make_nmt_frame NmtCommand.start 5)
    × Ignored make_sync_frame
    × Ignored (make_sdo_write_frame 5 0x6040 0 6 2)
    × Ignored (make_sdo_read_frame 5 0x6040 0)
    × Ignored (make_target_position_frame 5 (pos 70))
requests-Ignored_example = requests-Ignored NmtCommand.start 5 0x6040 0 6 2 (pos 70) (omega arith)
