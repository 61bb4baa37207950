-- ===== src/Pxx/Backend/Configure.antt =====
-- `SocketCanMotorBackend::configure_node`: one drive from boot to "operation enabled".
pub mod Frames
pub mod Judged
pub mod Order
pub mod Progress
use billee_software.Prelude.{
  ℕ, ◌+◌, ◌^◌, ◌%◌, bit_and, bit_or, Bool, true, false, not, ◌||◌, Option, none, some, List, [],
  ◌∷◌, ◌++◌, ◌==◌, if◌then◌else◌, get_or, set,
}
use billee_software.Words.{to_int32}
use billee_software.Pxx.Can.{
  NmtCommand, Mode, mode_code, pdo_map_entry, pdo_disabled, pdo_transmission_sync_every,
  make_nmt_frame, error_code_text,
}
use billee_software.Pxx.Can.Cob
use billee_software.Pxx.Can.Od
use billee_software.Pxx.Can.ControlWord
use billee_software.Pxx.Can.StatusWord
use billee_software.Pxx.Backend.{
  Backend, Bus, M, pure, ◌>>=◌, ◌>>◌, no_feedback, set_error, not_enabled, send_frame, sdo_write,
  sdo_read,
}

-- The arguments of one `sdo_write`.
pub record Entry : Type 0 where
  pub index : ℕ
  pub subindex : ℕ
  pub value : ℕ
  pub size : ℕ

abbrev entry : ℕ → ℕ → ℕ → ℕ → Entry
entry index subindex value size = record {
  index = index;
  subindex = subindex;
  value = value;
  size = size;
}

-- The writes that are joined by `&&`, in their order.
abbrev pub mapping : ℕ → List Entry
mapping node_id =
    let rpdo1 = Cob.rpdo1 + node_id in
    let tpdo1 = Cob.tpdo1 + node_id in
    let tpdo2 = Cob.tpdo2 + node_id in
    entry Od.control_word 0 ControlWord.fault_reset 2
    ∷ entry Od.mode_of_operation 0 (mode_code Mode.cyclic_sync_position) 1
    ∷ entry Od.rpdo1_communication 1 (bit_or pdo_disabled rpdo1) 4
    ∷ entry Od.rpdo1_mapping 0 0 1
    ∷ entry Od.rpdo1_mapping 1 (pdo_map_entry Od.target_position 0 32) 4
    ∷ entry Od.rpdo1_mapping 0 1 1
    ∷ entry Od.rpdo1_communication 2 pdo_transmission_sync_every 1
    ∷ entry Od.rpdo1_communication 1 rpdo1 4
    ∷ entry Od.tpdo1_communication 1 (bit_or pdo_disabled tpdo1) 4
    ∷ entry Od.tpdo1_mapping 0 0 1
    ∷ entry Od.tpdo1_mapping 1 (pdo_map_entry Od.position_actual 0 32) 4
    ∷ entry Od.tpdo1_mapping 2 (pdo_map_entry Od.velocity_actual 0 32) 4
    ∷ entry Od.tpdo1_mapping 0 2 1
    ∷ entry Od.tpdo1_communication 2 pdo_transmission_sync_every 1
    ∷ entry Od.tpdo1_communication 1 tpdo1 4
    ∷ entry Od.tpdo2_communication 1 (bit_or pdo_disabled tpdo2) 4
    ∷ entry Od.tpdo2_mapping 0 0 1
    ∷ entry Od.tpdo2_mapping 1 (pdo_map_entry Od.status_word 0 16) 4
    ∷ entry Od.tpdo2_mapping 0 1 1
    ∷ entry Od.tpdo2_communication 2 pdo_transmission_sync_every 1
    ∷ entry Od.tpdo2_communication 1 tpdo2 4
    ∷ []

-- The three commands that bring the drive to "operation enabled".
abbrev pub enabling : List Entry
enabling =
    entry Od.control_word 0 ControlWord.shutdown 2
    ∷ entry Od.control_word 0 ControlWord.switch_on 2
    ∷ entry Od.control_word 0 ControlWord.enable_operation 2
    ∷ []

-- `feedback_[node_id].position_counts = ...`
unfoldable pub seed_position : ℕ → ℕ → M (Unit {0})
seed_position node_id position s =
    let old = get_or s.feedback node_id no_feedback in
    let new = record old { position_counts = to_int32 position } in
    (some tt, record s { feedback = set s.feedback node_id new })

-- A status word with the fault bit, or without the enabled one.
abbrev pub is_refused : ℕ → Bool
is_refused status =
    not (bit_and status StatusWord.fault == 0) || bit_and status StatusWord.operation_enabled == 0

-- `error_code` stays 0 when it cannot be read.
abbrev code_or_zero : Option ℕ → ℕ
code_or_zero none = 0
code_or_zero (some code) = code

module _ (bus : Bus) (sink : Bool) where
  unfoldable pub write_all : ℕ → List Entry → M (Unit {0})
  write_all node_id [] = pure tt
  write_all node_id (e ∷ es) =
      sdo_write bus sink node_id e.index e.subindex e.value e.size >> write_all node_id es

  -- The error code is read without an error string.
  unfoldable pub fail_enable : ℕ → ℕ → M (Unit {0})
  fail_enable node_id status s =
      let (read, s') = sdo_read bus false node_id Od.error_code 0 s in
      let code = code_or_zero read in
      (none, set_error sink (not_enabled node_id status code (error_code_text (code % 2 ^ 16))) s')

  unfoldable pub check_enabled : ℕ → M (Unit {0})
  check_enabled node_id = do
    status ← sdo_read bus sink node_id Od.status_word 0
    if is_refused status then fail_enable node_id status else pure tt

  -- Pre-operational, the PDO mapping, and the position that the drive reports.
  unfoldable pub locate : ℕ → M ℕ
  locate node_id = do
    send_frame bus sink (make_nmt_frame NmtCommand.enter_pre_operational node_id)
    write_all node_id (mapping node_id)
    sdo_read bus sink node_id Od.position_actual 0

  -- The target is seeded with the reported position before the drive is enabled.
  unfoldable pub enable_at : ℕ → ℕ → M (Unit {0})
  enable_at node_id position = do
    sdo_write bus sink node_id Od.target_position 0 position 4
    seed_position node_id position
    send_frame bus sink (make_nmt_frame NmtCommand.start node_id)
    write_all node_id enabling

  unfoldable pub configure_node : ℕ → M (Unit {0})
  configure_node node_id = do
    position ← locate node_id
    enable_at node_id position
    check_enabled node_id
