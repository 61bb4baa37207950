-- ===== src/Pxx/Can/Od.antt =====
-- `namespace od` of ros2_ws/src/pxx/include/pxx/can.hpp: object dictionary indices.
use billee_software.Prelude.{ℕ}

abbrev pub rpdo1_communication : ℕ
rpdo1_communication = 0x1400

abbrev pub rpdo1_mapping : ℕ
rpdo1_mapping = 0x1600

abbrev pub tpdo1_communication : ℕ
tpdo1_communication = 0x1800

abbrev pub tpdo2_communication : ℕ
tpdo2_communication = 0x1801

abbrev pub tpdo1_mapping : ℕ
tpdo1_mapping = 0x1A00

abbrev pub tpdo2_mapping : ℕ
tpdo2_mapping = 0x1A01

abbrev pub error_code : ℕ
error_code = 0x603F

abbrev pub control_word : ℕ
control_word = 0x6040

abbrev pub status_word : ℕ
status_word = 0x6041

abbrev pub mode_of_operation : ℕ
mode_of_operation = 0x6060

abbrev pub position_actual : ℕ
position_actual = 0x6064

abbrev pub velocity_actual : ℕ
velocity_actual = 0x606C

abbrev pub target_position : ℕ
target_position = 0x607A
