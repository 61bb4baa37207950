-- ===== src/Pxx/Can/ControlWord.antt =====
-- `namespace control_word` of ros2_ws/src/pxx/include/pxx/can.hpp: CiA402 commands.
use billee_software.Prelude.{ℕ}

abbrev pub disable_voltage : ℕ
disable_voltage = 0x0000

abbrev pub shutdown : ℕ
shutdown = 0x0006

abbrev pub switch_on : ℕ
switch_on = 0x0007

abbrev pub enable_operation : ℕ
enable_operation = 0x000F

abbrev pub fault_reset : ℕ
fault_reset = 0x0080
