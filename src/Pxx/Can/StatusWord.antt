-- ===== src/Pxx/Can/StatusWord.antt =====
-- `namespace status_word` of ros2_ws/src/pxx/include/pxx/can.hpp: CiA402 status bits.
use billee_software.Prelude.{ℕ}

abbrev pub ready_to_switch_on : ℕ
ready_to_switch_on = 0x001

abbrev pub switched_on : ℕ
switched_on = 0x002

abbrev pub operation_enabled : ℕ
operation_enabled = 0x004

abbrev pub fault : ℕ
fault = 0x008

abbrev pub voltage_enabled : ℕ
voltage_enabled = 0x010

abbrev pub quick_stop : ℕ
quick_stop = 0x020

abbrev pub switch_on_disabled : ℕ
switch_on_disabled = 0x040

abbrev pub warning : ℕ
warning = 0x080

abbrev pub target_reached : ℕ
target_reached = 0x400
