-- ===== src/Pxx/Can/Sdo.antt =====
-- `namespace sdo` of ros2_ws/src/pxx/include/pxx/can.hpp: command specifiers.
use billee_software.Prelude.{ℕ}

abbrev pub upload : ℕ
upload = 0x40

abbrev pub download_response : ℕ
download_response = 0x60

abbrev pub abort : ℕ
abort = 0x80

-- Milliseconds.
abbrev pub timeout : ℕ
timeout = 100
