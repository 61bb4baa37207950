-- ===== src/Pxx/Can/Cob.antt =====
-- `namespace cob` of ros2_ws/src/pxx/include/pxx/can.hpp: function codes, above the node number.
use billee_software.Prelude.{ℕ}

abbrev pub nmt : ℕ
nmt = 0x000

abbrev pub sync : ℕ
sync = 0x080

abbrev pub emcy : ℕ
emcy = 0x080

abbrev pub tpdo1 : ℕ
tpdo1 = 0x180

abbrev pub tpdo2 : ℕ
tpdo2 = 0x280

abbrev pub rpdo1 : ℕ
rpdo1 = 0x200

-- drive to host
abbrev pub tsdo : ℕ
tsdo = 0x580

-- host to drive
abbrev pub rsdo : ℕ
rsdo = 0x600

abbrev pub heartbeat : ℕ
heartbeat = 0x700

abbrev pub function_mask : ℕ
function_mask = 0x780

abbrev pub node_mask : ℕ
node_mask = 0x07F
