-- ===== src/Pxx.antt =====
-- The arm package, ros2_ws/src/pxx: P17 / P20 motors over CANopen.
pub mod Can
pub mod Transport
pub mod Backend
pub mod Mock
pub mod System
