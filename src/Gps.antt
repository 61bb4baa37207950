-- ===== src/Gps.antt =====
-- The GPS node of ros2_ws/src/comms.
pub mod Payload
pub mod Device
pub mod Node
mod Tests
