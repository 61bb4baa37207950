-- ===== src/Odesc.antt =====
-- The wheel drives: ros2_ws/src/odesc.
pub mod Can
pub mod Transport
pub mod Backend
pub mod Mock
pub mod System
mod Tests
