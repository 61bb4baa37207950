-- ===== src/Vio.antt =====
-- The synthetic visual odometry of ros2_ws/src/perception/zed2i.
pub mod Seed
pub mod Geometry
pub mod Random
pub mod Step
pub mod Model
pub mod State
pub mod Node
pub mod Declared
mod Tests
