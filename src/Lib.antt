-- ===== src/Lib.antt =====
-- Verification of the C++ packages of the rover: those that drive its arm and wheels, its joystick
-- and GPS nodes, its simulated visual odometry and its path planner. The paths here are those under
-- ros2_ws/src.
--
-- The program. `pxx` and `odesc` are two ros2_control plugins of one shape. A plugin
-- (pxx/src/pxx.cpp, odesc/src/odesc.cpp) checks the URDF in `on_init`, owns the vectors that the
-- controllers see, and calls a backend through a virtual interface: a mock, or one that speaks to
-- the motors over SocketCAN (src/socketcan_motor_backend.cpp, src/socketcan_drive_backend.cpp) with
-- the frames and the transport of include/pxx/can.hpp and include/odesc/can.hpp. Each SocketCAN
-- backend has a second thread, the receiver, that stores feedback while the first one configures,
-- reads and writes.
--
-- The other packages are nodes of their own. `comms` (src/GpsNode.cpp) reads UBX messages from a serial
-- device and publishes a fix when a position and a covariance of one time have come. `zed2i`
-- (perception/zed2i/src/synthetic_vio_node.cpp) turns true poses of the simulation to noisy, delayed
-- ones. `navigation` (src/straight_line_planner.cpp) interpolates between start and goal.
--
-- The files.
--   Prelude, Double, Words, Params   shared notation; the interface of `double`; little-endian bytes;
--       `hardware_interface::HardwareInfo` and the conversions of <string>.
--   Declares                         the interface of `declare_parameter`.
--   Pxx/Can, Pxx/Can/Parse           the frames of pxx/include/pxx/can.hpp, and their parsers.
--   Pxx/Transport                    `pxx_can::SocketCanTransport`.
--   Pxx/Backend                      `SocketCanMotorBackend`: state, receiver, SDO transaction;
--       Configure is `configure_node`, Lifecycle `activate` and `deactivate`, Motion `read` and
--       `write`; the other children are proofs: Serving and the files named Progress are about a bus
--       where the drives answer, Errors about the error string, Motion/Runs about any order of
--       reads, writes and rounds of the receiver.
--   Pxx/Mock, Pxx/System             `MockMotorBackend`, `PxxSystemHardware`; System/Starts and Reports
--       compose the plugin with its backend.
--   Odesc/...                        the same parts of odesc; Backend/Reachable is about any calls in any
--       order.
--   Teleop                           `JoyTankDrive`, teleop/src/joy_teleop.cpp: the joystick's twists.
--   Vio/Seed, Vio/Geometry           `fnv1a` and `stream_seed`; zed2i/geometry_utils.hpp.
--   Vio/Random, Vio/Step             the interface of <random>; computations on a state.
--   Vio/Model, Vio/State, Vio/Node   `SyntheticVioNode`: its parameters and `select_model`; its state
--       and queue; its constructor and callbacks. Vio/Node's children are proofs.
--   Vio/Declared                     the constructor from the declaration of its parameters on.
--   Gps/Payload, Gps/Device, Gps/Node  comms/include/comms/Gps.hpp, SerialDevice.hpp, and `Gps`.
--   Planner                          `StraightLine`.
--   Toy, Whole, the Tests files      concrete data, and the results at a concrete input.
-- A function keeps the name of the C++ one, in lower case with underscores. A callback that returns
-- a flag and changes the object is a function to the flag and the new object.
--
-- Choices. A `double` is a type with the operations that the code uses, so what is proved holds of
-- any of them; what a theorem needs of them is among its hypotheses. In the drives' frames a
-- `float` is its 32 bits, and in Teleop another such type, with the widening. The kernel's answers
-- (socket, ioctl, bind, write) are arguments, in the record `Bus`, which also says how the two
-- threads of the arm's backend interleave: what the receiver takes before each wait of the caller
-- and during it, with a wake-up of the waiter at any point. The receiver takes a frame at once or
-- not at all, as the mutexes have it, and frames that it takes while the caller only sends are
-- given with the next wait, since the sends read nothing that it writes. All loops run over lists
-- or count down, but for the two of `wrap_angle`, which have fuel: on doubles rounded as IEEE 754
-- says, as much as Vio/Geometry/Rounding names is enough, and where a turn changes nothing no fuel
-- is. `std::terminate`, when a thread object that still runs is assigned, is `none`, and so are the
-- conversion of a double to an int that does not hold it and the deletion of a literal. A buffer that is not initialised is an argument, as are the times of the
-- clock. The engine of <random> and its distributions are the record `Random`, of which nothing is
-- assumed; what `declare_parameter` gives for a name and a default is the record `Declares`.
--
-- Not modelled: log lines, the texts of errno, timing (a wait ends at a timeout that the script of
-- events stands for), and the subscriptions and publishers of ROS, which deliver and take messages.
pub mod Prelude
pub mod Double
pub mod Words
pub mod Params
pub mod Declares
pub mod Gps
pub mod Odesc
pub mod Planner
pub mod Pxx
pub mod Teleop
pub mod Toy
pub mod Vio
pub mod Whole
