-- ===== src/Pxx/System.antt =====
-- `PxxSystemHardware`, ros2_ws/src/pxx/src/pxx.cpp: the ros2_control plugin of the arm. Log lines are
-- left out; the exported interfaces are named by joint and kind, with the index they point to.
pub mod Laws
pub mod Init
pub mod Still
pub mod Starts
pub mod Reports
mod Tests
use Prim.Native.String.{String}
use text.Mathlib.Text.{◌==◌ as str_eq}
use billee_software.Prelude.{
  ℕ, suc, ◌+◌, Bool, true, false, not, ◌&&◌, ◌||◌, Option, none, some, List, [], ◌∷◌, ◌++◌, ltb,
  leb, if◌then◌else◌, length, map, replicate,
}
use billee_software.Prelude.Int.{ℤ, pos, negsuc}
use billee_software.Double.{Double, zero_d}
use billee_software.Params.{
  HardwareInfo, JointInfo, Platform, Failure, Result, ok, err, ◌>>=◌, ◌>>◌, require, or_fail,
  find_param, value_or, is_only, has_name,
}
use billee_software.Pxx.Can.{min_node_id, max_node_id}
use billee_software.Pxx.Backend.{Backend, Bus, new_backend}
use billee_software.Pxx.Backend.Lifecycle.{activate, deactivate}
use billee_software.Pxx.Backend.Motion.{JointState, zero_joint, read, write}
use billee_software.Pxx.Mock.{
  MockBackend, new_mock, mock_activate, mock_deactivate, mock_read, mock_write,
}

-- The two implementations of `MotorBackend`; the socket's comes with its gear ratios.
pub data MotorBackend (D : Type 0) : Type 0 where
  mock : MockBackend D → MotorBackend D
  socket_can : Backend → List D → MotorBackend D

pub record System (D : Type 0) : Type 0 where
  pub joint_names : List String
  pub node_ids : List ℕ
  pub gear_ratios : List D
  pub hw_positions : List D
  pub hw_velocities : List D
  pub hw_commands : List D
  pub backend_states : List (JointState D)
  pub backend : Option (MotorBackend D)

pub data InterfaceKind : Type 0 where
  position velocity : InterfaceKind

-- A handle: the joint, the kind, and the element that it points to.
pub record Handle : Type 0 where
  pub joint : String
  pub kind : InterfaceKind
  pub element : ℕ

-- The node number, if it is in range.
abbrev pub node_of_int : ℤ → Option ℕ
node_of_int (pos n) = if ltb n min_node_id || ltb max_node_id n then none else some n
node_of_int (negsuc n) = none

abbrev state_handles : ℕ → List String → List Handle
state_handles i [] = []
state_handles i (name ∷ names) =
    record { joint = name; kind = InterfaceKind.position; element = i }
    ∷ record { joint = name; kind = InterfaceKind.velocity; element = i }
    ∷ state_handles (suc i) names

abbrev command_handles : ℕ → List String → List Handle
command_handles i [] = []
command_handles i (name ∷ names) =
    record { joint = name; kind = InterfaceKind.position; element = i }
    ∷ command_handles (suc i) names

module _ {D : Type 0} ⦃d : Double D⦄ where
  open d use {decimal, nan, eq, is_finite}

  abbrev pub new_system : System D
  new_system = record {
    joint_names = [];
    node_ids = [];
    gear_ratios = [];
    hw_positions = [];
    hw_velocities = [];
    hw_commands = [];
    backend_states = [];
    backend = none;
  }

  pub create_motor_backend : String → List ℕ → List D → MotorBackend D
  unfolding new_mock new_backend
  create_motor_backend endpoint node_ids gear_ratios =
      if str_eq endpoint "mock" || str_eq endpoint "none"
      then mock (new_mock (length node_ids))
      else socket_can (new_backend endpoint node_ids) gear_ratios

  -- The gear ratio is 1.0 where the parameter is missing.
  abbrev ratio_of : Platform D → Option String → Option D
  ratio_of conv none = some (decimal (pos 1) 0)
  ratio_of conv (some text) = conv.stod text

  -- The two parameters of a joint, with their checks.
  pub node_param : Platform D → JointInfo → Result ℕ
  node_param conv joint = do
    text ← or_fail (find_param "node_id" joint.parameters) (Failure.missing_node_id joint.name)
    number ← or_fail (conv.stoi text) Failure.exception
    or_fail (node_of_int number) (Failure.node_id_out_of_range joint.name number)

  pub ratio_param : Platform D → JointInfo → Result D
  ratio_param conv joint = do
    ratio ← or_fail (ratio_of conv (find_param "gear_ratio" joint.parameters)) Failure.exception
    require (not (eq ratio zero_d) && is_finite ratio) Failure.bad_gear_ratio
    ok ratio

  -- One round of the loop over the joints.
  pub init_joint : Platform D → JointInfo → System D → Result (System D)
  init_joint conv joint s = do
    require (is_only conv.hw_if_position joint.command_interfaces)
        (Failure.bad_command_interface joint.name)
    require
        (has_name conv.hw_if_position joint.state_interfaces
          && has_name conv.hw_if_velocity joint.state_interfaces)
        (Failure.missing_state_interface joint.name)
    node ← node_param conv joint
    ratio ← ratio_param conv joint
    ok (record s {
      joint_names = s.joint_names ++ joint.name ∷ [];
      node_ids = s.node_ids ++ node ∷ [];
      gear_ratios = s.gear_ratios ++ ratio ∷ [];
    })

  pub init_joints : Platform D → List JointInfo → System D → Result (System D)
  init_joints conv [] s = ok s
  init_joints conv (joint ∷ joints) s = do t ← init_joint conv joint s; init_joints conv joints t

  -- After the loop.
  abbrev finish_init : String → ℕ → System D → System D
  finish_init connection n s = record s {
    hw_positions = replicate n zero_d;
    hw_velocities = replicate n zero_d;
    hw_commands = replicate n nan;
    backend_states = replicate n zero_joint;
    backend = some (create_motor_backend connection s.node_ids s.gear_ratios);
  }

  -- The flag is what the base class returns.
  pub on_init : Platform D → Bool → HardwareInfo → System D → Result (System D)
  on_init conv base info s = do
    require base Failure.base_failed
    let connection = value_or "can0" (find_param "can_interface" info.hardware_parameters)
    t ← init_joints conv info.joints s
    ok (finish_init connection (length info.joints) t)

  pub export_state_interfaces : System D → List Handle
  export_state_interfaces s = state_handles 0 s.joint_names

  pub export_command_interfaces : System D → List Handle
  export_command_interfaces s = command_handles 0 s.joint_names

  -- The virtual calls; `none` is `std::terminate`.
  abbrev pub backend_activate : Bus → MotorBackend D → Option (Bool × MotorBackend D)
  backend_activate bus (mock m) = some (true, mock (mock_activate m))
  backend_activate bus (socket_can b ratios) = elim (activate bus true b) [
    | none ↦ none
    | some (success, b') ↦ some (success, socket_can b' ratios)
  ]

  abbrev pub backend_deactivate : Bus → MotorBackend D → Bool × MotorBackend D
  backend_deactivate bus (mock m) = (true, mock (mock_deactivate m))
  backend_deactivate bus (socket_can b ratios) =
      let (success, b') = deactivate bus true b in (success, socket_can b' ratios)

  abbrev pub backend_read :
      D → List (JointState D) → MotorBackend D → Bool × List (JointState D) × MotorBackend D
  backend_read period states (mock m) =
      let (success, states', m') = mock_read period states m in (success, states', mock m')
  backend_read period states (socket_can b ratios) =
      let (success, states', b') = read true ratios states b in
      (success, states', socket_can b' ratios)

  abbrev pub backend_write : Bus → List D → MotorBackend D → Bool × MotorBackend D
  backend_write bus commands (mock m) =
      let (success, m') = mock_write commands m in (success, mock m')
  backend_write bus commands (socket_can b ratios) =
      let (success, b') = write bus true ratios commands b in (success, socket_can b' ratios)

  -- `std::fill` of the commands with NaN and of the velocities with 0.
  abbrev pub cleared : MotorBackend D → System D → System D
  cleared b s = record s {
    hw_commands = map (λ _. nan) s.hw_commands;
    hw_velocities = map (λ _. zero_d) s.hw_velocities;
    backend = some b;
  }

  -- `false` is ERROR; `none` is a call before `on_init`, or `std::terminate`.
  pub on_activate : Bus → System D → Option (Bool × System D)
  on_activate bus s = elim s.backend [
    | none ↦ none
    | some b ↦ elim (backend_activate bus b) [
      | none ↦ none
      | some (success, b') ↦
          if success
          then some (true, cleared b' s)
          else some (false, record s { backend = some b' })
    ]
  ]

  -- A failure of the backend is a warning only. `on_cleanup` and `on_shutdown` are this function.
  pub on_deactivate : Bus → System D → Option (System D)
  on_deactivate bus s = elim s.backend [
    | none ↦ none
    | some b ↦ let (_, b') = backend_deactivate bus b in some (cleared b' s)
  ]

  pub on_cleanup : Bus → System D → Option (System D)
  on_cleanup bus s = on_deactivate bus s

  pub on_shutdown : Bus → System D → Option (System D)
  on_shutdown bus s = on_deactivate bus s

  -- `hw[i] = states[i].field`, for each joint.
  pub copy_states : (JointState D → D) → List (JointState D) → List D → List D
  copy_states field (state ∷ states) (old ∷ olds) = field state ∷ copy_states field states olds
  copy_states field states olds = olds

  pub system_read : D → System D → Option (Bool × System D)
  system_read period s = elim s.backend [
    | none ↦ none
    | some b ↦
        let (success, states, b') = backend_read period s.backend_states b in
        let t = record s { backend_states = states; backend = some b' } in
        if success
        then some (
          true,
          record t {
            hw_positions = copy_states (λ x. x.position_rad) states s.hw_positions;
            hw_velocities = copy_states (λ x. x.velocity_rad_s) states s.hw_velocities;
          },
        )
        else some (false, t)
  ]

  pub system_write : Bus → System D → Option (Bool × System D)
  system_write bus s = elim s.backend [
    | none ↦ none
    | some b ↦
        let (success, b') = backend_write bus s.hw_commands b in
        some (success, record s { backend = some b' })
  ]
