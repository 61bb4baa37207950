-- ===== src/Odesc/System.antt =====
-- `OdescSystemHardware`, ros2_ws/src/odesc/src/odesc.cpp: the ros2_control plugin of the wheels. Log
-- lines are left out; the exported interfaces are named by joint and kind, with the index they point to.
pub mod Laws
use Prim.Native.String.{String}
use text.Mathlib.Text.{◌==◌ as str_eq}
use billee_software.Prelude.{
  ℕ, suc, ◌+◌, Bool, true, false, not, ◌&&◌, ◌||◌, Option, none, some, List, [], ◌∷◌, ◌++◌, ltb,
  if◌then◌else◌, length, map, replicate,
}
use billee_software.Prelude.Int.{ℤ, pos, negsuc}
use billee_software.Double.{Double, zero_d}
use billee_software.Params.{
  HardwareInfo, JointInfo, Platform, Failure, Result, ok, err, ◌>>=◌, ◌>>◌, require, or_fail,
  find_param, value_or, is_only, has_name,
}
use billee_software.Pxx.System.{Handle, InterfaceKind}
use billee_software.Odesc.Can.{max_node_id}
use billee_software.Odesc.Backend.{
  DriveBackend, Bus, WheelState, rest_wheel, new_drive, activate, deactivate, read, write,
}
use billee_software.Odesc.Mock.{
  MockDrive, new_mock_drive, mock_drive_activate, mock_drive_deactivate, mock_drive_read,
  mock_drive_write,
}

pub data Drive (D : Type 0) : Type 0 where
  mock : MockDrive D → Drive D
  socket_can : DriveBackend D → Drive D

pub record DriveSystem (D : Type 0) : Type 0 where
  pub gear_ratio : D
  pub joint_names : List String
  pub node_ids : List ℕ
  pub hw_positions : List D
  pub hw_velocities : List D
  pub hw_commands : List D
  pub backend_states : List (WheelState D)
  pub backend : Option (Drive D)

-- The node number, if it is in range.
abbrev pub node_of_int : ℤ → Option ℕ
node_of_int (pos n) = if ltb max_node_id n then none else some n
node_of_int (negsuc n) = none

abbrev state_handles : ℕ → List String → List Handle
state_handles i [] = []
state_handles i (name ∷ names) =
    record { joint = name; kind = InterfaceKind.position; element = i }
    ∷ record { joint = name; kind = InterfaceKind.velocity; element = i }
    ∷ state_handles (suc i) names

abbrev command_handles : ℕ → List String → List Handle
command_handles i [] = []
command_handles i (name ∷ names) =
    record { joint = name; kind = InterfaceKind.velocity; element = i }
    ∷ command_handles (suc i) names

module _ {D : Type 0} ⦃d : Double D⦄ where
  open d use {decimal, eq, is_finite}

  abbrev pub new_drive_system : DriveSystem D
  new_drive_system = record {
    gear_ratio = decimal (pos 48) 0;
    joint_names = [];
    node_ids = [];
    hw_positions = [];
    hw_velocities = [];
    hw_commands = [];
    backend_states = [];
    backend = none;
  }

  unfoldable pub create_drive_backend : String → ℕ → List ℕ → D → Drive D
  create_drive_backend endpoint joint_count node_ids gear_ratio =
      if str_eq endpoint "mock" || str_eq endpoint "none"
      then mock (new_mock_drive joint_count gear_ratio)
      else socket_can (new_drive endpoint node_ids gear_ratio)

  -- The node number of a joint, with its checks.
  unfoldable pub node_param : Platform D → JointInfo → Result ℕ
  node_param conv joint = do
    text ← or_fail (find_param "node_id" joint.parameters) (Failure.missing_node_id joint.name)
    number ← or_fail (conv.stoi text) Failure.exception
    or_fail (node_of_int number) (Failure.node_id_out_of_range joint.name number)

  -- One round of the loop over the joints.
  unfoldable pub init_joint : Platform D → JointInfo → DriveSystem D → Result (DriveSystem D)
  init_joint conv joint s = do
    require (is_only conv.hw_if_velocity joint.command_interfaces)
        (Failure.bad_command_interface joint.name)
    require
        (has_name conv.hw_if_position joint.state_interfaces
          && has_name conv.hw_if_velocity joint.state_interfaces)
        (Failure.missing_state_interface joint.name)
    node ← node_param conv joint
    ok (record s {
      joint_names = s.joint_names ++ joint.name ∷ [];
      node_ids = s.node_ids ++ node ∷ [];
    })

  unfoldable pub init_joints : Platform D → List JointInfo → DriveSystem D → Result (DriveSystem D)
  init_joints conv [] s = ok s
  init_joints conv (joint ∷ joints) s = do t ← init_joint conv joint s; init_joints conv joints t

  -- The gear ratio of the hardware block, or the one that the plugin has.
  abbrev pub ratio_or : Platform D → D → Option String → Option D
  ratio_or conv ratio none = some ratio
  ratio_or conv ratio (some text) = conv.stod text

  abbrev pub finish_init : String → ℕ → DriveSystem D → DriveSystem D
  finish_init connection n s = record s {
    hw_positions = replicate n zero_d;
    hw_velocities = replicate n zero_d;
    hw_commands = replicate n zero_d;
    backend_states = replicate n rest_wheel;
    backend = some (create_drive_backend connection n s.node_ids s.gear_ratio);
  }

  -- The flag is what the base class returns.
  unfoldable pub on_init : Platform D → Bool → HardwareInfo → DriveSystem D → Result (DriveSystem D)
  on_init conv base info s = do
    require base Failure.base_failed
    let connection = value_or "can2" (find_param "can_interface" info.hardware_parameters)
    ratio ←
        or_fail (ratio_or conv s.gear_ratio (find_param "gear_ratio" info.hardware_parameters))
          Failure.exception
    require (not (eq ratio zero_d) && is_finite ratio) Failure.bad_gear_ratio
    t ← init_joints conv info.joints (record s { gear_ratio = ratio })
    ok (finish_init connection (length info.joints) t)

  pub export_state_interfaces : DriveSystem D → List Handle
  export_state_interfaces s = state_handles 0 s.joint_names

  pub export_command_interfaces : DriveSystem D → List Handle
  export_command_interfaces s = command_handles 0 s.joint_names

  -- The virtual calls; `none` is `std::terminate`.
  abbrev pub drive_activate : Bus → Drive D → Option (Bool × Drive D)
  drive_activate bus (mock m) = some (true, mock (mock_drive_activate m))
  drive_activate bus (socket_can b) = elim (activate bus true b) [
    | none ↦ none
    | some (success, b') ↦ some (success, socket_can b')
  ]

  abbrev pub drive_deactivate : Bus → Drive D → Bool × Drive D
  drive_deactivate bus (mock m) = (true, mock (mock_drive_deactivate m))
  drive_deactivate bus (socket_can b) =
      let (success, b') = deactivate bus true b in (success, socket_can b')

  abbrev pub drive_read : D → List (WheelState D) → Drive D → Bool × List (WheelState D) × Drive D
  drive_read period states (mock m) =
      let (success, states', m') = mock_drive_read period states m in (success, states', mock m')
  drive_read period states (socket_can b) =
      let (success, states', b') = read true states b in (success, states', socket_can b')

  abbrev pub drive_write : Bus → List D → Drive D → Bool × Drive D
  drive_write bus commands (mock m) =
      let (success, m') = mock_drive_write commands m in (success, mock m')
  drive_write bus commands (socket_can b) =
      let (success, b') = write bus true commands b in (success, socket_can b')

  abbrev zeroed : List D → List D
  zeroed xs = map (λ _. zero_d) xs

  -- `false` is ERROR; `none` is a call before `on_init`, or `std::terminate`.
  pub on_activate : Bus → DriveSystem D → Option (Bool × DriveSystem D)
  on_activate bus s = elim s.backend [
    | none ↦ none
    | some b ↦ elim (drive_activate bus b) [
      | none ↦ none
      | some (success, b') ↦
          if success
          then some (
            true,
            record s {
              hw_commands = zeroed s.hw_commands;
              hw_positions = zeroed s.hw_positions;
              hw_velocities = zeroed s.hw_velocities;
              backend = some b';
            },
          )
          else some (false, record s { backend = some b' })
    ]
  ]

  -- A failure of the backend is a warning only. `on_cleanup` and `on_shutdown` are this function.
  pub on_deactivate : Bus → DriveSystem D → Option (DriveSystem D)
  on_deactivate bus s = elim s.backend [
    | none ↦ none
    | some b ↦
        let (_, b') = drive_deactivate bus b in
        some (record s {
          hw_commands = zeroed s.hw_commands;
          hw_velocities = zeroed s.hw_velocities;
          backend = some b';
        })
  ]

  pub on_cleanup : Bus → DriveSystem D → Option (DriveSystem D)
  on_cleanup bus s = on_deactivate bus s

  pub on_shutdown : Bus → DriveSystem D → Option (DriveSystem D)
  on_shutdown bus s = on_deactivate bus s

  -- `hw[i] = states[i].field`, for each joint.
  pub copy_states : (WheelState D → D) → List (WheelState D) → List D → List D
  copy_states field (state ∷ states) (old ∷ olds) = field state ∷ copy_states field states olds
  copy_states field states olds = olds

  pub system_read : D → DriveSystem D → Option (Bool × DriveSystem D)
  system_read period s = elim s.backend [
    | none ↦ none
    | some b ↦
        let (success, states, b') = drive_read period s.backend_states b in
        let t = record s { backend_states = states; backend = some b' } in
        if success
        then some (
          true,
          record t {
            hw_positions = copy_states (λ x. x.position_rad) states s.hw_positions;
            hw_velocities = copy_states (λ x. x.velocity_rad_s) states s.hw_velocities;
          },
        )
        else some (false, t)
  ]

  pub system_write : Bus → DriveSystem D → Option (Bool × DriveSystem D)
  system_write bus s = elim s.backend [
    | none ↦ none
    | some b ↦
        let (success, b') = drive_write bus s.hw_commands b in
        some (success, record s { backend = some b' })
  ]
