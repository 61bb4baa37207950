-- ===== src/Pxx/System/Starts.antt =====
-- From `on_init` to an active arm that stands still, on a bus where every drive answers.
use Prim.Native.String.{String}
use text.Mathlib.Text.{◌==◌ as str_eq}
use billee_software.Prelude.{
  ℕ, ◌≤◌, ◌≡◌, refl, ap, ◌∙◌, true, false, ◌||◌, none, some, List, [], ◌∷◌, All, arith, length,
}
use billee_software.Double.{Double}
use billee_software.Params.{value_or, find_param, HardwareInfo, Platform, ok}
use billee_software.Pxx.Transport.{fresh, open_on}
use billee_software.Pxx.Backend.{Backend, Bus, new_backend}
use billee_software.Pxx.Backend.Lifecycle.{activate}
use billee_software.Pxx.Backend.Lifecycle.Laws.{IsIdle}
use billee_software.Pxx.Backend.Lifecycle.Progress.{CooperateAll, activate_succeeds}
use billee_software.Pxx.System.{
  socket_can, System, new_system, create_motor_backend, on_init, on_activate, cleared,
}
use billee_software.Pxx.System.Init.{InRange, on_init-IsChecked, on_init-create_motor_backend}
use billee_software.Pxx.System.Still.{StaysStill, on_activate-StaysStill}

-- `can_interface` of the URDF, or "can0".
abbrev pub connection_of : HardwareInfo → String
connection_of info = value_or "can0" (find_param "can_interface" info.hardware_parameters)

-- The name of a socket, not of the mock backend.
abbrev pub IsSocketName : String → Type 0
IsSocketName name = (str_eq name "mock" || str_eq name "none") ≡ false

new_backend-IsIdle : (name : String) (nodes : List ℕ) → IsIdle (new_backend name nodes)
unfolding new_backend
new_backend-IsIdle name nodes = record { closed = refl; stopped = refl; joined = refl }

small_nodes : (nodes : List ℕ) → All InRange nodes → All (λ node. node ≤ 127) nodes
small_nodes [] h = tt
small_nodes (node ∷ nodes) ((_, small), hs) = (small, small_nodes nodes hs)

module _ {D : Type 0} ⦃d : Double D⦄ where
  open d use {nan, is_nan}

  create_motor_backend-socket :
      (name : String) (nodes : List ℕ) (ratios : List D)
      → IsSocketName name
      → create_motor_backend name nodes ratios ≡ socket_can (new_backend name nodes) ratios
  unfolding create_motor_backend
  create_motor_backend-socket name nodes ratios h = rw h refl

  on_activate_done :
      (bus : Bus) (ratios : List D) (b c : Backend) (s : System D)
      → s.backend ≡ some (socket_can b ratios)
      → activate bus true b ≡ some (true, c)
      → on_activate bus s ≡ some (true, cleared (socket_can c ratios) s)
  unfolding on_activate
  on_activate_done bus ratios b c s present e = ground (arith, present, e)

  -- If NaN is not a number, `on_init` accepted a URDF that names a socket, the socket can be opened
  -- and takes every frame, and every drive serves its requests in turn, then `on_activate` succeeds,
  -- and the next `write` attempts SYNC alone.
  pub on_activate-on_init :
      (nan_is_nan : is_nan nan ≡ true) (conv : Platform D) (info : HardwareInfo) (bus bus' : Bus)
      (s : System D)
      → on_init conv true info new_system ≡ ok s
      → IsSocketName (connection_of info)
      → (open_on bus.opened fresh).0 ≡ none
      → ((k : ℕ) → bus.written k ≡ true)
      → CooperateAll bus 0 s.node_ids
      → (t : System D) × (on_activate bus s ≡ some (true, t)) × StaysStill bus' s.gear_ratios t
  unfolding new_backend
  on_activate-on_init h conv info bus bus' s e named opens all_written drives =
      let b = new_backend (connection_of info) s.node_ids in
      let present : s.backend ≡ some (socket_can b s.gear_ratios) =
        on_init-create_motor_backend conv true info s e
        ∙ ap some
            (create_motor_backend-socket (connection_of info) s.node_ids s.gear_ratios named) in
      let (shaped, _, nodes, _, _, _, _) = on_init-IsChecked conv true info s e in
      let idle = new_backend-IsIdle (connection_of info) s.node_ids in
      let (c, started, _, _) =
        activate_succeeds bus true all_written b idle opens (small_nodes s.node_ids nodes) drives in
      let t = cleared (socket_can c s.gear_ratios) s in
      let active = on_activate_done bus s.gear_ratios b c s present started in
      (
        t,
        active,
        on_activate-StaysStill h bus bus' (length info.joints) s.gear_ratios b s t shaped present
            idle active,
      )
