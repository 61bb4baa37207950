-- ===== src/Pxx/System/Tests.antt =====
-- Runs of the arm's plugin with one joint.
use billee_software.Prelude.{
  ℕ, get_or, ◌≡◌, refl, ap, true, none, some, List, [], ◌∷◌, arith, All, map,
}
use billee_software.Prelude.Int.{pos}
use mathlib.Core.Option
use billee_software.Toy.{Toy, toy_double, toy_platform, toy_hardware}
use billee_software.Params.{ok, stated_node}
use billee_software.Pxx.Backend.{Backend, new_backend, rx_loop, no_feedback}
use billee_software.Pxx.Backend.Lifecycle.{activate}
use billee_software.Pxx.Backend.Motion.{zero_joint}
use billee_software.Pxx.Backend.Feedback.{learned}
use billee_software.Pxx.System.Reports.{Conveys, faulty, system_read-rx_loop}
use billee_software.Pxx.Backend.Tests.{
  active_arm-IsActive, answering, idle_arm, active_arm, idle_arm-IsIdle, starts,
}
use billee_software.Pxx.System.{
  socket_can, System, new_system, create_motor_backend, node_param, ratio_param, init_joint,
  init_joints, on_init, on_activate, cleared, system_read,
}
use billee_software.Pxx.System.Laws.{IsShaped, run_call, run_call-IsShaped, activates}
use billee_software.Pxx.System.Init.{InRange, IsUsable, stated_ratio, on_init-IsChecked}
use billee_software.Pxx.System.Starts.{on_activate-on_init}
use billee_software.Pxx.Transport.{open_on, close}
use billee_software.Pxx.Backend.Lifecycle.Tests.{drive-Cooperates, heard}
use billee_software.Pxx.System.Still.{StaysStill, on_activate-StaysStill}

abbrev ratios : List Toy
ratios = some 2 ∷ []

-- What `on_init` makes of the one-joint arm.
abbrev plugin : System Toy
plugin = record {
  joint_names = "joint_1" ∷ [];
  node_ids = 1 ∷ [];
  gear_ratios = ratios;
  hw_positions = some 0 ∷ [];
  hw_velocities = some 0 ∷ [];
  hw_commands = none ∷ [];
  backend_states = zero_joint ∷ [];
  backend = some (socket_can idle_arm ratios);
}

plugin_made : on_init toy_platform true (toy_hardware "position") new_system ≡ ok plugin
unfolding on_init init_joints init_joint node_param ratio_param create_motor_backend new_backend
plugin_made = refl

abbrev running : System Toy
running = cleared (socket_can active_arm ratios) plugin

starts_with :
    (b c : Backend)
    → activate answering true b ≡ some (true, c)
    → on_activate answering (record plugin { backend = some (socket_can b ratios) })
      ≡ some (true, cleared (socket_can c ratios) plugin)
unfolding on_activate
starts_with b c e = ground (arith, e)

plugin_starts : on_activate answering plugin ≡ some (true, running)
plugin_starts = starts_with idle_arm active_arm starts

plugin-IsShaped : IsShaped 1 plugin
unfolding new_backend
plugin-IsShaped = record {
  names = refl;
  nodes = refl;
  ratios = refl;
  positions = refl;
  velocities = refl;
  commands = refl;
  states = refl;
  backend = socket_can idle_arm ratios;
  present = refl;
  fits = (refl, refl);
}

running-IsShaped : IsShaped 1 running
unfolding run_call
running-IsShaped =
    run_call-IsShaped (activates answering) 1 plugin running plugin-IsShaped
      (ap (Option.map (λ r. r.1)) plugin_starts)

on_init-IsChecked_example :
    IsShaped 1 plugin
    × (plugin.joint_names ≡ "joint_1" ∷ [])
    × All InRange plugin.node_ids
    × All IsUsable plugin.gear_ratios
    × (plugin.hw_commands ≡ none ∷ [])
    × (map (stated_node toy_platform) (toy_hardware "position").joints
        ≡ map (λ n. some (pos n)) plugin.node_ids)
    × (map (stated_ratio toy_platform) (toy_hardware "position").joints
        ≡ map some plugin.gear_ratios)
on_init-IsChecked_example =
    on_init-IsChecked toy_platform true (toy_hardware "position") plugin plugin_made

run_call-IsShaped_example : IsShaped 1 running
unfolding run_call
run_call-IsShaped_example =
    run_call-IsShaped (activates answering) 1 plugin running plugin-IsShaped
      (ap (Option.map (λ r. r.1)) plugin_starts)

on_activate-StaysStill_example : StaysStill answering ratios running
on_activate-StaysStill_example =
    on_activate-StaysStill refl answering answering 1 ratios idle_arm plugin running plugin-IsShaped
      refl idle_arm-IsIdle plugin_starts

on_activate-on_init_example :
    (t : System Toy) × (on_activate answering plugin ≡ some (true, t))
    × StaysStill answering plugin.gear_ratios t
unfolding open_on close
on_activate-on_init_example =
    on_activate-on_init refl toy_platform (toy_hardware "position") answering answering plugin
      plugin_made refl refl (λ _. refl) (drive-Cooperates, tt)

system_read-rx_loop_example :
    let view = λ (k : ℕ). learned k heard (get_or active_arm.feedback k no_feedback) in
    Conveys view active_arm.node_ids ratios running (faulty view active_arm.node_ids) (
      system_read
        (some 1)
        (record running { backend = some (socket_can (rx_loop heard active_arm) ratios) }))
system_read-rx_loop_example =
    system_read-rx_loop (some 1) 1 ratios active_arm running heard running-IsShaped refl
      active_arm-IsActive
