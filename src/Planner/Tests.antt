-- ===== src/Planner/Tests.antt =====
-- A line of four steps, with whole numbers for doubles.
use Prim.Native.String.{String}
use billee_software.Prelude.{true}
use billee_software.Prelude.Int.{ℤ, pos, negsuc}
use billee_software.Whole.{whole_double}
use billee_software.Planner.{PoseStamped, StraightLine, create_plan}
use billee_software.Planner.Laws.{Planned, wanted_steps, create_plan-Planned}

abbrev planner : StraightLine ℤ
planner = record { name = "GridBased"; global_frame = "map"; interpolation_resolution = pos 2 }

abbrev pose : String → ℤ → ℤ → PoseStamped ℤ
pose frame x y = record {
  stamp = 5;
  frame_id = frame;
  x = x;
  y = y;
  z = pos 0;
  orientation_x = pos 0;
  orientation_y = pos 0;
  orientation_z = pos 1;
  orientation_w = pos 0;
}

create_plan-Planned_example :
    Planned
      (λ k. k)
      planner
      (pose "map" (pos 0) (pos 0))
      (pose "map" (pos 4) (negsuc 3))
      true
      (wanted_steps (λ k. k) planner (pose "map" (pos 0) (pos 0)) (pose "map" (pos 4) (negsuc 3)))
      (create_plan (λ k. k) planner (pose "map" (pos 0) (pos 0)) (pose "map" (pos 4) (negsuc 3)))
create_plan-Planned_example =
    create_plan-Planned (λ k. k) planner (pose "map" (pos 0) (pos 0))
      (pose "map" (pos 4) (negsuc 3))
