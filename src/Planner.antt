-- ===== src/Planner.antt =====
-- `StraightLine`, ros2_ws/src/navigation/src/straight_line_planner.cpp, with the state of
-- include/navigation/straight_line_planner.hpp. `clock k` is the answer of the k-th call of `now()` in
-- a plan. `none` is the conversion of a double to an int that cannot hold it, which is undefined.
pub mod Laws
mod Tests
use Prim.Native.String.{String}
use text.Mathlib.Text.{◌==◌ as str_eq}
use billee_software.Prelude.{
  ℕ, zero, suc, ◌+◌, ◌^◌, Bool, true, false, ◌&&◌, Option, none, some, List, [], ◌∷◌, ◌++◌, ltb,
  if◌then◌else◌,
}
use billee_software.Prelude.Int.{ℤ, pos, negsuc}
use billee_software.Double.{Double, zero_d}

pub record PoseStamped (D : Type 0) : Type 0 where
  pub stamp : ℕ
  pub frame_id : String
  pub x : D
  pub y : D
  pub z : D
  pub orientation_x : D
  pub orientation_y : D
  pub orientation_z : D
  pub orientation_w : D

-- `nav_msgs::msg::Path`.
pub record Plan (D : Type 0) : Type 0 where
  pub stamp : ℕ
  pub frame_id : String
  pub poses : List (PoseStamped D)

pub record StraightLine (D : Type 0) : Type 0 where
  pub name : String
  pub global_frame : String
  pub interpolation_resolution : D

abbrev pub empty_plan : {D : Type 0} → Plan D
empty_plan = record { stamp = 0; frame_id = ""; poses = [] }

abbrev pub fits_int : ℤ → Bool
fits_int (pos n) = ltb n (2 ^ 31)
fits_int (negsuc n) = ltb n (2 ^ 31)

-- How often `i < total` holds from 0 on.
abbrev pub iterations : ℤ → ℕ
iterations (pos n) = n
iterations (negsuc n) = 0

module _ {D : Type 0} ⦃d : Double D⦄ where
  open d use {decimal, of_int, add, sub, mul, div, truncate, is_finite, hypot}

  -- With the costmap's frame, and the parameter if it has been set.
  unfoldable pub configure : String → String → Option D → StraightLine D
  configure name global_frame given = record {
    name = name;
    global_frame = global_frame;
    interpolation_resolution = elim given [ none ↦ decimal (pos 1) 1 | some value ↦ value ];
  }

  -- The conversion of a double to an int, towards 0.
  abbrev pub to_int : D → Option ℤ
  to_int x = if is_finite x && fits_int (truncate x) then some (truncate x) else none

  -- `total_number_of_loop`.
  abbrev pub total_number_of_loop : StraightLine D → PoseStamped D → PoseStamped D → Option ℤ
  total_number_of_loop s start goal =
      to_int (div (hypot (sub goal.x start.x) (sub goal.y start.y)) s.interpolation_resolution)

  -- The pose of iteration `i`.
  abbrev pub step_pose : (ℕ → ℕ) → StraightLine D → PoseStamped D → D → D → ℕ → PoseStamped D
  step_pose clock s start x_increment y_increment i = record {
    stamp = clock (i + 1);
    frame_id = s.global_frame;
    x = add start.x (mul x_increment (of_int (pos i)));
    y = add start.y (mul y_increment (of_int (pos i)));
    z = zero_d;
    orientation_x = zero_d;
    orientation_y = zero_d;
    orientation_z = zero_d;
    orientation_w = decimal (pos 1) 0;
  }

  -- The loop, `left` iterations from `i` on.
  unfoldable pub poses_from :
      (ℕ → ℕ) → StraightLine D → PoseStamped D → D → D → ℕ → ℕ → List (PoseStamped D)
  poses_from clock s start x_increment y_increment zero i = []
  poses_from clock s start x_increment y_increment (suc left) i =
      step_pose clock s start x_increment y_increment i
      ∷ poses_from clock s start x_increment y_increment left (i + 1)

  abbrev pub goal_pose : (ℕ → ℕ) → StraightLine D → PoseStamped D → ℤ → PoseStamped D
  goal_pose clock s goal total = record goal {
    stamp = clock (iterations total + 1);
    frame_id = s.global_frame;
  }

  abbrev pub line : (ℕ → ℕ) → StraightLine D → PoseStamped D → PoseStamped D → ℤ → Plan D
  line clock s start goal total = record {
    stamp = clock 0;
    frame_id = s.global_frame;
    poses =
        poses_from clock s start (div (sub goal.x start.x) (of_int total))
          (div (sub goal.y start.y) (of_int total)) (iterations total) 0
        ++ goal_pose clock s goal total ∷ [];
  }

  unfoldable pub create_plan :
      (ℕ → ℕ) → StraightLine D → PoseStamped D → PoseStamped D → Option (Plan D)
  unfolding poses_from
  create_plan clock s start goal =
      if str_eq start.frame_id s.global_frame
      then (if str_eq goal.frame_id s.global_frame
          then elim (total_number_of_loop s start goal) [
            | none ↦ none
            | some total ↦ some (line clock s start goal total)
          ]
          else some empty_plan)
      else some empty_plan
