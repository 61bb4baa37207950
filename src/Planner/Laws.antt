-- ===== src/Planner/Laws.antt =====
-- The plans of the straight line planner.
use text.Mathlib.Text.{◌==◌ as str_eq}
use billee_software.Prelude.{
  ℕ, zero, suc, ◌+◌, ◌<◌, ◌≡◌, refl, subst, sym, ap, ◌∙◌, Bool, true, false, ◌&&◌, Option, none,
  Option-cases, inl, inr, some, List, [], ◌∷◌, ◌++◌, length, get_elem?, length-append, All,
  All-append, arith, Bool-cases, ltb, if◌then◌else◌,
}
use billee_software.Prelude.Int.{ℤ, pos, negsuc}
use billee_software.Double.{Double}
use billee_software.Planner.{
  PoseStamped, Plan, StraightLine, empty_plan, total_number_of_loop, step_pose, poses_from,
  iterations, goal_pose, line, create_plan,
}

abbrev pub holds_32 : ℤ → Bool
holds_32 (pos n) = ltb n 2147483648
holds_32 (negsuc n) = ltb n 2147483648

get_elem?-append_left :
    {A : Type 0} (xs ys : List A) (i : ℕ) → i < length xs → get_elem? (xs ++ ys) i ≡ get_elem? xs i
get_elem?-append_left [] ys i h = absurd (omega arith)
get_elem?-append_left (x ∷ xs) ys zero h = refl
get_elem?-append_left (x ∷ xs) ys (suc i) h = get_elem?-append_left xs ys i (omega arith)

get_elem?-append_end :
    {A : Type 0} (xs : List A) (y : A) → get_elem? (xs ++ y ∷ []) (length xs) ≡ some y
get_elem?-append_end [] y = refl
get_elem?-append_end (x ∷ xs) y = get_elem?-append_end xs y

module _ {D : Type 0} ⦃d : Double D⦄ (clock : ℕ → ℕ) (s : StraightLine D)
    (start goal : PoseStamped D) where
  module _ (dx dy : D) where
    length-poses_from : (n i : ℕ) → length (poses_from clock s start dx dy n i) ≡ n
    unfolding poses_from
    length-poses_from zero i = refl
    length-poses_from (suc n) i = ap suc (length-poses_from n (i + 1))

    get_elem?-poses_from :
        (n i k : ℕ)
        → k < n
        → get_elem? (poses_from clock s start dx dy n i) k
          ≡ some (step_pose clock s start dx dy (i + k))
    unfolding poses_from
    get_elem?-poses_from zero i k h = absurd (omega arith)
    get_elem?-poses_from (suc n) i zero h =
        ap (λ t. some (step_pose clock s start dx dy t)) (omega arith)
    get_elem?-poses_from (suc n) i (suc k) h =
        get_elem?-poses_from n (i + 1) k (omega arith)
        ∙ ap (λ t. some (step_pose clock s start dx dy t)) (omega arith)

    All-poses_from :
        (n i : ℕ) → All (λ p. p.frame_id ≡ s.global_frame) (poses_from clock s start dx dy n i)
    unfolding poses_from
    All-poses_from zero i = tt
    All-poses_from (suc n) i = (refl, All-poses_from n (i + 1))

  -- The distance to the goal in units of the resolution, towards 0, if 32 bits hold it.
  abbrev pub wanted_steps : Option ℤ
  wanted_steps =
      let units =
        d.div (d.hypot (d.sub goal.x start.x) (d.sub goal.y start.y)) s.interpolation_resolution in
      if d.is_finite units && holds_32 (d.truncate units) then some (d.truncate units) else none

  -- One pose more than there are steps, all of them in the costmap's frame: pose i lies i times the
  -- total difference's share from the start, on the ground and with no turn, with the time of the
  -- clock's call i + 1; and the last pose is the goal. The plan has the clock's first time.
  abbrev pub IsLine : ℤ → Plan D → Type 0
  IsLine total plan =
      (length plan.poses ≡ iterations total + 1)
      × ((i : ℕ)
          → i < iterations total
          → get_elem? plan.poses i
            ≡ some (record {
              stamp = clock (i + 1);
              frame_id = s.global_frame;
              x =
                  d.add start.x
                    (d.mul (d.div (d.sub goal.x start.x) (d.of_int total)) (d.of_int (pos i)));
              y =
                  d.add start.y
                    (d.mul (d.div (d.sub goal.y start.y) (d.of_int total)) (d.of_int (pos i)));
              z = d.decimal (pos 0) 0;
              orientation_x = d.decimal (pos 0) 0;
              orientation_y = d.decimal (pos 0) 0;
              orientation_z = d.decimal (pos 0) 0;
              orientation_w = d.decimal (pos 1) 0;
            }))
      × (get_elem? plan.poses (iterations total)
          ≡ some (record goal { stamp = clock (iterations total + 1); frame_id = s.global_frame }))
      × All (λ p. p.frame_id ≡ s.global_frame) plan.poses
      × (plan.frame_id ≡ s.global_frame)
      × (plan.stamp ≡ clock 0)

  -- By whether both poses are in the costmap's frame, and by the number of steps, if an int holds it.
  abbrev pub Planned : Bool → Option ℤ → Option (Plan D) → Type 0
  Planned false total r = r ≡ some empty_plan
  Planned true none r = r ≡ none
  Planned true (some total) r = (plan : Plan D) × (r ≡ some plan) × IsLine total plan

  line-IsLine : (total : ℤ) → IsLine total (line clock s start goal total)
  line-IsLine total =
      let dx = d.div (d.sub goal.x start.x) (d.of_int total) in
      let dy = d.div (d.sub goal.y start.y) (d.of_int total) in
      let n = iterations total in
      let steps = poses_from clock s start dx dy n 0 in
      let last = goal_pose clock s goal total in
      (
        length-append steps (last ∷ []) ∙ ap (λ k. k + 1) (length-poses_from dx dy n 0),
        λ i h.
            get_elem?-append_left steps (last ∷ []) i (omega (arith, length-poses_from dx dy n 0))
            ∙ get_elem?-poses_from dx dy n 0 i h
            ∙ ap (λ k. some (step_pose clock s start dx dy k)) (omega arith),
        ap (λ k. get_elem? (steps ++ last ∷ []) k) (sym (length-poses_from dx dy n 0))
            ∙ get_elem?-append_end steps last,
        All-append _ steps (last ∷ []) (All-poses_from dx dy n 0) (refl, tt),
        refl,
        refl,
      )

  here-Planned :
      str_eq start.frame_id s.global_frame ≡ true
      → str_eq goal.frame_id s.global_frame ≡ true
      → Planned true (total_number_of_loop s start goal) (create_plan clock s start goal)
  unfolding create_plan
  here-Planned hs hg = elim (Option-cases (total_number_of_loop s start goal)) [
    | inl e ↦ rw (create_plan, hs, hg, e, Planned) refl
    | inr (total, e) ↦
        rw (create_plan, hs, hg, e, Planned)
          (line clock s start goal total, refl, line-IsLine total)
  ]

  -- If the start or the goal is in another frame than the costmap, the plan is empty. Otherwise, if
  -- the distance in units of the resolution is finite and 32 bits hold its whole part, this is the
  -- number of steps, and the plan has one pose more, all of them in that frame: pose i lies i times
  -- the step, which is the difference of the two ends by that number, from the start, with the height
  -- 0 and no turn, and the last pose is the goal; the plan has the frame and the clock's first time.
  -- Else the conversion to an int is undefined, and
  -- there is no result.
  pub create_plan-Planned :
      Planned
        (str_eq start.frame_id s.global_frame && str_eq goal.frame_id s.global_frame)
        wanted_steps
        (create_plan clock s start goal)
  unfolding create_plan
  create_plan-Planned =
      let steps = total_number_of_loop s start goal in
      elim (Bool-cases (str_eq start.frame_id s.global_frame)) [
        | inr e ↦ rw (create_plan, e, Planned) refl
        | inl e ↦ elim (Bool-cases (str_eq goal.frame_id s.global_frame)) [
          | inr h ↦ rw (create_plan, e, h, Planned) refl
          | inl h ↦
              let both : (str_eq start.frame_id s.global_frame
                    && str_eq goal.frame_id s.global_frame)
                  ≡ true =
                rw (e, h) refl in
              subst (λ b. Planned b steps (create_plan clock s start goal)) (sym both)
                (here-Planned e h)
        ]
      ]
