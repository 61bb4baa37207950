-- ===== src/Pxx/System/Init.antt =====
-- What `on_init` lets through.
use Prim.Native.String.{String}
use text.Mathlib.Text.{◌==◌ as str_eq}
use mathlib.Core.Path.{subst₂}
use mathlib.Core.List.{append_assoc, append-nil, map-append}
use billee_software.Prelude.{
  ℕ, ◌≤◌, ◌≡◌, refl, sym, ap, ◌∙◌, Bool, true, false, Option, none, some, List, [], ◌∷◌, ◌++◌,
  arith, length, length-append, length-map, length-replicate, map, replicate, All, All-append,
  subst, inl, inr, Bool-cases, ◌||◌,
}
use billee_software.Prelude.Int.{pos}
use billee_software.Double.{Double, zero_d}
use billee_software.Params.{
  Result-cases, stated_node, value_or, find_param, HardwareInfo, JointInfo, Platform, ok,
}
use billee_software.Pxx.System.{
  System, new_system, create_motor_backend, node_param, ratio_param, init_joint, init_joints,
  on_init, finish_init,
}
use billee_software.Pxx.Backend.{new_backend}
use billee_software.Pxx.Backend.Motion.{zero_joint}
use billee_software.Pxx.Mock.{new_mock}
use billee_software.Pxx.System.Laws.{Fits, IsShaped}

abbrev pub InRange : ℕ → Type 0
InRange node = (1 ≤ node) × (node ≤ 127)

map-snoc :
    {A B C : Type 0} (f : A → C) (g : B → C) (xs : List A) (x : A) (ys : List B) (y : B)
    → map f xs ≡ map g ys
    → f x ≡ g y
    → map f (xs ++ x ∷ []) ≡ map g (ys ++ y ∷ [])
map-snoc f g xs x ys y h e = rw (map-append f xs (x ∷ []), map-append g ys (y ∷ []), h, e) refl

module _ {D : Type 0} ⦃d : Double D⦄ where
  open d use {nan, eq, is_finite}

  abbrev pub IsUsable : D → Type 0
  IsUsable ratio = (eq ratio zero_d ≡ false) × (is_finite ratio ≡ true)

  -- The gear ratio that a joint states, which is 1 if it states none.
  abbrev pub stated_ratio : Platform D → JointInfo → Option D
  stated_ratio conv joint = elim (find_param "gear_ratio" joint.parameters) [
    | none ↦ some (d.decimal (pos 1) 0)
    | some text ↦ conv.stod text
  ]

  -- What the loop has built for the joints `done`.
  pub record IsBuilt (conv : Platform D) (done : List JointInfo) (s : System D) : Type 0 where
    pub names : s.joint_names ≡ map (λ j. j.name) done
    pub count_nodes : length s.node_ids ≡ length done
    pub count_ratios : length s.gear_ratios ≡ length done
    pub nodes : All InRange s.node_ids
    pub ratios : All IsUsable s.gear_ratios
    pub stated_nodes : map (stated_node conv) done ≡ map (λ n. some (pos n)) s.node_ids
    pub stated_ratios : map (stated_ratio conv) done ≡ map some s.gear_ratios

  abbrev Added : Platform D → JointInfo → System D → System D → Type 0
  Added conv joint s t =
      (node : ℕ) × (ratio : D) × (t ≡ record s {
        joint_names = s.joint_names ++ joint.name ∷ [];
        node_ids = s.node_ids ++ node ∷ [];
        gear_ratios = s.gear_ratios ++ ratio ∷ [];
      })
      × InRange node
      × IsUsable ratio
      × (stated_node conv joint ≡ some (pos node))
      × (stated_ratio conv joint ≡ some ratio)

  add-IsBuilt :
      (conv : Platform D) (done : List JointInfo) (joint : JointInfo) (s t : System D)
      → IsBuilt conv done s
      → Added conv joint s t
      → IsBuilt conv (done ++ joint ∷ []) t
  add-IsBuilt conv done joint s t v (node, ratio, e, in_range, usable, numbered, geared) =
      rw e (record {
        names =
            ap (λ x. x ++ joint.name ∷ []) v.names
            ∙ sym (map-append (λ j. j.name) done (joint ∷ []));
        count_nodes = omega (
          arith,
          length-append s.node_ids (node ∷ []),
          length-append done (joint ∷ []),
          v.count_nodes,
        );
        count_ratios = omega (
          arith,
          length-append s.gear_ratios (ratio ∷ []),
          length-append done (joint ∷ []),
          v.count_ratios,
        );
        nodes = All-append InRange s.node_ids (node ∷ []) v.nodes (in_range, tt);
        ratios = All-append IsUsable s.gear_ratios (ratio ∷ []) v.ratios (usable, tt);
        stated_nodes =
            map-snoc (stated_node conv) (λ n. some (pos n)) done joint s.node_ids node
              v.stated_nodes numbered;
        stated_ratios =
            map-snoc (stated_ratio conv) some done joint s.gear_ratios ratio v.stated_ratios geared;
      })

  stated_node-node_param :
      (conv : Platform D) (joint : JointInfo) (node : ℕ)
      → node_param conv joint ≡ ok node
      → stated_node conv joint ≡ some (pos node)
  unfolding node_param
  stated_node-node_param conv joint node e = ground arith

  stated_ratio-ratio_param :
      (conv : Platform D) (joint : JointInfo) (ratio : D)
      → ratio_param conv joint ≡ ok ratio
      → stated_ratio conv joint ≡ some ratio
  unfolding ratio_param
  stated_ratio-ratio_param conv joint ratio e = ground arith

  node_param-InRange :
      (conv : Platform D) (joint : JointInfo) (node : ℕ)
      → node_param conv joint ≡ ok node
      → InRange node
  unfolding node_param
  node_param-InRange conv joint node e = ground arith

  ratio_param-IsUsable :
      (conv : Platform D) (joint : JointInfo) (ratio : D)
      → ratio_param conv joint ≡ ok ratio
      → IsUsable ratio
  unfolding ratio_param
  ratio_param-IsUsable conv joint ratio e = ground arith

  init_joint-Added :
      (conv : Platform D) (joint : JointInfo) (s t : System D)
      → init_joint conv joint s ≡ ok t
      → Added conv joint s t
  unfolding init_joint
  init_joint-Added conv joint s t e = elim (Result-cases (node_param conv joint)) [
    | inr (f, h) ↦ absurd (ground (arith, h))
    | inl (node, h) ↦ elim (Result-cases (ratio_param conv joint)) [
      | inr (f, k) ↦ absurd (ground (arith, h, k))
      | inl (ratio, k) ↦ (
        node,
        ratio,
        ground (arith, h, k),
        node_param-InRange conv joint node h,
        ratio_param-IsUsable conv joint ratio k,
        stated_node-node_param conv joint node h,
        stated_ratio-ratio_param conv joint ratio k,
      )
    ]
  ]

  -- The lists of the loop, after the joints `done`.
  init_joints-IsBuilt :
      (conv : Platform D) (done joints : List JointInfo) (s t : System D)
      → IsBuilt conv done s
      → init_joints conv joints s ≡ ok t
      → IsBuilt conv (done ++ joints) t
  unfolding init_joints
  init_joints-IsBuilt conv done [] s t v e =
      subst₂ (IsBuilt conv) (sym (append-nil done)) (ground arith) v
  init_joints-IsBuilt conv done (joint ∷ joints) s t v e =
      elim (Result-cases (init_joint conv joint s)) [
        | inr (f, h) ↦ absurd (ground (arith, h))
        | inl (u, h) ↦
            subst (λ js. IsBuilt conv js t) (append_assoc done (joint ∷ []) joints)
              (init_joints-IsBuilt conv (done ++ joint ∷ []) joints u t
                (add-IsBuilt conv done joint s u v (init_joint-Added conv joint s u h))
                (ground (arith, h)))
      ]

  create-Fits :
      (endpoint : String) (n : ℕ) (s : System D)
      → length s.node_ids ≡ n
      → length s.gear_ratios ≡ n
      → Fits n (create_motor_backend endpoint s.node_ids s.gear_ratios)
  unfolding create_motor_backend new_mock new_backend
  create-Fits endpoint n s counted rated =
      let nodes = length s.node_ids in
      elim (Bool-cases (str_eq endpoint "mock" || str_eq endpoint "none")) [
        | inl e ↦
            simp e
              (length-replicate nodes nan ∙ counted, length-replicate nodes zero_joint ∙ counted)
        | inr e ↦ simp e (counted, rated)
      ]

  finish-IsShaped :
      (conv : Platform D) (connection : String) (joints : List JointInfo) (s : System D)
      → IsBuilt conv joints s
      → IsShaped (length joints) (finish_init connection (length joints) s)
  finish-IsShaped conv connection joints s v = record {
    names = ap length v.names ∙ length-map joints _;
    nodes = v.count_nodes;
    ratios = v.count_ratios;
    positions = length-replicate (length joints) zero_d;
    velocities = length-replicate (length joints) zero_d;
    commands = length-replicate (length joints) nan;
    states = length-replicate (length joints) zero_joint;
    backend = create_motor_backend connection s.node_ids s.gear_ratios;
    present = refl;
    fits = create-Fits connection (length joints) s v.count_nodes v.count_ratios;
  }

  new-IsBuilt : (conv : Platform D) → IsBuilt conv [] new_system
  new-IsBuilt conv = record {
    names = refl;
    count_nodes = refl;
    count_ratios = refl;
    nodes = tt;
    ratios = tt;
    stated_nodes = refl;
    stated_ratios = refl;
  }

  -- If `on_init` succeeds, every vector has one element for each joint of the URDF; the names, the
  -- node numbers and the gear ratios are in the order of the joints, each number the one that the
  -- joint's `node_id` states and each ratio the one of its `gear_ratio`, or 1 without it; every node
  -- number is from 1 to 127, every gear ratio is finite and not 0, and no joint has a command yet.
  pub on_init-IsChecked :
      (conv : Platform D) (base : Bool) (info : HardwareInfo) (t : System D)
      → on_init conv base info new_system ≡ ok t
      → IsShaped (length info.joints) t
        × (t.joint_names ≡ map (λ j. j.name) info.joints)
        × All InRange t.node_ids
        × All IsUsable t.gear_ratios
        × (t.hw_commands ≡ replicate (length info.joints) nan)
        × (map (stated_node conv) info.joints ≡ map (λ n. some (pos n)) t.node_ids)
        × (map (stated_ratio conv) info.joints ≡ map some t.gear_ratios)
  unfolding on_init
  on_init-IsChecked conv false info t e = absurd (ground (arith, e))
  on_init-IsChecked conv true info t e =
      let connection = value_or "can0" (find_param "can_interface" info.hardware_parameters) in
      elim (Result-cases (init_joints conv info.joints new_system)) [
        | inr (f, h) ↦ absurd (ground (arith, h))
        | inl (s, h) ↦
            let v = init_joints-IsBuilt conv [] info.joints new_system s (new-IsBuilt conv) h in
            subst
              (λ (u : System D).
                IsShaped {D = D} (length info.joints) u
                × (u.joint_names ≡ map (λ j. j.name) info.joints)
                × All InRange u.node_ids
                × All IsUsable u.gear_ratios
                × (u.hw_commands ≡ replicate (length info.joints) nan)
                × (map (stated_node conv) info.joints ≡ map (λ n. some (pos n)) u.node_ids)
                × (map (stated_ratio conv) info.joints ≡ map some u.gear_ratios))
              (ground (arith, h))
              (
                finish-IsShaped conv connection info.joints s v,
                v.names,
                v.nodes,
                v.ratios,
                refl,
                v.stated_nodes,
                v.stated_ratios,
              )
      ]

  -- The backend is made for the nodes and the ratios of the joints.
  pub on_init-create_motor_backend :
      (conv : Platform D) (base : Bool) (info : HardwareInfo) (t : System D)
      → on_init conv base info new_system ≡ ok t
      → let connection = value_or "can0" (find_param "can_interface" info.hardware_parameters) in
        t.backend ≡ some (create_motor_backend connection t.node_ids t.gear_ratios)
  unfolding on_init
  on_init-create_motor_backend conv false info t e = absurd (ground (arith, e))
  on_init-create_motor_backend conv true info t e =
      elim (Result-cases (init_joints conv info.joints new_system)) [
        | inr (f, h) ↦ absurd (ground (arith, h))
        | inl (s, h) ↦ ground (arith, h)
      ]
