-- ===== src/Odesc/System/Laws.antt =====
-- What `on_init` of the wheels' plugin lets through, and what its first cycle sends.
use Prim.Native.String.{String}
use mathlib.Core.List.{append_assoc, append-nil, map-append}
use billee_software.Prelude.{
  ℕ, ◌+◌, ◌<◌, ◌≡◌, refl, sym, ap, ◌∙◌, Bool, true, false, List, [], ◌∷◌, ◌++◌, ◌&&◌, not, some,
  arith, length, length-append, length-replicate, map, replicate, All, All-append, subst, inl, inr,
  Bool-cases, Option-cases,
}
use billee_software.Prelude.Int.{pos}
use billee_software.Double.{Double, zero_d}
use billee_software.Params.{
  Result-cases, stated_node, HardwareInfo, JointInfo, Platform, ok, find_param, value_or,
}
use billee_software.Odesc.Backend.{rest_wheel}
use billee_software.Odesc.System.{
  DriveSystem, new_drive_system, node_param, init_joint, init_joints, on_init, finish_init,
  ratio_or,
}

module _ {D : Type 0} ⦃d : Double D⦄ where
  open d use {eq, is_finite}

  abbrev pub IsUsable : D → Type 0
  IsUsable ratio = (eq ratio zero_d ≡ false) × (is_finite ratio ≡ true)

  -- What the loop has built for the joints `done`.
  pub record IsBuilt (conv : Platform D) (done : List JointInfo) (s t : DriveSystem D)
      : Type 0 where
    pub names : t.joint_names ≡ s.joint_names ++ map (λ j. j.name) done
    pub count_nodes : length t.node_ids ≡ length s.node_ids + length done
    pub nodes : All (λ k. k < 64) s.node_ids → All (λ k. k < 64) t.node_ids
    pub stated_nodes :
        map (λ n. some (pos n)) t.node_ids
        ≡ map (λ n. some (pos n)) s.node_ids ++ map (stated_node conv) done
    pub same_ratio : t.gear_ratio ≡ s.gear_ratio

  -- A successful round.
  abbrev Added : Platform D → JointInfo → DriveSystem D → DriveSystem D → Type 0
  Added conv joint s t =
      (node : ℕ) × (t ≡ record s {
        joint_names = s.joint_names ++ joint.name ∷ [];
        node_ids = s.node_ids ++ node ∷ [];
      })
      × (node < 64)
      × (stated_node conv joint ≡ some (pos node))

  stated_node-node_param :
      (conv : Platform D) (joint : JointInfo) (node : ℕ)
      → node_param conv joint ≡ ok node
      → stated_node conv joint ≡ some (pos node)
  unfolding node_param
  stated_node-node_param conv joint node e = ground arith

  node_param-InRange :
      (conv : Platform D) (joint : JointInfo) (node : ℕ)
      → node_param conv joint ≡ ok node
      → node < 64
  unfolding node_param
  node_param-InRange conv joint node e = ground arith

  init_joint-Added :
      (conv : Platform D) (joint : JointInfo) (s t : DriveSystem D)
      → init_joint conv joint s ≡ ok t
      → Added conv joint s t
  unfolding init_joint
  init_joint-Added conv joint s t e = elim (Result-cases (node_param conv joint)) [
    | inr (f, h) ↦ absurd (ground (arith, h))
    | inl (node, h) ↦ (
      node,
      ground (arith, h),
      node_param-InRange conv joint node h,
      stated_node-node_param conv joint node h,
    )
  ]

  add-IsBuilt :
      (conv : Platform D) (joint : JointInfo) (rest : List JointInfo) (s t u : DriveSystem D)
      → Added conv joint s t
      → IsBuilt conv rest t u
      → IsBuilt conv (joint ∷ rest) s u
  add-IsBuilt conv joint rest s t u (node, e, in_range, numbered) v =
      let names = ap (λ x. x.joint_names) e in
      let nodes = ap (λ x. x.node_ids) e in
      record {
        names =
            v.names
            ∙ ap (λ x. x ++ map (λ j. j.name) rest) names
            ∙ append_assoc s.joint_names (joint.name ∷ []) (map (λ j. j.name) rest);
        count_nodes =
            omega (arith, v.count_nodes, ap length nodes, length-append s.node_ids (node ∷ []));
        nodes = λ h. v.nodes (
            subst (All (λ k. k < 64)) (sym nodes)
              (All-append (λ k. k < 64) s.node_ids (node ∷ []) h (in_range, tt)));
        stated_nodes =
            v.stated_nodes
            ∙ ap (λ x. x ++ map (stated_node conv) rest)
                (ap (map (λ n. some (pos n))) nodes
                  ∙ map-append (λ n. some (pos n)) s.node_ids (node ∷ [])
                  ∙ ap (λ o. map (λ n. some (pos n)) s.node_ids ++ o ∷ []) (sym numbered))
            ∙ append_assoc (map (λ n. some (pos n)) s.node_ids) (stated_node conv joint ∷ [])
                (map (stated_node conv) rest);
        same_ratio = v.same_ratio ∙ ap (λ x. x.gear_ratio) e;
      }

  init_joints-IsBuilt :
      (conv : Platform D) (joints : List JointInfo) (s t : DriveSystem D)
      → init_joints conv joints s ≡ ok t
      → IsBuilt conv joints s t
  unfolding init_joints
  init_joints-IsBuilt conv [] s t e =
      let same : s ≡ t = ground arith in
      record {
        names = sym (append-nil s.joint_names ∙ ap (λ x. x.joint_names) same);
        count_nodes = omega (arith, ap (λ x. length x.node_ids) same);
        nodes = λ h. subst (λ x. All (λ k. k < 64) x.node_ids) same h;
        stated_nodes = ap (λ x. map (λ n. some (pos n)) x.node_ids) (sym same) ∙ sym (append-nil _);
        same_ratio = sym (ap (λ x. x.gear_ratio) same);
      }
  init_joints-IsBuilt conv (joint ∷ joints) s t e = elim (Result-cases (init_joint conv joint s)) [
    | inr (f, h) ↦ absurd (ground (arith, h))
    | inl (u, h) ↦
        add-IsBuilt conv joint joints s u t (init_joint-Added conv joint s u h)
          (init_joints-IsBuilt conv joints u t (ground (arith, h)))
  ]

  -- What `on_init` promises of the plugin.
  pub record IsReady (conv : Platform D) (joints : List JointInfo) (t : DriveSystem D)
      : Type 0 where
    pub names : t.joint_names ≡ map (λ j. j.name) joints
    pub stated_nodes : map (λ n. some (pos n)) t.node_ids ≡ map (stated_node conv) joints
    pub node_count : length t.node_ids ≡ length joints
    pub nodes : All (λ k. k < 64) t.node_ids
    pub usable : IsUsable t.gear_ratio
    pub no_speed : t.hw_commands ≡ replicate (length joints) zero_d
    pub rest : t.hw_velocities ≡ replicate (length joints) zero_d
    pub slots : (length t.hw_positions ≡ length joints) × (length t.backend_states ≡ length joints)

  finish-IsReady :
      (conv : Platform D) (connection : String) (joints : List JointInfo) (ratio : D)
      (s : DriveSystem D)
      → IsUsable ratio
      → IsBuilt conv joints (record new_drive_system { gear_ratio = ratio }) s
      → IsReady conv joints (finish_init connection (length joints) s)
  finish-IsReady conv connection joints ratio s u v = record {
    names = v.names;
    stated_nodes = v.stated_nodes;
    node_count = omega (arith, v.count_nodes);
    nodes = v.nodes tt;
    usable = subst IsUsable (sym v.same_ratio) u;
    no_speed = refl;
    rest = refl;
    slots = (length-replicate (length joints) zero_d, length-replicate (length joints) rest_wheel);
  }

  -- If `on_init` of the wheels succeeds, there is one name, one node number and one slot for each
  -- joint of the URDF; the names and the node numbers are in the order of the joints, each number the
  -- one that the joint's `node_id` states; every node number is below 64, the gear ratio is finite and
  -- not 0, and every commanded speed is 0.
  pub drive_on_init-IsReady :
      (conv : Platform D) (base : Bool) (info : HardwareInfo) (t : DriveSystem D)
      → on_init conv base info new_drive_system ≡ ok t
      → IsReady conv info.joints t
  unfolding on_init
  drive_on_init-IsReady conv false info t e = absurd (ground (arith, e))
  drive_on_init-IsReady conv true info t e =
      let connection = value_or "can2" (find_param "can_interface" info.hardware_parameters) in
      let given = find_param "gear_ratio" info.hardware_parameters in
      elim (Option-cases (ratio_or conv new_drive_system.gear_ratio given)) [
        | inl h ↦ absurd (ground (arith, h))
        | inr (ratio, h) ↦ elim (Bool-cases (not (eq ratio zero_d) && is_finite ratio)) [
          | inr bad ↦ absurd (ground (arith, h, bad))
          | inl good ↦
              let start : DriveSystem D = record new_drive_system { gear_ratio = ratio } in
              elim (Result-cases (init_joints conv info.joints start)) [
                | inr (f, k) ↦ absurd (ground (arith, h, good, k))
                | inl (s, k) ↦ subst (IsReady conv info.joints) (ground (arith, h, good, k)) (
                    finish-IsReady conv connection info.joints ratio s (ground (arith, good))
                      (init_joints-IsBuilt conv info.joints start s k))
              ]
        ]
      ]
