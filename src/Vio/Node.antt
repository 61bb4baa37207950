-- ===== src/Vio/Node.antt =====
-- What `SyntheticVioNode` does, ros2_ws/src/perception/zed2i/src/synthetic_vio_node.cpp. `fuel`
-- bounds the loops of `wrap_angle`; `none` means that they have not ended.
pub mod Queue
pub mod Quiet
pub mod Log
pub mod Ends
pub mod Prompt
pub mod Answers
pub mod Runs
use Prim.Native.String.{String}
use billee_software.Prelude.{
  ℕ, zero, suc, ◌+◌, ◌-◌, ◌*◌, Bool, true, false, ◌⊎◌, inl, inr, Option, none, some, List, [], ◌∷◌,
  ◌++◌, ◌==◌, leb, if◌then◌else◌, set, replicate,
}
use billee_software.Prelude.Int.{ℤ, pos, negsuc}
use billee_software.Double.{Double, zero_d}
use billee_software.Vio.State.{
  Odometry, Point, VioNode, Event, sensed, tick, minus, publish_due_messages, enqueue,
}
use billee_software.Vio.Random.{Random}
use billee_software.Vio.Step.{Step, pure, ◌>>=◌, ◌>>◌, get, modify, lift}
use billee_software.Vio.Geometry.{Quaternion, wrap_angle, yaw_from_quaternion, quaternion_from_yaw}
use billee_software.Vio.Model.{
  NoiseModel, Settings, Invalid, validate_parameters, resolve_seed, select_model,
}
use billee_software.Vio.Seed.{stream_seed, white_noise_name, drift_name, faults_name, profile_name}

-- `covariance[index * 6 + index] = value`, for `left` indices from `index` on.
diagonal : {D : Type 0} → ℕ → ℕ → D → List D → List D
diagonal zero index value covariance = covariance
diagonal (suc left) index value covariance =
    diagonal left (index + 1) value (set covariance (index * 6 + index) value)

module _ {D G N U : Type 0} ⦃d : Double D⦄ (random : Random D G N U) (seconds : ℤ → D)
    (fuel : ℕ) where
  open d use {decimal, add, sub, mul, lt, sqrt, abs, hypot}

  abbrev Act : Type 0 → Type 0
  Act A = Step (VioNode D G) A

  unused_covariance : D
  unused_covariance = decimal (pos 1000000) 0

  -- Each call makes a new distribution.
  unfoldable pub white_noise : D → Act D
  white_noise deviation s =
      let (value, _, g) = random.draw_normal (random.normal zero_d deviation) s.white_rng in
      some (value, record s { white_rng = g })

  unfoldable pub drift_noise : D → Act D
  drift_noise deviation s =
      let (value, _, g) = random.draw_normal (random.normal zero_d deviation) s.drift_rng in
      some (value, record s { drift_rng = g })

  abbrev wrapped : D → Act D
  wrapped angle = lift (wrap_angle fuel angle)

  -- The first accepted message sets the origin.
  unfoldable pub start_at : Odometry D → VioNode D G → VioNode D G
  start_at truth s =
      let started = record s {
        initial_x = truth.position.x;
        initial_y = truth.position.y;
        initial_yaw = yaw_from_quaternion truth.orientation;
        previous_stamp = truth.stamp;
        initialized = true;
      } in
      if s.initialized then s else started

  -- The random walks, for the time `dt` since the last stamp.
  unfoldable pub walk : ℕ → D → Act (Unit {0})
  walk stamp dt = do
    s ← get
    let root_dt = sqrt dt
    x ← drift_noise (mul s.model.position_drift_rw_std root_dt)
    modify (λ t. record t { position_drift_x = add t.position_drift_x x })
    y ← drift_noise (mul s.model.position_drift_rw_std root_dt)
    modify (λ t. record t { position_drift_y = add t.position_drift_y y })
    yaw ← drift_noise (mul s.model.yaw_drift_rw_std root_dt)
    modify (λ t. record t {
      yaw_drift = add t.yaw_drift yaw;
      elapsed_seconds = add t.elapsed_seconds dt;
      previous_stamp = stamp;
    })

  -- `std::max(0.0, (stamp - previous_stamp_).seconds())`, and the walk if it is positive.
  unfoldable pub advance : ℕ → Act (Unit {0})
  unfolding walk
  advance stamp s =
      let gap = seconds (minus stamp s.previous_stamp) in
      let dt = if lt zero_d gap then gap else zero_d in
      (if lt zero_d dt then walk stamp dt else pure tt) s

  -- The covariance that the model expects.
  pub set_covariance : VioNode D G → D → D → D → List D → List D
  unfolding diagonal
  set_covariance s relative_x relative_y relative_yaw covariance =
      let m = s.model in
      let position_scale_error = mul m.translation_scale_std (hypot relative_x relative_y) in
      let yaw_scale_error = mul m.yaw_scale_std (abs relative_yaw) in
      let position_std = mul m.reported_covariance_scale (
        sqrt (
          add
            (add (mul m.position_noise_std m.position_noise_std)
              (mul position_scale_error position_scale_error))
            (mul (mul m.position_drift_rw_std m.position_drift_rw_std) s.elapsed_seconds))) in
      let yaw_std = mul m.reported_covariance_scale (
        sqrt (
          add (add (mul m.yaw_noise_std m.yaw_noise_std) (mul yaw_scale_error yaw_scale_error))
            (mul (mul m.yaw_drift_rw_std m.yaw_drift_rw_std) s.elapsed_seconds))) in
      let unused = diagonal 6 0 unused_covariance covariance in
      set (set (set unused 0 (mul position_std position_std)) 7 (mul position_std position_std)) 35
        (mul yaw_std yaw_std)

  -- The measurement of a true pose.
  unfoldable pub make_measurement : Odometry D → Act (Odometry D)
  unfolding set_covariance diagonal unused_covariance
  make_measurement truth = do
    s ← get
    let truth_yaw = yaw_from_quaternion truth.orientation
    let relative_x = sub truth.position.x s.initial_x
    let relative_y = sub truth.position.y s.initial_y
    relative_yaw ← wrapped (sub truth_yaw s.initial_yaw)
    yaw_noise ← white_noise s.model.yaw_noise_std
    measurement_yaw ←
        wrapped (add (add (add s.initial_yaw (mul s.yaw_scale relative_yaw)) s.yaw_drift) yaw_noise)
    x_noise ← white_noise s.model.position_noise_std
    y_noise ← white_noise s.model.position_noise_std
    pure (record {
      stamp = truth.stamp;
      frame_id = s.settings.output_frame_id;
      child_frame_id = s.settings.child_frame_id;
      position = record {
        x =
            add (add (add s.initial_x (mul s.translation_scale relative_x)) s.position_drift_x)
              x_noise;
        y =
            add (add (add s.initial_y (mul s.translation_scale relative_y)) s.position_drift_y)
              y_noise;
        z = truth.position.z;
      };
      orientation = quaternion_from_yaw measurement_yaw;
      pose_covariance = set_covariance s relative_x relative_y relative_yaw (replicate 36 zero_d);
      twist_covariance = diagonal 6 0 unused_covariance (replicate 36 zero_d);
    })

  -- An outlier moves the pose.
  pub displace : Odometry D → Act (Odometry D)
  displace vio = do
    s ← get
    x ← white_noise s.model.outlier_position_std
    y ← white_noise s.model.outlier_position_std
    turn ← white_noise s.model.outlier_yaw_std
    yaw ← wrapped (add (yaw_from_quaternion vio.orientation) turn)
    pure (record vio {
      position = record vio.position { x = add vio.position.x x; y = add vio.position.y y };
      orientation = quaternion_from_yaw yaw;
    })

  -- A draw of `unit_uniform`, which both tests of a callback share.
  abbrev draw_fault : U → Act (D × U)
  draw_fault u s =
      let (value, u', g) = random.draw_uniform u s.fault_rng in
      some ((value, u'), record s { fault_rng = g })

  abbrev measure : Odometry D → U → Act (Odometry D)
  measure truth u = do
    vio ← make_measurement truth
    s ← get
    (chance, _) ← draw_fault u
    if lt chance s.model.outlier_probability then displace vio else pure vio

  -- What follows the fault test that drops a message.
  unfoldable pub deliver : Odometry D → U → Act (Unit {0})
  unfolding make_measurement displace
  deliver truth u = do
    vio ← measure truth u
    modify (λ s. publish_due_messages truth.stamp (enqueue vio s))

  -- The two scales of the run, from one standard normal distribution.
  unfoldable pub sample_run_calibration : VioNode D G → VioNode D G
  sample_run_calibration s =
      let standard = random.normal zero_d (decimal (pos 1) 0) in
      let (a, standard', g) = random.draw_normal standard s.drift_rng in
      let (b, _, g') = random.draw_normal standard' g in
      record s {
        translation_scale = add (decimal (pos 1) 0) (mul s.model.translation_scale_std a);
        yaw_scale = add (decimal (pos 1) 0) (mul s.model.yaw_scale_std b);
        drift_rng = g';
      }

  -- The node before its calibration, with the four streams of a seed.
  unfoldable pub fresh_node : Settings D → ℕ → VioNode D G
  fresh_node p seed =
      let profile_rng = random.seeded (stream_seed seed profile_name) in
      let (model, profile_rng') = select_model random p profile_rng in
      record {
        settings = p;
        model = model;
        white_rng = random.seeded (stream_seed seed white_noise_name);
        drift_rng = random.seeded (stream_seed seed drift_name);
        fault_rng = random.seeded (stream_seed seed faults_name);
        profile_rng = profile_rng';
        translation_scale = decimal (pos 1) 0;
        yaw_scale = decimal (pos 1) 0;
        initialized = false;
        initial_x = zero_d;
        initial_y = zero_d;
        initial_yaw = zero_d;
        previous_stamp = 0;
        elapsed_seconds = zero_d;
        position_drift_x = zero_d;
        position_drift_y = zero_d;
        yaw_drift = zero_d;
        pending_messages = [];
        published = [];
      }

  -- The constructor, with the two draws of `std::random_device`; `inl` is its exception.
  unfoldable pub construct : Settings D → ℤ → ℕ → ℕ → Invalid ⊎ VioNode D G
  unfolding sample_run_calibration fresh_node
  construct p requested_seed high low = elim (validate_parameters p requested_seed) [
    | some e ↦ inl e
    | none ↦ inr (sample_run_calibration (fresh_node p (resolve_seed requested_seed high low)))
  ]

  -- What follows the test of the stamp.
  unfoldable pub respond : Odometry D → Act (Unit {0})
  unfolding advance deliver
  respond truth = do
    modify (start_at truth)
    advance truth.stamp
    s ← get
    (chance, u) ← draw_fault (random.uniform zero_d (decimal (pos 1) 0))
    if lt chance s.model.dropout_probability then pure tt else deliver truth u

  -- A message with the stamp 0 is ignored.
  unfoldable pub truth_callback : Odometry D → Act (Unit {0})
  unfolding respond
  truth_callback truth = if truth.stamp == 0 then pure tt else respond truth

  unfoldable pub handle : Event D → VioNode D G → Option (VioNode D G)
  handle (sensed odometry) s = elim (truth_callback odometry s) [
    | none ↦ none
    | some (_, t) ↦ some t
  ]
  handle (tick time) s = some (publish_due_messages time s)

  unfoldable pub run : List (Event D) → VioNode D G → Option (VioNode D G)
  run [] s = some s
  run (event ∷ events) s = elim (handle event s) [ none ↦ none | some t ↦ run events t ]
