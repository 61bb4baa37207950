-- ===== src/Vio/Tests.antt =====
-- Concrete inputs: whole numbers for doubles, and an engine that counts its draws.
use billee_software.Prelude.{
  length, ℕ, ◌+◌, ◌≤◌, ◌≡◌, ◌≢◌, refl, ◌⊎◌, Option, none, some, List, [], ◌∷◌, All, arith,
}
use billee_software.Prelude.Int.{ℤ, pos}
use billee_software.Whole.{whole_double}
use billee_software.Vio.Step.{◌>>=◌}
use billee_software.Vio.Random.{Random}
use billee_software.Vio.Geometry.{wrap_angle, yaw_from_quaternion}
use billee_software.Vio.Model.{
  NoiseModel, Settings, validate_parameters, select_model, scale_model, stressed,
}
use billee_software.Vio.Model.Laws.{IsValidModel, select_model-IsValidModel}
use billee_software.Vio.State.{
  VioNode, Odometry, Event, sensed, tick, publish_due_messages, enqueue,
}
use billee_software.Vio.Node.{
  construct, run, handle, truth_callback, respond, deliver, start_at, advance, walk, white_noise,
  drift_noise, make_measurement, sample_run_calibration, fresh_node,
}
use billee_software.Vio.Node.Log.{Accepts, log}
use billee_software.Vio.Node.Ends.{Hangs}
use billee_software.Vio.Node.Runs.{run-construct}
use billee_software.Vio.Seed.{stream_seed, white_noise_name, drift_name, faults_name, profile_name}
use billee_software.Vio.Seed.Laws.{streams_differ}

-- Each draw is 0, and the engine counts it.
abbrev counting : Random ℤ ℕ (Unit {0}) (Unit {0})
counting = record {
  seeded = λ n. 0;
  normal = λ m s. tt;
  draw_normal = λ n g. (pos 0, n, g + 1);
  uniform = λ a b. tt;
  draw_uniform = λ u g. (pos 0, u, g + 1);
}

abbrev noise : NoiseModel ℤ
noise = record {
  position_noise_std = pos 1;
  yaw_noise_std = pos 1;
  position_drift_rw_std = pos 1;
  yaw_drift_rw_std = pos 1;
  translation_scale_std = pos 1;
  yaw_scale_std = pos 1;
  dropout_probability = pos 0;
  outlier_probability = pos 0;
  outlier_position_std = pos 1;
  outlier_yaw_std = pos 1;
  latency_ms = pos 80;
  reported_covariance_scale = pos 1;
}

abbrev settings : Settings ℤ
settings = record {
  output_frame_id = "odom";
  child_frame_id = "base_link";
  profile = "stress";
  nominal = noise;
  validation_min_multiplier = pos 1;
  validation_max_multiplier = pos 2;
  stress_min_multiplier = pos 1;
  stress_max_multiplier = pos 2;
  stress_dropout_probability = pos 0;
  stress_outlier_probability = pos 0;
  stress_latency_ms = pos 200;
  stress_reported_covariance_scale = pos 1;
}

abbrev pose : ℕ → Odometry ℤ
pose stamp = record {
  stamp = stamp;
  frame_id = "map";
  child_frame_id = "rover";
  position = record { x = pos 3; y = pos 4; z = pos 5 };
  orientation = record { x = pos 0; y = pos 0; z = pos 0; w = pos 1 };
  pose_covariance = [];
  twist_covariance = [];
}

-- The second pose has no stamp; the last tick comes when the first message is due.
abbrev events : List (Event ℤ)
events =
    sensed (pose 1000000000) ∷ sensed (pose 0) ∷ sensed (pose 1100000000) ∷ tick 1200000000 ∷ []

abbrev started : VioNode ℤ ℕ
started = sample_run_calibration counting (λ x. x) 9 (fresh_node counting (λ x. x) 9 settings 7)

abbrev result : Option (VioNode ℤ ℕ) → VioNode ℤ ℕ
result none = started
result (some s) = s

finished : VioNode ℤ ℕ
unfolding run sample_run_calibration fresh_node
finished = result (run counting (λ x. x) 9 events started)

streams_differ_example :
    (stream_seed 7 white_noise_name ≢ stream_seed 7 drift_name)
    × (stream_seed 7 white_noise_name ≢ stream_seed 7 faults_name)
    × (stream_seed 7 white_noise_name ≢ stream_seed 7 profile_name)
    × (stream_seed 7 drift_name ≢ stream_seed 7 faults_name)
    × (stream_seed 7 drift_name ≢ stream_seed 7 profile_name)
    × (stream_seed 7 faults_name ≢ stream_seed 7 profile_name)
streams_differ_example = streams_differ 7 (omega arith)

run-construct_example :
    ((t : VioNode ℤ ℕ) × (run counting (λ x. x) 9 events started ≡ some t)
      × ((new : List (Odometry ℤ)) × Accepts counting started.model started.fault_rng events new
          × (log t ≡ new))
      × All (λ m. m.message.stamp ≤ m.release_time) t.pending_messages
      × IsValidModel t.model)
    ⊎ ((run counting (λ x. x) 9 events started ≡ none) × Hangs counting (λ x. x) 9)
unfolding construct validate_parameters
run-construct_example = run-construct counting (λ x. x) 9 settings (pos 7) 0 0 events started refl

-- The run ends, with the first of its two messages published.
published_one : length finished.published ≡ 1
unfolding finished run handle truth_callback respond deliver start_at advance walk white_noise
    drift_noise make_measurement enqueue publish_due_messages ◌>>=◌ sample_run_calibration
    fresh_node select_model scale_model stressed wrap_angle yaw_from_quaternion
published_one = refl

select_model-IsValidModel_example : IsValidModel (select_model counting settings 0).0
unfolding validate_parameters
select_model-IsValidModel_example = select_model-IsValidModel counting settings (pos 7) 0 refl
