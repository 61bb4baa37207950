-- ===== src/Vio/Declared.antt =====
-- The constructor of `SyntheticVioNode` from its parameters on:
-- ros2_ws/src/perception/zed2i/src/synthetic_vio_node.cpp.
pub mod Laws
mod Tests
use Prim.Native.String.{String}
use billee_software.Prelude.{ℕ, ◌⊎◌, inl, inr, Option, none, some}
use billee_software.Prelude.Int.{ℤ, pos, negsuc}
use billee_software.Double.{Double}
use billee_software.Declares.{Declares, ◌>>=◌}
use billee_software.Vio.Random.{Random}
use billee_software.Vio.Model.{NoiseModel, Settings, Invalid}
use billee_software.Vio.State.{VioNode}
use billee_software.Vio.Node.{construct}

pub record Topics : Type 0 where
  pub truth_topic : String
  pub vio_topic : String

module _ {D : Type 0} ⦃d : Double D⦄ (given : Declares D) where
  open d use {decimal}

  unfoldable pub declare_topics : Option Topics
  declare_topics = do
    truth_topic ← given.declare_string "truth_topic" "/gz/odom"
    vio_topic ← given.declare_string "vio_topic" "/sim/zed/vio/odom"
    some (record { truth_topic = truth_topic; vio_topic = vio_topic })

  unfoldable pub declare_nominal_model : Option (NoiseModel D)
  declare_nominal_model = do
    position_noise_std ← given.declare_double "position_noise_std" (decimal (pos 3) 2)
    yaw_noise_std ← given.declare_double "yaw_noise_std" (decimal (pos 2) 2)
    position_drift_rw_std ← given.declare_double "position_drift_rw_std" (decimal (pos 3) 3)
    yaw_drift_rw_std ← given.declare_double "yaw_drift_rw_std" (decimal (pos 3) 3)
    translation_scale_std ← given.declare_double "translation_scale_std" (decimal (pos 5) 3)
    yaw_scale_std ← given.declare_double "yaw_scale_std" (decimal (pos 5) 3)
    dropout_probability ← given.declare_double "dropout_probability" (decimal (pos 0) 1)
    outlier_probability ← given.declare_double "outlier_probability" (decimal (pos 0) 1)
    outlier_position_std ← given.declare_double "outlier_position_std" (decimal (pos 50) 2)
    outlier_yaw_std ← given.declare_double "outlier_yaw_std" (decimal (pos 35) 2)
    latency_ms ← given.declare_int "latency_ms" (pos 0)
    reported_covariance_scale ←
        given.declare_double "reported_covariance_scale" (decimal (pos 10) 1)
    some (record {
      position_noise_std = position_noise_std;
      yaw_noise_std = yaw_noise_std;
      position_drift_rw_std = position_drift_rw_std;
      yaw_drift_rw_std = yaw_drift_rw_std;
      translation_scale_std = translation_scale_std;
      yaw_scale_std = yaw_scale_std;
      dropout_probability = dropout_probability;
      outlier_probability = outlier_probability;
      outlier_position_std = outlier_position_std;
      outlier_yaw_std = outlier_yaw_std;
      latency_ms = latency_ms;
      reported_covariance_scale = reported_covariance_scale;
    })

  -- The profiles' parameters, around those that are declared before them.
  unfoldable pub declare_profiles : String → String → String → NoiseModel D → Option (Settings D)
  declare_profiles output_frame_id child_frame_id profile nominal = do
    validation_min_multiplier ← given.declare_double "validation_min_multiplier" (decimal (pos 5) 1)
    validation_max_multiplier ←
        given.declare_double "validation_max_multiplier" (decimal (pos 20) 1)
    stress_min_multiplier ← given.declare_double "stress_min_multiplier" (decimal (pos 20) 1)
    stress_max_multiplier ← given.declare_double "stress_max_multiplier" (decimal (pos 50) 1)
    stress_dropout_probability ←
        given.declare_double "stress_dropout_probability" (decimal (pos 5) 2)
    stress_outlier_probability ←
        given.declare_double "stress_outlier_probability" (decimal (pos 1) 2)
    stress_latency_ms ← given.declare_int "stress_latency_ms" (pos 150)
    stress_reported_covariance_scale ←
        given.declare_double "stress_reported_covariance_scale" (decimal (pos 7) 1)
    some (record {
      output_frame_id = output_frame_id;
      child_frame_id = child_frame_id;
      profile = profile;
      nominal = nominal;
      validation_min_multiplier = validation_min_multiplier;
      validation_max_multiplier = validation_max_multiplier;
      stress_min_multiplier = stress_min_multiplier;
      stress_max_multiplier = stress_max_multiplier;
      stress_dropout_probability = stress_dropout_probability;
      stress_outlier_probability = stress_outlier_probability;
      stress_latency_ms = stress_latency_ms;
      stress_reported_covariance_scale = stress_reported_covariance_scale;
    })

  -- All parameters, in the order in which they are declared.
  unfoldable pub declare_settings : Option (Topics × Settings D × ℤ)
  unfolding declare_topics declare_nominal_model declare_profiles
  declare_settings = do
    topics ← declare_topics
    output_frame_id ← given.declare_string "output_frame_id" "odom"
    child_frame_id ← given.declare_string "child_frame_id" "base_link"
    profile ← given.declare_string "profile" "calibration"
    requested_seed ← given.declare_int "seed" (negsuc 0)
    nominal ← declare_nominal_model
    settings ← declare_profiles output_frame_id child_frame_id profile nominal
    some (topics, settings, requested_seed)

-- Why there is no node: an override of another type, or a value that does not pass the validation.
pub data Refused : Type 0 where
  mistyped : Refused
  invalid : Invalid → Refused

module _ {D G N U : Type 0} ⦃d : Double D⦄ (random : Random D G N U) (seconds : ℤ → D)
    (fuel : ℕ) where
  -- The constructor, with the two draws of `std::random_device`.
  unfoldable pub synthetic_vio_node : Declares D → ℕ → ℕ → Refused ⊎ (Topics × VioNode D G)
  unfolding declare_settings
  synthetic_vio_node given high low = elim (declare_settings given) [
    | none ↦ inl mistyped
    | some (topics, settings, requested_seed) ↦
        elim (construct random seconds fuel settings requested_seed high low) [
          | inl e ↦ inl (invalid e)
          | inr node ↦ inr (topics, node)
        ]
  ]
