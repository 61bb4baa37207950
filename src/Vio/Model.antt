-- ===== src/Vio/Model.antt =====
-- The parameters of `SyntheticVioNode` and the noise model that it selects from them:
-- ros2_ws/src/perception/zed2i/src/synthetic_vio_node.cpp.
pub mod Laws
use Prim.Native.Nat.{bit_xor}
use Prim.Native.String.{String}
use text.Mathlib.Text.{◌==◌ as str_eq}
use billee_software.Prelude.{
  ℕ, zero, suc, ◌*◌, ◌%◌, ◌^◌, Bool, true, false, not, ◌&&◌, ◌||◌, Option, none, some, List, [],
  ◌∷◌, if◌then◌else◌,
}
use billee_software.Prelude.Int.{ℤ, pos, negsuc}
use billee_software.Double.{Double, zero_d}
use billee_software.Vio.Random.{Random}

pub record NoiseModel (D : Type 0) : Type 0 where
  pub position_noise_std : D
  pub yaw_noise_std : D
  pub position_drift_rw_std : D
  pub yaw_drift_rw_std : D
  pub translation_scale_std : D
  pub yaw_scale_std : D
  pub dropout_probability : D
  pub outlier_probability : D
  pub outlier_position_std : D
  pub outlier_yaw_std : D
  pub latency_ms : ℤ
  pub reported_covariance_scale : D

-- The parameters that the constructor declares, with the values that ROS gives them.
pub record Settings (D : Type 0) : Type 0 where
  pub output_frame_id : String
  pub child_frame_id : String
  pub profile : String
  pub nominal : NoiseModel D
  pub validation_min_multiplier : D
  pub validation_max_multiplier : D
  pub stress_min_multiplier : D
  pub stress_max_multiplier : D
  pub stress_dropout_probability : D
  pub stress_outlier_probability : D
  pub stress_latency_ms : ℤ
  pub stress_reported_covariance_scale : D

-- What `validate_parameters` throws.
pub data Invalid : Type 0 where
  bad_profile bad_seed bad_ranges bad_probability bad_latency : Invalid

abbrev pub is_negative : ℤ → Bool
is_negative (pos n) = false
is_negative (negsuc n) = true

-- `requested_seed < -1`.
abbrev pub below_minus_one : ℤ → Bool
below_minus_one (pos n) = false
below_minus_one (negsuc zero) = false
below_minus_one (negsuc (suc n)) = true

abbrev pub is_known : String → Bool
is_known profile =
    str_eq profile "calibration"
    || str_eq profile "nominal"
    || str_eq profile "validation"
    || str_eq profile "stress"

-- `static_cast<uint64_t>` of a seed, or the two draws of `std::random_device`.
unfoldable pub resolve_seed : ℤ → ℕ → ℕ → ℕ
resolve_seed (pos n) high low = n % 2 ^ 64
resolve_seed (negsuc n) high low = bit_xor (high * 2 ^ 32 % 2 ^ 64) low

module _ {D : Type 0} ⦃d : Double D⦄ where
  open d use {decimal, mul, lt, le}

  abbrev pub outside : D → Bool
  outside probability = lt probability zero_d || lt (decimal (pos 1) 0) probability

  abbrev pub bad_multipliers : Settings D → Bool
  bad_multipliers p =
      le p.validation_min_multiplier zero_d
      || lt p.validation_max_multiplier p.validation_min_multiplier
      || le p.stress_min_multiplier zero_d
      || lt p.stress_max_multiplier p.stress_min_multiplier

  -- The loop over the four probabilities.
  abbrev pub some_outside : Settings D → Bool
  some_outside p =
      outside p.nominal.dropout_probability
      || outside p.nominal.outlier_probability
      || outside p.stress_dropout_probability
      || outside p.stress_outlier_probability

  abbrev pub some_negative : Settings D → Bool
  some_negative p = is_negative p.nominal.latency_ms || is_negative p.stress_latency_ms

  unfoldable pub validate_parameters : Settings D → ℤ → Option Invalid
  validate_parameters p requested_seed =
      if not (is_known p.profile)
      then some Invalid.bad_profile
      else if below_minus_one requested_seed
      then some Invalid.bad_seed
      else if bad_multipliers p
      then some Invalid.bad_ranges
      else if some_outside p
      then some Invalid.bad_probability
      else if some_negative p
      then some Invalid.bad_latency
      else none

  module _ {G N U : Type 0} (random : Random D G N U) where
    -- The standard deviations that are scaled, each by a draw of its own, in their order.
    unfoldable pub scale_model : U → G → NoiseModel D → NoiseModel D × G
    scale_model u g m =
        let (a, u1, g1) = random.draw_uniform u g in
        let (b, u2, g2) = random.draw_uniform u1 g1 in
        let (c, u3, g3) = random.draw_uniform u2 g2 in
        let (e, u4, g4) = random.draw_uniform u3 g3 in
        let (f, u5, g5) = random.draw_uniform u4 g4 in
        let (h, _, g6) = random.draw_uniform u5 g5 in
        (
          record m {
            position_noise_std = mul m.position_noise_std a;
            yaw_noise_std = mul m.yaw_noise_std b;
            position_drift_rw_std = mul m.position_drift_rw_std c;
            yaw_drift_rw_std = mul m.yaw_drift_rw_std e;
            translation_scale_std = mul m.translation_scale_std f;
            yaw_scale_std = mul m.yaw_scale_std h;
          },
          g6,
        )

    -- What the profile "stress" sets besides.
    unfoldable pub stressed : Settings D → NoiseModel D → NoiseModel D
    stressed p m = record m {
      dropout_probability = p.stress_dropout_probability;
      outlier_probability = p.stress_outlier_probability;
      latency_ms = p.stress_latency_ms;
      reported_covariance_scale = p.stress_reported_covariance_scale;
    }

    abbrev pub range_of : Settings D → U
    range_of p =
        if str_eq p.profile "validation"
        then random.uniform p.validation_min_multiplier p.validation_max_multiplier
        else random.uniform p.stress_min_multiplier p.stress_max_multiplier

    -- The model, and the profile's engine after it.
    unfoldable pub select_model : Settings D → G → NoiseModel D × G
    unfolding scale_model stressed
    select_model p g =
        let (scaled, g') = scale_model (range_of p) g p.nominal in
        if str_eq p.profile "calibration" || str_eq p.profile "nominal"
        then (p.nominal, g)
        else (if str_eq p.profile "stress" then stressed p scaled else scaled, g')
