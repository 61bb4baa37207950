-- ===== src/Vio/Declared/Laws.antt =====
-- A node that is started with no overrides.
use mathlib.Core.List.{append-nil}
use mathlib.Core.Option.{none-ne-some}
use billee_software.Prelude.{
  subst, Option-cases, ℕ, ◌*◌, ◌^◌, ◌≡◌, refl, sym, ap, ◌∙◌, ◌⊎◌, inl, inr, Bool, ◌&&◌, true, none,
  some, List, [], ◌++◌, ltb, leb,
}
use billee_software.Prelude.Int.{ℤ, pos, negsuc}
use billee_software.Double.{Double}
use billee_software.Declares.{Declares, KeepsDefaults}
use billee_software.Vio.Random.{Random}
use billee_software.Vio.Model.{
  NoiseModel, Settings, validate_parameters, resolve_seed, select_model,
}
use billee_software.Vio.State.{VioNode, Event}
use billee_software.Vio.Node.Log.{Accepts, messages}
use billee_software.Vio.Node.Ends.{Hangs, run_ends}
use billee_software.Vio.Node.Answers.{run-Adds}
use billee_software.Vio.Node.{construct, run, fresh_node, sample_run_calibration}
use billee_software.Vio.Declared.{
  Topics, declare_topics, declare_nominal_model, declare_profiles, declare_settings,
  synthetic_vio_node,
}

-- At most 50, with at most three digits after the point.
abbrev pub is_short : ℕ → ℕ → Bool
is_short m k = leb m 50 && leb k 3

-- Short literals compare as the numbers that they stand for.
pub record ComparesLiterals {D : Type 0} (d : Double D) : Type 0 where
  pub lt_decimal :
      (m k n l : ℕ)
      → is_short m k ≡ true
      → is_short n l ≡ true
      → d.lt (d.decimal (pos m) k) (d.decimal (pos n) l) ≡ ltb (m * 10 ^ l) (n * 10 ^ k)
  pub le_decimal :
      (m k n l : ℕ)
      → is_short m k ≡ true
      → is_short n l ≡ true
      → d.le (d.decimal (pos m) k) (d.decimal (pos n) l) ≡ leb (m * 10 ^ l) (n * 10 ^ k)

abbrev pub default_topics : Topics
default_topics = record { truth_topic = "/gz/odom"; vio_topic = "/sim/zed/vio/odom" }

module _ {D : Type 0} ⦃d : Double D⦄ where
  open d use {decimal}

  abbrev pub default_model : NoiseModel D
  default_model = record {
    position_noise_std = decimal (pos 3) 2;
    yaw_noise_std = decimal (pos 2) 2;
    position_drift_rw_std = decimal (pos 3) 3;
    yaw_drift_rw_std = decimal (pos 3) 3;
    translation_scale_std = decimal (pos 5) 3;
    yaw_scale_std = decimal (pos 5) 3;
    dropout_probability = decimal (pos 0) 1;
    outlier_probability = decimal (pos 0) 1;
    outlier_position_std = decimal (pos 50) 2;
    outlier_yaw_std = decimal (pos 35) 2;
    latency_ms = pos 0;
    reported_covariance_scale = decimal (pos 10) 1;
  }

  abbrev pub default_settings : Settings D
  default_settings = record {
    output_frame_id = "odom";
    child_frame_id = "base_link";
    profile = "calibration";
    nominal = default_model;
    validation_min_multiplier = decimal (pos 5) 1;
    validation_max_multiplier = decimal (pos 20) 1;
    stress_min_multiplier = decimal (pos 20) 1;
    stress_max_multiplier = decimal (pos 50) 1;
    stress_dropout_probability = decimal (pos 5) 2;
    stress_outlier_probability = decimal (pos 1) 2;
    stress_latency_ms = pos 150;
    stress_reported_covariance_scale = decimal (pos 7) 1;
  }

  declare_nominal_model-default :
      (given : Declares D) → KeepsDefaults given → declare_nominal_model given ≡ some default_model
  unfolding declare_nominal_model
  declare_nominal_model-default given kept = simp (kept.ints, kept.doubles)

  declare_settings-default :
      (given : Declares D)
      → KeepsDefaults given
      → declare_settings given ≡ some (default_topics, default_settings, negsuc 0)
  unfolding declare_settings declare_profiles declare_topics
  declare_settings-default given kept =
      simp (kept.strings, kept.ints, kept.doubles, declare_nominal_model-default given kept)

  validate_parameters-default :
      ComparesLiterals d → validate_parameters default_settings (negsuc 0) ≡ none
  unfolding validate_parameters
  validate_parameters-default h = simp (h.lt_decimal, h.le_decimal)

module _ {D G N U : Type 0} ⦃d : Double D⦄ (random : Random D G N U) (seconds : ℤ → D)
    (fuel : ℕ) where
  -- The run ends with no message waiting and all that were accepted published, or `wrap_angle` hangs.
  abbrev pub PublishesAll : List (Event D) → VioNode D G → Type 0
  PublishesAll events s =
      ((t : VioNode D G) × (run random seconds fuel events s ≡ some t)
        × (t.pending_messages ≡ [])
        × Accepts random s.model s.fault_rng events t.published)
      ⊎ ((run random seconds fuel events s ≡ none) × Hangs random seconds fuel)

  -- With no overrides the constructor succeeds and selects the default model, which has no latency;
  -- and then, unless `wrap_angle` hangs, whatever poses come and whenever the timer fires, every
  -- message that the node accepts is published at once: at the end none is waiting.
  pub synthetic_vio_node-default :
      (compares : ComparesLiterals d) (given : Declares D) (kept : KeepsDefaults given)
      (high low : ℕ) (events : List (Event D))
      → (s : VioNode D G) × (synthetic_vio_node random seconds fuel given high low
          ≡ inr (default_topics, s))
        × (s.model ≡ default_model)
        × PublishesAll events s
  unfolding synthetic_vio_node construct sample_run_calibration fresh_node select_model resolve_seed
  synthetic_vio_node-default compares given kept high low events =
      let s =
        sample_run_calibration random seconds fuel
          (fresh_node random seconds fuel default_settings (resolve_seed (negsuc 0) high low)) in
      (
        s,
        simp (
          synthetic_vio_node,
          declare_settings-default given kept,
          construct,
          validate_parameters-default compares,
        ),
        refl,
        elim (Option-cases (run random seconds fuel events s)) [
          | inr (t, e) ↦
              let (new, accepts, adds, prompt) = run-Adds random seconds fuel events s t e in
              let idle = prompt refl refl in
              let all : new ≡ t.published =
                sym adds.grown
                ∙ ap (λ q. t.published ++ messages q) idle
                ∙ append-nil t.published in
              inl (t, e, idle, subst (Accepts random default_model s.fault_rng events) all accepts)
          | inl h ↦ elim (run_ends random seconds fuel events s) [
            | inl (t, e) ↦ absurd (none-ne-some t (sym h ∙ e))
            | inr stuck ↦ inr (h, stuck)
          ]
        ],
      )
