-- ===== src/Vio/Model/Laws.antt =====
-- What the validation of the parameters says of the model that a run uses.
use text.Mathlib.Text.{◌==◌ as str_eq}
use mathlib.Core.Bool.{true≢false}
use mathlib.Core.Option.{some-ne-none}
use billee_software.Prelude.{◌≡◌, refl, not, Bool, true, false, ◌||◌, none, some, if◌then◌else◌}
use billee_software.Prelude.Int.{ℤ}
use billee_software.Double.{Double}
use billee_software.Vio.Random.{Random}
use billee_software.Vio.Model.{
  NoiseModel, Settings, Invalid, is_negative, is_known, below_minus_one, outside, bad_multipliers,
  some_outside, some_negative, scale_model, stressed, validate_parameters, select_model,
}

-- What the last two of five tests say when all pass.
passed :
    (a b c e f : Bool)
    → (if a
        then some Invalid.bad_profile
        else if b
        then some Invalid.bad_seed
        else if c
        then some Invalid.bad_ranges
        else if e
        then some Invalid.bad_probability
        else if f
        then some Invalid.bad_latency
        else none)
      ≡ none
    → (e ≡ false) × (f ≡ false)
passed true b c e f h = absurd (some-ne-none _ h)
passed false true c e f h = absurd (some-ne-none _ h)
passed false false true e f h = absurd (some-ne-none _ h)
passed false false false true f h = absurd (some-ne-none _ h)
passed false false false false true h = absurd (some-ne-none _ h)
passed false false false false false h = (refl, refl)

abbrev first_of : {A B : Type 0} → A × B → A
first_of (a, b) = a

or-false : (a b : Bool) → (a || b) ≡ false → (a ≡ false) × (b ≡ false)
or-false true b h = absurd (true≢false h)
or-false false b h = (refl, h)

all_false :
    (a b c e : Bool)
    → (a || b || c || e) ≡ false
    → (a ≡ false) × (b ≡ false) × (c ≡ false) × (e ≡ false)
all_false a b c e h =
    let (abc, he) = or-false (a || b || c) e h in
    let (ab, hc) = or-false (a || b) c abc in let (ha, hb) = or-false a b ab in (ha, hb, hc, he)

module _ {D : Type 0} ⦃d : Double D⦄ where
  -- No test of the validation holds of the model's probabilities and latency.
  pub record IsValidModel (m : NoiseModel D) : Type 0 where
    pub dropout : outside m.dropout_probability ≡ false
    pub outlier : outside m.outlier_probability ≡ false
    pub latency : is_negative m.latency_ms ≡ false

  module _ {G N U : Type 0} (random : Random D G N U) where
    -- Settings that pass the validation give a model whose two probabilities are not outside 0 to 1
    -- and whose latency is not negative, in each of the four profiles.
    pub select_model-IsValidModel :
        (p : Settings D) (requested_seed : ℤ) (g : G)
        → validate_parameters p requested_seed ≡ none
        → IsValidModel (select_model random p g).0
    unfolding validate_parameters select_model scale_model stressed
    select_model-IsValidModel p requested_seed g h =
        let (probabilities, latencies) =
          passed (not (is_known p.profile)) (below_minus_one requested_seed) (bad_multipliers p)
            (some_outside p) (some_negative p) h in
        let (a, b, a', b') =
          all_false (outside p.nominal.dropout_probability) (outside p.nominal.outlier_probability)
            (outside p.stress_dropout_probability) (outside p.stress_outlier_probability)
            probabilities in
        let (c, c') =
          or-false (is_negative p.nominal.latency_ms) (is_negative p.stress_latency_ms) latencies in
        let plain : IsValidModel p.nominal = record { dropout = a; outlier = b; latency = c } in
        by_profile _ _ _ _ (str_eq p.profile "calibration" || str_eq p.profile "nominal")
          (str_eq p.profile "stress") plain (record { dropout = a; outlier = b; latency = c })
          (record { dropout = a'; outlier = b'; latency = c' })
      where
        by_profile :
            (m scaled stress : NoiseModel D) (g' : G) (unscaled stressing : Bool)
            → IsValidModel m
            → IsValidModel scaled
            → IsValidModel stress
            → IsValidModel
                (first_of (if unscaled then (m, g) else (if stressing then stress else scaled, g')))
        by_profile m scaled stress g' true stressing hm hs ht = hm
        by_profile m scaled stress g' false true hm hs ht = ht
        by_profile m scaled stress g' false false hm hs ht = hs
