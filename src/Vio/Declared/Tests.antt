-- ===== src/Vio/Declared/Tests.antt =====
-- A run at the defaults, with decimal fractions in the place of doubles.
use billee_software.Prelude.{ℕ, ◌+◌, ◌*◌, ◌^◌, ◌≡◌, refl, inr, Bool, true, false, [], ◌∷◌, ltb, leb}
use billee_software.Prelude.Int.{ℤ, pos, negsuc}
use billee_software.Double.{Double}
use billee_software.Declares.{KeepsDefaults, defaults}
use billee_software.Vio.Random.{Random}
use billee_software.Vio.State.{VioNode, Odometry, sensed, tick}
use billee_software.Vio.Declared.{synthetic_vio_node}
use billee_software.Vio.Declared.Laws.{
  ComparesLiterals, default_topics, default_model, PublishesAll, synthetic_vio_node-default,
}

-- `(m, k)` is m * 10^-k.
abbrev Fraction : Type 0
Fraction = ℕ × ℕ

abbrev compare : (ℕ → ℕ → Bool) → Fraction → Fraction → Bool
compare test (m, k) (n, l) = test (m * 10 ^ l) (n * 10 ^ k)

abbrev numerator : ℤ → ℕ
numerator (pos n) = n
numerator (negsuc n) = 0

-- What the comparisons do not use is left constant.
instance abbrev fractions : Double Fraction
fractions = record {
  decimal = λ m k. (numerator m, k);
  of_int = λ m. (numerator m, 0);
  nan = (0, 0);
  add = λ x y. x;
  sub = λ x y. x;
  mul = λ x y. x;
  div = λ x y. x;
  neg = λ x. x;
  lt = compare ltb;
  le = compare leb;
  eq = λ x y. false;
  is_nan = λ x. false;
  is_finite = λ x. true;
  lround = λ x. pos 0;
  truncate = λ x. pos 0;
  sqrt = λ x. x;
  abs = λ x. x;
  sin = λ x. x;
  cos = λ x. x;
  hypot = λ x y. x;
  atan2 = λ x y. x;
  max = λ x y. x;
  float_bits = λ x. 0;
  of_float_bits = λ n. (n, 0);
}

fractions-ComparesLiterals : ComparesLiterals fractions
fractions-ComparesLiterals = record {
  lt_decimal = λ m k n l _ _. refl;
  le_decimal = λ m k n l _ _. refl;
}

defaults-KeepsDefaults : KeepsDefaults {D = Fraction} defaults
defaults-KeepsDefaults = record {
  strings = λ name value. refl;
  ints = λ name value. refl;
  doubles = λ name value. refl;
}

-- Each draw is 0, and the engine counts it.
abbrev counting : Random Fraction ℕ (Unit {0}) (Unit {0})
counting = record {
  seeded = λ n. 0;
  normal = λ m s. tt;
  draw_normal = λ n g. ((0, 0), n, g + 1);
  uniform = λ a b. tt;
  draw_uniform = λ u g. ((0, 0), u, g + 1);
}

abbrev pose : Odometry Fraction
pose = record {
  stamp = 1000000000;
  frame_id = "map";
  child_frame_id = "rover";
  position = record { x = (3, 0); y = (4, 0); z = (5, 0) };
  orientation = record { x = (0, 0); y = (0, 0); z = (0, 0); w = (1, 0) };
  pose_covariance = [];
  twist_covariance = [];
}

synthetic_vio_node-default_example :
    (s : VioNode Fraction ℕ) × (synthetic_vio_node counting (λ x. (0, 0)) 9 defaults 5 7
      ≡ inr (default_topics, s))
    × (s.model ≡ default_model)
    × PublishesAll counting (λ x. (0, 0)) 9 (sensed pose ∷ tick 1000000001 ∷ []) s
synthetic_vio_node-default_example =
    synthetic_vio_node-default counting (λ x. (0, 0)) 9 fractions-ComparesLiterals defaults
      defaults-KeepsDefaults 5 7 (sensed pose ∷ tick 1000000001 ∷ [])
