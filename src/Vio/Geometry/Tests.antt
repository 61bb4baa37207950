-- ===== src/Vio/Geometry/Tests.antt =====
-- Three half turns, with whole numbers for doubles.
use billee_software.Prelude.{zero, suc, ℕ, ◌+◌, ◌-◌, ◌≡◌, refl, false, some, ltb, leb, arith}
use billee_software.Prelude.Int.{ℤ, pos, negsuc}
use billee_software.Whole.{whole_double}
use billee_software.Vio.Geometry.{pi, two_pi, wrap_angle}
use billee_software.Vio.Geometry.Rounding.{Within, IsRounded, wrap_angle_ends}

abbrev three_pi : ℤ
three_pi = whole_double.add pi two_pi

abbrev centre : ℕ
centre = 4000000000000000000000

abbrev reach : ℕ
reach = 1000000000000000000000

abbrev place : ℤ → ℕ
place (pos n) = centre + n
place (negsuc n) = centre - (n + 1)

abbrev Near : ℤ → Type 0
Near = Within place centre reach

lt_place : (x y : ℤ) → Near x → Near y → whole_double.lt x y ≡ ltb (place x) (place y)
lt_place (pos a) (pos b) v w = ground arith
lt_place (pos a) (negsuc b) v w = ground arith
lt_place (negsuc a) (pos b) v w = ground arith
lt_place (negsuc a) (negsuc b) v w = ground arith

le_place : (x y : ℤ) → Near x → Near y → whole_double.le x y ≡ leb (place x) (place y)
le_place (pos a) (pos b) v w = ground arith
le_place (pos a) (negsuc b) v w = ground arith
le_place (negsuc a) (pos b) v w = ground arith
le_place (negsuc a) (negsuc b) v w = ground arith

add_exact : (x y : ℤ) → Near x → Near y → place x + place y ≡ place (whole_double.add x y) + centre
add_exact (pos a) (pos b) v w = ground arith
add_exact (pos a) (negsuc b) v w = ground arith
add_exact (negsuc a) (pos b) v w = ground arith
add_exact (negsuc a) (negsuc b) v w = ground arith

neg_exact : (x : ℤ) → Near x → place (whole_double.neg x) + place x ≡ centre + centre
neg_exact (pos zero) w = omega arith
neg_exact (pos (suc n)) w = ground arith
neg_exact (negsuc n) w = ground arith

neg_Near : (x : ℤ) → Near x → Near (whole_double.neg x)
neg_Near x w = omega (arith, neg_exact x w)

sub_exact : (x y : ℤ) → Near x → Near y → place x + centre ≡ place (whole_double.sub x y) + place y
sub_exact x y v w = omega (arith, add_exact x (whole_double.neg y) v (neg_Near y w), neg_exact y w)

rounded : IsRounded whole_double place centre reach 0
rounded = record {
  lt_place = lt_place;
  le_place = le_place;
  add_near = λ x y v w. omega (arith, add_exact x y v w);
  sub_near = λ x y v w. omega (arith, sub_exact x y v w);
  add_below = λ x y z v w u h. omega (arith, add_exact x y v w);
  sub_above = λ x y z v w u h. omega (arith, sub_exact x y v w);
  double_pi = refl;
  negative_pi = refl;
  turn_in_reach = omega arith;
  turn_shows = omega arith;
}

wrap_angle_ends_example :
    (y : ℤ) × (wrap_angle 2000000000000000000000 three_pi ≡ some y)
    × (whole_double.lt pi y ≡ false)
    × (whole_double.le y (whole_double.neg pi) ≡ false)
wrap_angle_ends_example =
    wrap_angle_ends place centre reach 0 rounded 2000000000000000000000 three_pi (omega arith)
      (omega arith)
