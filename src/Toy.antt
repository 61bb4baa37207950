-- ===== src/Toy.antt =====
-- Data for the examples: numbers in the place of doubles, with `none` for NaN; the parameters of a
-- one-joint arm; and the answers of a kernel that takes every call.
use Prim.Native.String.{String}
use text.Mathlib.Text.{◌==◌ as str_eq}
use billee_software.Prelude.{
  ℕ, ◌+◌, ◌-◌, ◌*◌, ◌/◌, ◌%◌, ◌^◌, Bool, true, false, not, Option, none, some, [], ◌∷◌, ◌==◌, ltb,
  leb, if◌then◌else◌,
}
use billee_software.Prelude.Int.{ℤ, pos, negsuc}
use billee_software.Double.{Double}
use billee_software.Params.{HardwareInfo, JointInfo, Platform}
use billee_software.Pxx.Transport.{OpenCalls}

abbrev pub Toy : Type 0
Toy = Option ℕ

abbrev two : (ℕ → ℕ → ℕ) → Toy → Toy → Toy
two f none y = none
two f (some a) none = none
two f (some a) (some b) = some (f a b)

abbrev test : (ℕ → ℕ → Bool) → Toy → Toy → Bool
test f none y = false
test f (some a) none = false
test f (some a) (some b) = f a b

abbrev there : Toy → Bool
there none = false
there (some a) = true

abbrev whole : Toy → ℕ
whole none = 0
whole (some a) = a

abbrev natural : ℤ → Toy
natural (pos n) = some n
natural (negsuc n) = some 0

instance abbrev pub toy_double : Double Toy
toy_double = record {
  decimal = λ m k. natural m;
  of_int = natural;
  nan = none;
  add = two (λ a b. a + b);
  sub = two (λ a b. a - b);
  mul = two (λ a b. a * b);
  div = two (λ a b. a / b);
  neg = λ x. x;
  lt = test ltb;
  le = test leb;
  eq = test (λ a b. a == b);
  is_nan = λ x. not (there x);
  is_finite = there;
  lround = λ x. pos (whole x);
  truncate = λ x. pos (whole x);
  sqrt = λ x. x;
  abs = λ x. x;
  sin = λ x. x;
  cos = λ x. x;
  hypot = two (λ a b. a + b);
  atan2 = two (λ a b. a + b);
  max = two (λ a b. a + b);
  float_bits = λ x. whole x % 2 ^ 32;
  of_float_bits = λ n. some n;
}

abbrev pub toy_platform : Platform Toy
toy_platform = record {
  hw_if_position = "position";
  hw_if_velocity = "velocity";
  stoi = λ text. if str_eq text "1" then some (pos 1) else none;
  stod = λ text. if str_eq text "2.0" then some (some 2) else none;
}

abbrev pub toy_joint : String → JointInfo
toy_joint command = record {
  name = "joint_1";
  command_interfaces = command ∷ [];
  state_interfaces = "position" ∷ "velocity" ∷ [];
  parameters = ("node_id", "1") ∷ ("gear_ratio", "2.0") ∷ [];
}

abbrev pub toy_hardware : String → HardwareInfo
toy_hardware command = record {
  hardware_parameters = ("can_interface", "can0") ∷ ("gear_ratio", "2.0") ∷ [];
  joints = toy_joint command ∷ [];
}

-- Every call succeeds, with descriptor 3.
abbrev pub toy_opens : OpenCalls
toy_opens = record { socket = some 3; ioctl = some 1; bind = true }
