-- ===== src/Params.antt =====
-- What both plugins take from `hardware_interface::HardwareInfo`, the parsed URDF, and the conversions
-- of <string>. A converter gives `none` where the C++ function throws.
use Prim.Native.String.{String}
use text.Mathlib.Text.{◌==◌ as str_eq}
use billee_software.Prelude.{
  Bool, true, false, ◌||◌, Option, none, some, List, [], ◌∷◌, if◌then◌else◌, ◌≡◌, refl, ◌⊎◌, inl,
  inr,
}
use billee_software.Prelude.Int.{ℤ}

abbrev pub Parameters : Type 0
Parameters = List (String × String)

-- `find` of the parameter map.
abbrev pub find_param : String → Parameters → Option String
find_param key [] = none
find_param key ((name, value) ∷ rest) = if str_eq name key then some value else find_param key rest

abbrev pub value_or : String → Option String → String
value_or other none = other
value_or other (some value) = value

-- The interfaces are given by their names.
pub record JointInfo : Type 0 where
  pub name : String
  pub command_interfaces : List String
  pub state_interfaces : List String
  pub parameters : Parameters

pub record HardwareInfo : Type 0 where
  pub hardware_parameters : Parameters
  pub joints : List JointInfo

-- The names of the two interface kinds are constants of hardware_interface.
pub record Platform (D : Type 0) : Type 0 where
  pub hw_if_position : String
  pub hw_if_velocity : String
  pub stoi : String → Option ℤ
  pub stod : String → Option D

-- The node number that a joint states.
abbrev pub stated_node : {D : Type 0} → Platform D → JointInfo → Option ℤ
stated_node conv joint = elim (find_param "node_id" joint.parameters) [
  | none ↦ none
  | some text ↦ conv.stoi text
]

-- Why a callback stops: ERROR, with the check that failed, or an exception.
pub data Failure : Type 0 where
  base_failed : Failure
  bad_command_interface missing_state_interface missing_node_id : String → Failure
  node_id_out_of_range : String → ℤ → Failure
  bad_gear_ratio : Failure
  exception : Failure

pub data Result {ℓ} (A : Type ℓ) : Type ℓ where
  err : Failure → Result A
  ok : A → Result A

infixl 5 ◌>>=◌ ◌>>◌
abbrev pub ◌>>=◌ {ℓ κ} : {A : Type ℓ} {B : Type κ} → Result A → (A → Result B) → Result B
err failure >>= next = err failure
ok a >>= next = next a

abbrev pub ◌>>◌ {ℓ} : {B : Type ℓ} → Result (Unit {0}) → Result B → Result B
m >> k = m >>= λ _. k

abbrev pub require : Bool → Failure → Result (Unit {0})
require true e = ok tt
require false e = err e

abbrev pub or_fail {ℓ} : {A : Type ℓ} → Option A → Failure → Result A
or_fail none e = err e
or_fail (some a) e = ok a

-- `command_interfaces.size() == 1` and its only name.
abbrev pub is_only : String → List String → Bool
is_only name (x ∷ []) = str_eq x name
is_only name xs = false

-- `has |= (si.name == name)` over the interfaces.
abbrev pub has_name : String → List String → Bool
has_name name [] = false
has_name name (x ∷ xs) = str_eq x name || has_name name xs

pub Result-cases {ℓ} :
    {A : Type ℓ} (r : Result A) → ((a : A) × (r ≡ ok a)) ⊎ ((f : Failure) × (r ≡ err f))
Result-cases (ok a) = inl (a, refl)
Result-cases (err f) = inr (f, refl)
