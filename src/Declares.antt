-- ===== src/Declares.antt =====
-- `declare_parameter` of `rclcpp::Node`, which both nodes with parameters call in their constructors.
use Prim.Native.String.{String}
use billee_software.Prelude.{◌≡◌, Option, none, some}
use billee_software.Prelude.Int.{ℤ}

-- By the type of the parameter: the value that it has after the call with this default, or `none` for
-- the exception of a value of another type.
pub record Declares (D : Type 0) : Type 0 where
  pub declare_string : String → String → Option String
  pub declare_int : String → ℤ → Option ℤ
  pub declare_double : String → D → Option D

infixl 5 ◌>>=◌
abbrev pub ◌>>=◌ : {A B : Type 0} → Option A → (A → Option B) → Option B
none >>= next = none
some a >>= next = next a

-- With no overrides, each parameter keeps its default.
pub record KeepsDefaults {D : Type 0} (given : Declares D) : Type 0 where
  pub strings : (name value : String) → given.declare_string name value ≡ some value
  pub ints : (name : String) (value : ℤ) → given.declare_int name value ≡ some value
  pub doubles : (name : String) (value : D) → given.declare_double name value ≡ some value

-- A node that is started with no overrides.
abbrev pub defaults : {D : Type 0} → Declares D
defaults = record {
  declare_string = λ name value. some value;
  declare_int = λ name value. some value;
  declare_double = λ name value. some value;
}
