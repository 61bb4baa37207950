-- ===== src/Vio/Step.antt =====
-- Computations on a state that may run out of fuel.
pub mod Laws
use billee_software.Prelude.{Option, none, some}

-- `none` means that a loop has not ended.
abbrev pub Step : Type 0 → Type 0 → Type 0
Step S A = S → Option (A × S)

abbrev pub pure : {S A : Type 0} → A → Step S A
pure a s = some (a, s)

abbrev pub then_run : {S A B : Type 0} → Option (A × S) → (A → Step S B) → Option (B × S)
then_run none f = none
then_run (some (a, s)) f = f a s

infixl 5 ◌>>=◌ ◌>>◌
unfoldable pub ◌>>=◌ : {S A B : Type 0} → Step S A → (A → Step S B) → Step S B
◌>>=◌ m f s = then_run (m s) f

abbrev pub ◌>>◌ : {S B : Type 0} → Step S (Unit {0}) → Step S B → Step S B
m >> k = m >>= λ _. k

abbrev pub get : {S : Type 0} → Step S S
get s = some (s, s)

abbrev pub modify : {S : Type 0} → (S → S) → Step S (Unit {0})
modify f s = some (tt, f s)

abbrev pub lift : {S A : Type 0} → Option A → Step S A
lift none s = none
lift (some a) s = some (a, s)
