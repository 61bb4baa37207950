-- ===== src/Vio/Step/Laws.antt =====
-- What holds after a computation that ends.
use billee_software.Prelude.{Option, none, some}
use billee_software.Vio.Step.{Step, then_run}

abbrev pub After : {S A : Type 0} → (A → S → Type 0) → Option (A × S) → Type 0
After P none = Unit
After P (some (a, s)) = P a s

module _ {S A : Type 0} where
  pub After-weaken :
      (P Q : A → S → Type 0) (o : Option (A × S))
      → ((a : A) (s : S) → P a s → Q a s)
      → After P o
      → After Q o
  After-weaken P Q none imp h = tt
  After-weaken P Q (some (a, s)) imp h = imp a s h

  pub After-then_run :
      {B : Type 0} (P : A → S → Type 0) (Q : B → S → Type 0) (o : Option (A × S)) (f : A → Step S B)
      → After P o
      → ((a : A) (s : S) → P a s → After Q (f a s))
      → After Q (then_run o f)
  After-then_run P Q none f h next = tt
  After-then_run P Q (some (a, s)) f h next = next a s h
