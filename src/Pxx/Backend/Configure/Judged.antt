-- ===== src/Pxx/Backend/Configure/Judged.antt =====
-- `check_enabled`: what the last step of `configure_node` asks, and when it is content.
use mathlib.Core.List.{append_assoc, append-nil}
use billee_software.Prelude.{
  ℕ, ◌≡◌, refl, sym, ap, ◌∙◌, inl, inr, Bool, true, false, Option, none, some, List, [], ◌∷◌, ◌++◌,
  arith, if◌then◌else◌, Bool-cases,
}
use billee_software.Pxx.Can.Od
use billee_software.Pxx.Transport.{CanFrame}
use billee_software.Pxx.Backend.{Backend, Bus, pure, then_run, sdo_read, is_done}
use billee_software.Pxx.Backend.Emits.{Trace, IsSteady, then_run-Trace, sdo_read-Emits}
use billee_software.Pxx.Backend.Configure.{check_enabled, fail_enable, is_refused}
use billee_software.Pxx.Backend.Configure.Frames.{read_frame, Told, sdo_read-Told}

-- The two questions of the last step.
abbrev pub judging : ℕ → List CanFrame
judging node = read_frame node Od.status_word ∷ read_frame node Od.error_code ∷ []

-- A status word that the drive gave, enabled and with no fault.
abbrev pub ToldEnabled : Bus → ℕ → Type 0
ToldEnabled bus node =
    (status : ℕ) × Told bus node Od.status_word status × (is_refused status ≡ false)

-- `out` is a beginning of the two questions, and success takes just the first.
pub record Judged (bus : Bus) (node : ℕ) (s : Backend) (r : Option (Unit {0}) × Backend)
    : Type 0 where
  pub out : List CanFrame
  pub rest : List CanFrame
  pub splits : judging node ≡ out ++ rest
  pub grows : r.1.wire ≡ s.wire ++ out
  pub passed :
      is_done r.0 ≡ true → (out ≡ read_frame node Od.status_word ∷ []) × ToldEnabled bus node
  pub steady : IsSteady s r.1

fail_enable-Trace :
    (bus : Bus) (sink : Bool) (node status : ℕ) (s : Backend)
    → Trace (read_frame node Od.error_code ∷ []) s (fail_enable bus sink node status s)
unfolding fail_enable
fail_enable-Trace bus sink node status s =
    let t = sdo_read-Emits bus false node Od.error_code 0 s in
    record {
      out = t.out;
      rest = t.rest;
      splits = t.splits;
      grows = ground (arith, t.grows);
      complete = λ e. cc e;
      steady = ground (arith, t.steady);
    }

fail_enable-fails :
    (bus : Bus) (sink : Bool) (node status : ℕ) (s : Backend)
    → (fail_enable bus sink node status s).0 ≡ none
unfolding fail_enable
fail_enable-fails bus sink node status s = refl

judge-Judged :
    (bus : Bus) (sink : Bool) (node : ℕ) (s : Backend) (r : Option ℕ × Backend)
    → Trace (read_frame node Od.status_word ∷ []) s r
    → ((status : ℕ) → r.0 ≡ some status → Told bus node Od.status_word status)
    → Judged bus node s (
        then_run r
          (λ status. if is_refused status then fail_enable bus sink node status else pure tt))
judge-Judged bus sink node s (none, t) p told = record {
  out = p.out;
  rest = p.rest ++ read_frame node Od.error_code ∷ [];
  splits =
      ap (λ x. x ++ read_frame node Od.error_code ∷ []) p.splits
      ∙ append_assoc p.out p.rest (read_frame node Od.error_code ∷ []);
  grows = p.grows;
  passed = λ e. cc e;
  steady = p.steady;
}
judge-Judged bus sink node s (some status, t) p told = elim (Bool-cases (is_refused status)) [
  | inl bad ↦
      let q =
        then_run-Trace {B = Unit {0}} _ (read_frame node Od.error_code ∷ []) s (some status, t)
          (λ _. fail_enable bus sink node status) p (λ _. fail_enable-Trace bus sink node status) in
      rw bad (record {
        out = q.out;
        rest = q.rest;
        splits = q.splits;
        grows = q.grows;
        passed = λ e. cc (e, fail_enable-fails bus sink node status t);
        steady = q.steady;
      })
  | inr good ↦
      let whole : p.out ≡ read_frame node Od.status_word ∷ [] =
        sym (p.splits ∙ ap (λ x. p.out ++ x) (p.complete refl) ∙ append-nil p.out) in
      rw good (record {
        out = p.out;
        rest = read_frame node Od.error_code ∷ [];
        splits = ap (λ x. x ++ read_frame node Od.error_code ∷ []) (sym whole);
        grows = p.grows;
        passed = λ _. (whole, (status, told status refl, good));
        steady = p.steady;
      })
]

pub check_enabled-Judged :
    (bus : Bus) (sink : Bool) (node : ℕ) (s : Backend)
    → Judged bus node s (check_enabled bus sink node s)
unfolding check_enabled
check_enabled-Judged bus sink node s =
    judge-Judged bus sink node s (sdo_read bus sink node Od.status_word 0 s)
      (sdo_read-Emits bus sink node Od.status_word 0 s)
      (λ status. sdo_read-Told bus sink node Od.status_word status s)
