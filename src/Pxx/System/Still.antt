-- ===== src/Pxx/System/Still.antt =====
-- After activation the arm stands still until there is a command.
use billee_software.Prelude.{
  ℕ, ◌≡◌, refl, sym, ap, subst, ◌∙◌, Bool, true, some, List, [], ◌∷◌, ◌++◌, ◌&&◌, arith, length,
  length-map, map, Bool-cases, inl, inr, ◌==◌, ==_iff,
}
use mathlib.Core.Path.{ap₂}
use billee_software.Double.{Double}
use billee_software.Pxx.Can.{make_sync_frame}
use billee_software.Pxx.Transport.{socket_frame}
use billee_software.Pxx.Backend.{Backend, Bus}
use billee_software.Pxx.Backend.Attempts.{taken, all_taken}
use billee_software.Pxx.Backend.Lifecycle.Laws.{
  IsIdle, IsActive, Outcome, activate-Outcome, activate-nodes,
}
use billee_software.Pxx.Backend.Motion.{write}
use billee_software.Pxx.Backend.Motion.Laws.{targets, cycle, write_attempts}
use billee_software.Pxx.System.{socket_can, System, cleared, on_activate, system_write}
use billee_software.Pxx.System.Laws.{Fits, IsShaped}

module _ {D : Type 0} ⦃d : Double D⦄ where
  open d use {nan, is_nan}

  targets_none :
      {C : Type 0} (nan_is_nan : is_nan nan ≡ true) (nodes : List ℕ) (ratios : List D)
      (commands : List C)
      → targets nodes ratios (map (λ _. nan) commands) ≡ []
  targets_none h (node ∷ nodes) (ratio ∷ ratios) (command ∷ commands) =
      rw h (targets_none h nodes ratios commands)
  targets_none h nodes ratios commands = refl

  -- What a `write` of the plugin does to an active socket: only SYNC goes out.
  abbrev pub StaysStill : Bus → List D → System D → Type 0
  StaysStill bus ratios t =
      (b c : Backend) × (ok : Bool) × (t.backend ≡ some (socket_can b ratios))
      × IsActive b
      × (system_write bus t ≡ some (ok, record t { backend = some (socket_can c ratios) }))
      × (c.wire ≡ b.wire ++ taken bus.written b.writes (socket_frame make_sync_frame ∷ []))
      × (ok ≡ all_taken bus.written b.writes (socket_frame make_sync_frame ∷ []))

  -- A write of no commands.
  write_none :
      (nan_is_nan : is_nan nan ≡ true) (bus : Bus) (ratios olds : List D) (c : Backend)
      (t : System D)
      → IsActive c
      → length olds ≡ length c.node_ids
      → t.backend ≡ some (socket_can c ratios)
      → t.hw_commands ≡ map (λ _. nan) olds
      → StaysStill bus ratios t
  unfolding system_write
  write_none h bus ratios olds c t active sized present none_yet =
      let (ok, u) = write bus true ratios t.hw_commands c in
      let (wired, judged) = write_attempts bus true ratios t.hw_commands c active.opened in
      let counted : (length t.hw_commands == length c.node_ids) ≡ true =
        (==_iff _ _).1 (ap length none_yet ∙ length-map olds _ ∙ sized) in
      let sync : targets c.node_ids ratios t.hw_commands ≡ [] =
        ap (targets c.node_ids ratios) none_yet ∙ targets_none h c.node_ids ratios olds in
      let all_sync : cycle ratios t.hw_commands c ≡ socket_frame make_sync_frame ∷ [] =
        rw (counted, sync) in
      (
        c,
        u,
        ok,
        present,
        active,
        ground (arith, present),
        wired ∙ ap (λ fs. c.wire ++ taken bus.written c.writes fs) all_sync,
        judged ∙ ap₂ (λ b c. b && c) counted (ap (all_taken bus.written c.writes) all_sync),
      )

  -- If NaN is not a number, then after a successful activation of an idle socket the next `write`
  -- attempts SYNC alone: no joint gets a target before the controller gives it a command.
  pub on_activate-StaysStill :
      (nan_is_nan : is_nan nan ≡ true) (bus bus' : Bus) (n : ℕ) (ratios : List D) (b : Backend)
      (s t : System D)
      → IsShaped n s
      → s.backend ≡ some (socket_can b ratios)
      → IsIdle b
      → on_activate bus s ≡ some (true, t)
      → StaysStill bus' ratios t
  unfolding on_activate system_write
  on_activate-StaysStill h bus bus' n ratios b s t v present idle e =
      let ((success, c), k, o) = activate-Outcome bus true b idle in
      let same_nodes = activate-nodes bus true b (success, c) k in
      let it : v.backend ≡ socket_can b ratios = ground (arith, present) in
      let fits = (subst (Fits n) it v.fits).0 in
      elim (Bool-cases success) [
        | inr failed ↦ absurd (ground (arith, present, k, failed))
        | inl worked ↦
            let same : t ≡ cleared (socket_can c ratios) s = ground (arith, present, k, worked) in
            write_none h bus' ratios s.hw_commands c t (subst (λ x. Outcome (x, c)) worked o)
              (v.commands ∙ sym fits ∙ sym (ap length same_nodes)) (ap (λ u. u.backend) same)
              (ap (λ u. u.hw_commands) same)
      ]
