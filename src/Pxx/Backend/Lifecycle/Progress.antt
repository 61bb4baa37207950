-- ===== src/Pxx/Backend/Lifecycle/Progress.antt =====
-- `activate` of `SocketCanMotorBackend` on a bus where every drive answers.
use billee_software.Prelude.{
  ℕ, ◌+◌, ◌*◌, ◌≤◌, ◌≡◌, All, refl, ap, subst, ◌∙◌, Bool, true, none, some, List, [], ◌∷◌, arith,
  length,
}
use billee_software.Pxx.Transport.{open_on}
use billee_software.Pxx.Backend.{Backend, Bus, empty_feedback}
use billee_software.Pxx.Backend.Serving.{IsReady}
use billee_software.Pxx.Backend.Configure.{configure_node}
use billee_software.Pxx.Backend.Configure.Progress.{Cooperates, configure_node-Returns}
use billee_software.Pxx.Backend.Lifecycle.{configure_all, activate}
use billee_software.Pxx.Backend.Lifecycle.Laws.{
  IsIdle, IsActive, Outcome, configure_all-Outcome, open_on-is_open,
}

-- The drives cooperate one after the other, from the wait `n` on.
abbrev pub CooperateAll : Bus → ℕ → List ℕ → Type 0
CooperateAll bus n [] = Unit {0}
CooperateAll bus n (node ∷ nodes) = Cooperates bus n node × CooperateAll bus (n + 27) nodes

module _ (bus : Bus) (sink : Bool) (all_written : (k : ℕ) → bus.written k ≡ true) where
  configure_all-done :
      (nodes : List ℕ) (n : ℕ) (s : Backend)
      → IsReady n s
      → All (λ node. node ≤ 127) nodes
      → CooperateAll bus n nodes
      → let (ok, t) = configure_all bus sink nodes s in
        (ok ≡ true) × (t.waits ≡ n + 27 * length nodes)
  unfolding configure_all
  configure_all-done [] n s h small drives = (refl, omega (arith, h.counted))
  configure_all-done (node ∷ nodes) n s h (hn, small) (drive, drives) =
      let first = configure_node-Returns bus sink all_written n node hn drive s h in
      let t = (configure_node bus sink node s).1 in
      let (ok, waits) = configure_all-done nodes (n + 27) t first.ready small drives in
      rw (first.value, configure_all) (ok, waits ∙ omega arith)

  -- If the socket can be opened and takes every frame, every node number is at
  -- most 127, and every drive serves its requests, then
  -- `activate` of an idle backend succeeds, after 27 transactions for each drive.
  pub activate_succeeds :
      (s : Backend)
      → IsIdle s
      → (open_on bus.opened s.can_transport).0 ≡ none
      → All (λ node. node ≤ 127) s.node_ids
      → CooperateAll bus s.waits s.node_ids
      → (t : Backend) × (activate bus sink s ≡ some (true, t))
        × IsActive t
        × (t.waits ≡ s.waits + 27 * length s.node_ids)
  unfolding activate
  activate_succeeds s i opens small drives =
      let started = record s {
        can_transport = (open_on bus.opened s.can_transport).1;
        feedback = empty_feedback;
        rx_running = true;
        rx_joinable = true;
      } in
      let state = open_on-is_open bus.opened s.can_transport in
      let open_now = rw opens at state in
      let (ok, waits) =
        configure_all-done s.node_ids s.waits started
          (record { opened = open_now; running = refl; counted = refl }) small drives in
      let t = (configure_all bus sink s.node_ids started).1 in
      let outcome =
        configure_all-Outcome bus sink s.node_ids started
          (record { opened = open_now; running = refl; joinable = refl; sized = refl }) in
      (
        t,
        rw (opens, activate, i.joined) (ap (λ b. some (b, t)) ok),
        subst (λ b. Outcome (b, t)) ok outcome,
        waits,
      )
