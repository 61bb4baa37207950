-- ===== src/Pxx/Backend/Motion/Runs.antt =====
-- A run of the active arm: the receiver's rounds, `read` and `write`, in any order.
use mathlib.Core.Path.{subst₂}
use mathlib.Core.List.{append_assoc, append-nil}
use billee_software.Prelude.{
  ℕ, ◌+◌, ◌≡◌, refl, sym, ap, ◌∙◌, Bool, true, Option, Bool-cases, inl, inr, List, [], ◌∷◌, ◌++◌,
  arith, subst, length, length-append, ◌==◌, if◌then◌else◌,
}
use billee_software.Double.{Double}
use billee_software.Pxx.Can.{Frame, make_sync_frame}
use billee_software.Pxx.Transport.{CanFrame, is_open, socket_frame}
use billee_software.Pxx.Backend.{Backend, Bus, rx_round, set_error, count_mismatch}
use billee_software.Pxx.Backend.Receiver.{rx_round-Untouched}
use billee_software.Pxx.Backend.Attempts.{taken, taken-append}
use billee_software.Pxx.Backend.Motion.{JointState, read, write}
use billee_software.Pxx.Backend.Motion.Laws.{targets, write-Attempts}

pub data Turn (D : Type 0) : Type 0 where
  heard : Option Frame → Turn D
  reading : List (JointState D) → Turn D
  writing : List D → Turn D

module _ {D : Type 0} ⦃d : Double D⦄ (bus : Bus) (sink : Bool) (ratios : List D) where
  abbrev pub take_turn : Turn D → Backend → Backend
  take_turn (heard o) s = rx_round o s
  take_turn (reading states) s = (read sink ratios states s).2
  take_turn (writing commands) s = (write bus sink ratios commands s).1

  abbrev pub take_turns : List (Turn D) → Backend → Backend
  take_turns [] s = s
  take_turns (turn ∷ turns) s = take_turns turns (take_turn turn s)

module _ {D : Type 0} ⦃d : Double D⦄ (ratios : List D) (nodes : List ℕ) where
  -- The frames of one turn: the targets and then SYNC, for a `write` with one command for each node.
  abbrev pub frames_of : Turn D → List CanFrame
  frames_of (heard o) = []
  frames_of (reading states) = []
  frames_of (writing commands) =
      if length commands == length nodes
      then targets nodes ratios commands ++ socket_frame make_sync_frame ∷ []
      else []

  abbrev pub schedule : List (Turn D) → List CanFrame
  schedule [] = []
  schedule (turn ∷ turns) = frames_of turn ++ schedule turns

-- `fs` was attempted, and the socket and the nodes are as before.
pub record Attempted (bus : Bus) (fs : List CanFrame) (s t : Backend) : Type 0 where
  pub counted : t.writes ≡ s.writes + length fs
  pub wired : t.wire ≡ s.wire ++ taken bus.written s.writes fs
  pub same_socket : t.can_transport ≡ s.can_transport
  pub same_nodes : t.node_ids ≡ s.node_ids

nothing-Attempted :
    (bus : Bus) (s t : Backend)
    → t.writes ≡ s.writes
    → t.wire ≡ s.wire
    → t.can_transport ≡ s.can_transport
    → t.node_ids ≡ s.node_ids
    → Attempted bus [] s t
nothing-Attempted bus s t a b c e = record {
  counted = omega (arith, a);
  wired = b ∙ sym (append-nil s.wire);
  same_socket = c;
  same_nodes = e;
}

Attempted-trans :
    (bus : Bus) (fs gs : List CanFrame) (s t u : Backend)
    → Attempted bus fs s t
    → Attempted bus gs t u
    → Attempted bus (fs ++ gs) s u
Attempted-trans bus fs gs s t u p q =
    let (split, _) = taken-append bus.written s.writes fs gs in
    record {
      counted = omega (arith, p.counted, q.counted, length-append fs gs);
      wired =
          q.wired
          ∙ ap (λ k. t.wire ++ taken bus.written k gs) p.counted
          ∙ ap (λ x. x ++ taken bus.written (s.writes + length fs) gs) p.wired
          ∙ append_assoc s.wire (taken bus.written s.writes fs) _
          ∙ ap (λ x. s.wire ++ x) (sym split);
      same_socket = q.same_socket ∙ p.same_socket;
      same_nodes = q.same_nodes ∙ p.same_nodes;
    }

module _ {D : Type 0} ⦃d : Double D⦄ (bus : Bus) (sink : Bool) (ratios : List D) where
  take_turn-Attempted :
      (turn : Turn D) (s : Backend)
      → is_open s.can_transport ≡ true
      → Attempted bus (frames_of ratios s.node_ids turn) s (take_turn bus sink ratios turn s)
  unfolding read write
  take_turn-Attempted (heard o) s h =
      let kept = rx_round-Untouched o s in
      nothing-Attempted bus s _ kept.same_writes kept.same_wire kept.same_transport kept.same_nodes
  take_turn-Attempted (reading states) s h =
      nothing-Attempted bus s _ (ground arith) (ground arith) (ground arith) (ground arith)
  take_turn-Attempted (writing commands) s h =
      elim (Bool-cases (length commands == length s.node_ids)) [
        | inl e ↦
            let a = write-Attempts bus sink ratios commands s h e in
            record {
              counted = a.counted;
              wired = a.wired;
              same_socket = a.same_socket;
              same_nodes = a.same_nodes;
            }
        | inr e ↦
            let refused = set_error sink count_mismatch s in
            let same : (write bus sink ratios commands s).1 ≡ refused = ground (arith, h, e) in
            let quiet : frames_of ratios s.node_ids (writing commands) ≡ [] = rw e refl in
            subst₂ (λ fs t. Attempted bus fs s t) (sym quiet) (sym same)
              (nothing-Attempted bus s refused (ground arith) (ground arith) (ground arith)
                (ground arith))
      ]

  -- From a state with an open socket on, in any order of the receiver's rounds, reads and writes, the
  -- wire grows by the frames of the writes alone, in their order: for each write with one command
  -- for each node the targets of the joints that have a command, and then SYNC, as far as the kernel
  -- takes them. The socket stays open.
  pub take_turns-schedule :
      (turns : List (Turn D)) (s : Backend)
      → is_open s.can_transport ≡ true
      → let t = take_turns bus sink ratios turns s in
        (t.wire ≡ s.wire ++ taken bus.written s.writes (schedule ratios s.node_ids turns))
        × (is_open t.can_transport ≡ true)
  take_turns-schedule turns s h =
      let a = all_attempted turns s h in (a.wired, ap is_open a.same_socket ∙ h)
    where
      all_attempted :
          (turns : List (Turn D)) (s : Backend)
          → is_open s.can_transport ≡ true
          → Attempted bus (schedule ratios s.node_ids turns) s (take_turns bus sink ratios turns s)
      all_attempted [] s h = nothing-Attempted bus s s refl refl refl refl
      all_attempted (turn ∷ turns) s h =
          let t = take_turn bus sink ratios turn s in
          let p = take_turn-Attempted turn s h in
          let q = all_attempted turns t (ap is_open p.same_socket ∙ h) in
          Attempted-trans bus (frames_of ratios s.node_ids turn) (schedule ratios s.node_ids turns)
            s t (take_turns bus sink ratios turns t) p
            (subst
              (λ ns.
                Attempted bus (schedule ratios ns turns) t (take_turns bus sink ratios turns t))
              p.same_nodes q)
