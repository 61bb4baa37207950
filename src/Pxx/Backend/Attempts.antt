-- ===== src/Pxx/Backend/Attempts.antt =====
-- Operations that go on after a failed send (`success &= send_frame(...)`): every frame is attempted,
-- the ones that the kernel takes are on the wire, and the result says whether it took them all.
use mathlib.Core.List.{append_assoc, append-nil}
use billee_software.Prelude.{
  ℕ, suc, ◌+◌, ◌≤◌, ◌≡◌, refl, sym, ap, ◌∙◌, Bool, true, ◌&&◌, List, [], ◌∷◌, ◌++◌, arith, length,
  length-append, if◌then◌else◌,
}
use billee_software.Pxx.Can.{Frame}
use billee_software.Pxx.Transport.{CanFrame, is_open, send, socket_frame}
use billee_software.Pxx.Backend.{Backend, Bus, send_frame, is_done}

-- The frames that the kernel takes, from its `n`-th answer on.
abbrev pub taken : (ℕ → Bool) → ℕ → List CanFrame → List CanFrame
taken w n [] = []
taken w n (f ∷ fs) = if w n then f ∷ taken w (suc n) fs else taken w (suc n) fs

abbrev pub all_taken : (ℕ → Bool) → ℕ → List CanFrame → Bool
all_taken w n [] = true
all_taken w n (f ∷ fs) = w n && all_taken w (suc n) fs

pub taken-append :
    (w : ℕ → Bool) (n : ℕ) (fs gs : List CanFrame)
    → (taken w n (fs ++ gs) ≡ taken w n fs ++ taken w (n + length fs) gs)
      × (all_taken w n (fs ++ gs) ≡ (all_taken w n fs && all_taken w (n + length fs) gs))
taken-append w n [] gs =
    let same : n ≡ n + 0 = omega arith in
    (ap (λ k. taken w k gs) same, ap (λ k. all_taken w k gs) same)
taken-append w n (f ∷ fs) gs =
    let same : suc n + length fs ≡ n + suc (length fs) = omega arith in
    let (p, q) = taken-append w (suc n) fs gs in
    let p' = p ∙ ap (λ k. taken w (suc n) fs ++ taken w k gs) same in
    let q' = q ∙ ap (λ k. all_taken w (suc n) fs && all_taken w k gs) same in ground (arith, p', q')

pub record Attempts (w : ℕ → Bool) (fs : List CanFrame) (s : Backend) (ok : Bool) (t : Backend)
    : Type 0 where
  pub counted : t.writes ≡ s.writes + length fs
  pub wired : t.wire ≡ s.wire ++ taken w s.writes fs
  pub judged : ok ≡ all_taken w s.writes fs
  pub same_socket : t.can_transport ≡ s.can_transport
  pub same_feedback : t.feedback ≡ s.feedback
  pub same_nodes : t.node_ids ≡ s.node_ids

pub none-Attempts : (w : ℕ → Bool) (s : Backend) → Attempts w [] s true s
none-Attempts w s = record {
  counted = omega arith;
  wired = sym (append-nil s.wire);
  judged = refl;
  same_socket = refl;
  same_feedback = refl;
  same_nodes = refl;
}

pub append-Attempts :
    (w : ℕ → Bool) (fs gs : List CanFrame) (s t u : Backend) (ok ok' : Bool)
    → Attempts w fs s ok t
    → Attempts w gs t ok' u
    → Attempts w (fs ++ gs) s (ok && ok') u
append-Attempts w fs gs s t u ok ok' p q =
    let (taken_split, judged_split) = taken-append w s.writes fs gs in
    record {
      counted = omega (arith, p.counted, q.counted, length-append fs gs);
      wired =
          q.wired
          ∙ ap (λ k. t.wire ++ taken w k gs) p.counted
          ∙ ap (λ x. x ++ taken w (s.writes + length fs) gs) p.wired
          ∙ append_assoc s.wire (taken w s.writes fs) (taken w (s.writes + length fs) gs)
          ∙ ap (λ x. s.wire ++ x) (sym taken_split);
      judged =
          ap (λ b. b && ok') p.judged
          ∙ ap (λ b. all_taken w s.writes fs && b) (q.judged ∙ ap (λ k. all_taken w k gs) p.counted)
          ∙ sym judged_split;
      same_socket = q.same_socket ∙ p.same_socket;
      same_feedback = q.same_feedback ∙ p.same_feedback;
      same_nodes = q.same_nodes ∙ p.same_nodes;
    }

pub send_frame-Attempts :
    (bus : Bus) (sink : Bool) (f : Frame) (s : Backend)
    → is_open s.can_transport ≡ true
    → f.data_length ≤ 8
    → let (r, t) = send_frame bus sink f s in
      Attempts bus.written (socket_frame f ∷ []) s (is_done r) t
unfolding send_frame send
send_frame-Attempts bus sink f s o h = ground (arith, append-nil s.wire)
