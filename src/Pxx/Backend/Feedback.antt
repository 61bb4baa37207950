-- ===== src/Pxx/Backend/Feedback.antt =====
-- What the receiver makes of the frames that it takes: `rx_loop`, node by node.
use billee_software.Prelude.{
  ℕ, ◌<◌, ◌≡◌, refl, ap, ◌∙◌, true, Option, none, some, Option-cases, inl, inr, List, [], ◌∷◌,
  arith, length, set, get_or, get_or-set, ◌==◌, if◌then◌else◌, subst, sym, Bool-cases, ==_iff,
}
use billee_software.Pxx.Can.{Frame}
use billee_software.Pxx.Can.Parse.{
  MotionFeedback, StatusFeedback, Emergency, parse_motion_feedback, parse_status_feedback,
  parse_emergency,
}
use billee_software.Pxx.Can.Dispatch.{Clash, parsers_exclusive, parsed_node_bounds, Holds}
use billee_software.Pxx.Backend.{Backend, MotorFeedback, no_feedback, store, rx_round, rx_loop}
use billee_software.Pxx.Backend.Receiver.{rx_round-Untouched}

-- What a node's feedback learns from a message, if it is the node's.
abbrev pub with_motion : ℕ → Option MotionFeedback → MotorFeedback → MotorFeedback
with_motion k none old = old
with_motion k (some m) old =
    if k == m.node_id
    then record old { position_counts = m.position_counts; velocity_raw = m.velocity_raw }
    else old

abbrev pub with_status : ℕ → Option StatusFeedback → MotorFeedback → MotorFeedback
with_status k none old = old
with_status k (some m) old =
    if k == m.node_id then record old { status_word = m.status_word } else old

abbrev pub with_emergency : ℕ → Option Emergency → MotorFeedback → MotorFeedback
with_emergency k none old = old
with_emergency k (some m) old =
    if k == m.node_id then record old { error_code = m.error_code } else old

-- One node's feedback after the frames: each message that a parser finds, in whatever order the
-- parsers are asked.
abbrev pub learned : ℕ → List (Option Frame) → MotorFeedback → MotorFeedback
learned k [] old = old
learned k (none ∷ os) old = learned k os old
learned k (some f ∷ os) old =
    let new =
      with_emergency k (parse_emergency f)
        (with_status k (parse_status_feedback f) (with_motion k (parse_motion_feedback f) old)) in
    learned k os new

-- An entry that is changed in its place.
updated :
    (xs : List MotorFeedback) (i k : ℕ) (change : MotorFeedback → MotorFeedback)
    → i < length xs
    → get_or (set xs i (change (get_or xs i no_feedback))) k no_feedback
      ≡ (if k == i then change (get_or xs k no_feedback) else get_or xs k no_feedback)
updated xs i k change h = elim (Bool-cases (k == i)) [
  | inl e ↦
      let same : i ≡ k = sym ((==_iff k i).0 e) in
      get_or-set xs i k _ no_feedback h ∙ rw e (ap (λ j. change (get_or xs j no_feedback)) same)
  | inr e ↦ get_or-set xs i k _ no_feedback h ∙ rw e refl
]

-- Of two parsers that clash, the other one finds nothing.
other_none :
    {A B : Type 0} (a : Option A) (b : Option B) (x : A) → Clash a b → a ≡ some x → b ≡ none
other_none a b x (inl n) e = cc (n, e)
other_none a b x (inr n) e = n

store-learned :
    (f : Frame) (s : Backend) (k : ℕ)
    → length s.feedback ≡ 128
    → get_or (store f s).feedback k no_feedback
      ≡ learned k (some f ∷ []) (get_or s.feedback k no_feedback)
unfolding store
store-learned f s k h =
    let (no_status, no_emergency, _, neither, _, _) = parsers_exclusive f in
    let (motion, status, emergency, _) = parsed_node_bounds f in
    elim (Option-cases (parse_motion_feedback f)) [
      | inr (m, e) ↦
          rw (e, other_none _ _ m no_status e, other_none _ _ m no_emergency e, store)
            (updated s.feedback m.node_id k
              (λ old. record old {
                position_counts = m.position_counts;
                velocity_raw = m.velocity_raw;
              })
              (omega (arith, h, subst (Holds _) e motion)))
      | inl e ↦ elim (Option-cases (parse_status_feedback f)) [
        | inr (m, g) ↦
            rw (e, g, other_none _ _ m neither g, store)
              (updated s.feedback m.node_id k (λ old. record old { status_word = m.status_word })
                (omega (arith, h, subst (Holds _) g status)))
        | inl g ↦ elim (Option-cases (parse_emergency f)) [
          | inr (m, c) ↦
              rw (e, g, c, store)
                (updated s.feedback m.node_id k (λ old. record old { error_code = m.error_code })
                  (omega (arith, h, subst (Holds _) c emergency)))
          | inl c ↦ rw (e, g, c, store) (ground arith)
        ]
      ]
    ]

-- While the receiver runs, with an entry for each of 128 nodes, the entry of every node is, after any
-- frames, what it was, changed by the messages of that node alone: the last position and velocity,
-- the last status and the last error code that it sent.
pub rx_loop-learned :
    (os : List (Option Frame)) (s : Backend) (k : ℕ)
    → s.rx_running ≡ true
    → length s.feedback ≡ 128
    → get_or (rx_loop os s).feedback k no_feedback ≡ learned k os (get_or s.feedback k no_feedback)
unfolding rx_loop rx_round
rx_loop-learned [] s k on h = refl
rx_loop-learned (none ∷ os) s k on h = rx_loop-learned os s k on h
rx_loop-learned (some f ∷ os) s k on h =
    let kept = rx_round-Untouched (some f) s in
    let stored : rx_round (some f) s ≡ store f s = ground (arith, on) in
    let one = ap (λ t. get_or t.feedback k no_feedback) stored ∙ store-learned f s k h in
    rx_loop-learned os (rx_round (some f) s) k (kept.same_running ∙ on) (kept.same_size ∙ h)
    ∙ ap (learned k os) one
