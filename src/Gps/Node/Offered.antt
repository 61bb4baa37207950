-- ===== src/Gps/Node/Offered.antt =====
-- What the node holds, and the pairs that it is offered, told from what comes in.
use mathlib.Core.Bool.{true≢false}
use billee_software.Prelude.{
  ℕ, ◌≡◌, refl, sym, ap, subst, ◌∙◌, Bool, true, false, ◌||◌, Option, none, some, List, [], ◌∷◌,
  ◌++◌, ◌==◌, ==_iff, if◌then◌else◌, inl, inr, Bool-cases, arith,
}
use billee_software.Prelude.Int.{ℤ}
use billee_software.Double.{Double}
use billee_software.Gps.Device.{open_device}
use billee_software.Gps.Payload.{PosPayload, CovPayload}
use billee_software.Gps.Node.{
  Gps, Answers, pos_id, cov_id, store, poll_msgs, may_publish, must_forget, minus, publish_pair,
  forget_late, timer_callback,
}
use billee_software.Gps.Node.Received.{received, read_msg_lem, pos_in, cov_in}

-- The messages that wait for their partner, at most one of each kind, with the time of their arrival.
pub record Waiting : Type 0 where
  pub pos : List (PosPayload × ℕ)
  pub cov : List (CovPayload × ℕ)

abbrev pub nothing_waits : Waiting
nothing_waits = record { pos = []; cov = [] }

-- What comes in takes the place of what was there.
abbrev pub newest : {A : Type 0} → List A → ℕ → List (A × ℕ) → List (A × ℕ)
newest [] time old = old
newest (x ∷ xs) time old = (x, time) ∷ []

abbrev pub arrived : Answers → Waiting → Waiting
arrived a w = record {
  pos = newest (pos_in (received a)) a.stored_at w.pos;
  cov = newest (cov_in (received a)) a.stored_at w.cov;
}

-- The position and the covariance that wait, if they are of one time of week.
abbrev pub partners : List (PosPayload × ℕ) → List (CovPayload × ℕ) → List (PosPayload × CovPayload)
partners [] cs = []
partners (p ∷ ps) [] = []
partners (p ∷ ps) (c ∷ cs) = if p.0.i_tow == c.0.i_tow then (p.0, c.0) ∷ [] else []

-- A pair that has been made no longer waits.
abbrev pub unpaired : List (PosPayload × CovPayload) → Waiting → Waiting
unpaired [] w = w
unpaired (p ∷ ps) w = nothing_waits

module _ {D : Type 0} where
  abbrev pub waiting : Gps D → Waiting
  waiting s = record {
    pos = if s.has_pos then (s.pending_pos, s.pos_ts) ∷ [] else [];
    cov = if s.has_cov then (s.pending_cov, s.cov_ts) ∷ [] else [];
  }

module _ {D : Type 0} ⦃d : Double D⦄ where
  store-waiting :
      (time : ℕ) (buffer : List ℕ) (id : Option ℕ) (s : Gps D)
      → waiting (store time buffer id s) ≡ record {
        pos = newest (pos_in (id, buffer)) time (waiting s).pos;
        cov = newest (cov_in (id, buffer)) time (waiting s).cov;
      }
  unfolding store pos_in cov_in
  store-waiting time buffer none s = refl
  store-waiting time buffer (some id) s = elim (Bool-cases (id == pos_id)) [
    | inl p ↦ rw (store, pos_in, cov_in, (==_iff id pos_id).0 p) refl
    | inr p ↦ elim (Bool-cases (id == cov_id)) [
      | inl c ↦ rw (store, pos_in, cov_in, p, c) refl
      | inr c ↦ rw (store, pos_in, cov_in, p, c) refl
    ]
  ]

  pub poll_msgs-waiting :
      (a : Answers) (s : Gps D) → waiting (poll_msgs a s) ≡ arrived a (waiting s)
  unfolding poll_msgs
  poll_msgs-waiting a s =
      let device = (open_device a.opened a.configured s.device).1 in
      subst
        (λ r.
          waiting (store a.stored_at r.2 r.0 (record s { device = r.1 })) ≡ arrived a (waiting s))
        (sym (read_msg_lem a s.device))
        (store-waiting a.stored_at (received a).1 (received a).0 (record s { device = device }))

  pub partners_made :
      (s : Gps D)
      → s.has_pos ≡ true
      → s.has_cov ≡ true
      → (s.pending_pos.i_tow == s.pending_cov.i_tow) ≡ true
      → partners (waiting s).pos (waiting s).cov ≡ (s.pending_pos, s.pending_cov) ∷ []
  partners_made s p c e = rw (p, c, e) refl

  pub partners_none :
      (s : Gps D) → may_publish s ≡ false → partners (waiting s).pos (waiting s).cov ≡ []
  partners_none s h = elim (Bool-cases s.has_pos) [
    | inr p ↦ rw p refl
    | inl p ↦ elim (Bool-cases s.has_cov) [
      | inr c ↦ rw (p, c) refl
      | inl c ↦
          let e : (s.pending_pos.i_tow == s.pending_cov.i_tow) ≡ false = rw (p, c) at h in
          rw (p, c, e) refl
    ]
  ]

  publish_pair-waiting :
      (s : Gps D)
      → waiting (publish_pair s) ≡ unpaired (partners (waiting s).pos (waiting s).cov) (waiting s)
  unfolding publish_pair
  publish_pair-waiting s = elim (Bool-cases (may_publish s)) [
    | inr h ↦ rw (publish_pair, h, partners_none s h) refl
    | inl h ↦ elim (Bool-cases s.has_pos) [
      | inr p ↦ absurd (true≢false (sym (rw p at h)))
      | inl p ↦ elim (Bool-cases s.has_cov) [
        | inr c ↦ absurd (true≢false (sym (rw (p, c) at h)))
        | inl c ↦
            let e : (s.pending_pos.i_tow == s.pending_cov.i_tow) ≡ true = rw (p, c) at h in
            rw (publish_pair, h, partners_made s p c e) refl
      ]
    ]
  ]

  module _ (seconds : ℤ → D) (tol_sec : ℤ) where
    -- A message has waited for more than the tolerance.
    abbrev pub overdue : {A : Type 0} → ℕ → List (A × ℕ) → Bool
    overdue now [] = false
    overdue now (x ∷ xs) = d.lt (d.of_int tol_sec) (seconds (minus now x.1))

    abbrev pub remembered : ℕ → Waiting → Waiting
    remembered now w = if overdue now w.pos || overdue now w.cov then nothing_waits else w

    -- What waits after a callback.
    abbrev pub waits_on : Answers → Waiting → Waiting
    waits_on a w = let v = arrived a w in remembered a.now (unpaired (partners v.pos v.cov) v)

    -- The pairs that a sequence of callbacks is offered: each time, the position and the covariance
    -- that then wait, if they are of one time of week.
    unfoldable pub offered : List Answers → Waiting → List (PosPayload × CovPayload)
    offered [] w = []
    offered (a ∷ answers) w =
        partners (arrived a w).pos (arrived a w).cov ++ offered answers (waits_on a w)

    forget_late-waiting :
        (now : ℕ) (s : Gps D)
        → waiting (forget_late seconds tol_sec now s) ≡ remembered now (waiting s)
    unfolding forget_late
    forget_late-waiting now s = elim (Bool-cases s.has_pos) [
      | inl p ↦ elim (Bool-cases s.has_cov) [
        | inl c ↦ elim (Bool-cases (must_forget seconds tol_sec now s)) [
          | inl h ↦ ground (arith, p, c, h)
          | inr h ↦ ground (arith, p, c, h)
        ]
        | inr c ↦ ground (arith, p, c)
      ]
      | inr p ↦ ground (arith, p)
    ]

    pub callback-waiting :
        (a : Answers) (s : Gps D)
        → waiting (timer_callback seconds tol_sec a s) ≡ waits_on a (waiting s)
    unfolding timer_callback
    callback-waiting a s =
        forget_late-waiting a.now (publish_pair (poll_msgs a s))
        ∙ ap (remembered a.now) (
            publish_pair-waiting (poll_msgs a s)
            ∙ ap (λ v. unpaired (partners v.pos v.cov) v) (poll_msgs-waiting a s))
