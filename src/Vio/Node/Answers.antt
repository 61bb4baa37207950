-- ===== src/Vio/Node/Answers.antt =====
-- What the node's callbacks do to its log.
use mathlib.Core.List.{map-append}
use mathlib.Core.Option.{some-injective, none-ne-some}
use billee_software.Prelude.{
  sym, ap, ◌∙◌, true, ◌⊎◌, ℕ, ◌≡◌, refl, subst, Bool, true, false, inl, inr, Option, none, some,
  Option-cases, List, [], ◌∷◌, ◌==◌, ◌++◌, if◌then◌else◌,
}
use billee_software.Prelude.Int.{ℤ, pos}
use billee_software.Double.{Double, zero_d}
use billee_software.Vio.Random.{Random}
use billee_software.Vio.Model.{NoiseModel}
use billee_software.Vio.Step.{get, Step, pure, ◌>>=◌}
use billee_software.Vio.Step.Laws.{After, After-weaken, After-then_run}
use billee_software.Vio.State.{
  VioNode, Odometry, Event, sensed, tick, publish_due_messages, enqueue,
}
use billee_software.Vio.Node.{
  start_at, draw_fault, measure, deliver, respond, truth_callback, handle, run,
}
use billee_software.Vio.Node.Quiet.{
  IsSame, IsQuiet, modify-IsQuiet, measure-IsDrawing, advance-IsQuiet, start_at-IsSteady,
}
use billee_software.Vio.Node.Log.{
  stamps, drawn, judged, survivors, Accepts, Adds, Adds-same, Adds-trans, publish-Adds,
  enqueue-Adds,
}
use billee_software.Vio.Node.Prompt.{IsPrompt, IsPrompt-trans, publish-IsPrompt, enqueue-IsPrompt}
use billee_software.Vio.Node.Ends.{Hangs, run_ends}

module _ {D G N U : Type 0} ⦃d : Double D⦄ (random : Random D G N U) (seconds : ℤ → D)
    (fuel : ℕ) where
  -- A change of the node: messages come in, for what was kept of an event, and the engine of the
  -- faults is the given one.
  abbrev Answered : List (Odometry D) × G → VioNode D G → VioNode D G → Type 0
  Answered r s t =
      (new : List (Odometry D)) × (stamps new ≡ stamps r.0)
      × (t.fault_rng ≡ r.1)
      × Adds new s t
      × IsPrompt s t

  Answered-after :
      (r : List (Odometry D) × G) (s t u : VioNode D G)
      → IsSame s t
      → Answered r t u
      → Answered r s u
  Answered-after r s t u same (new, h, e, adds, prompt) = (
    new,
    h,
    e,
    Adds-trans s t u (Adds-same s t same) adds,
    IsPrompt-trans s t u same.2 (λ _ idle. same.0 ∙ idle) prompt,
  )

  module _ (m : NoiseModel D) where
    -- From the engine `h` on.
    record DoesAnswer {A : Type 0} (r : List (Odometry D) × G) (h : G) (n : Step (VioNode D G) A)
        : Type 0 where
      pub after :
          (s : VioNode D G) → s.model ≡ m → s.fault_rng ≡ h → After (λ _ t. Answered r s t) (n s)

    DoesAnswer-bind :
        {A B : Type 0} {R : A → Type 0} {r : List (Odometry D) × G} {h : G}
        {n : Step (VioNode D G) A} {f : A → Step (VioNode D G) B}
        → IsQuiet R n
        → ((a : A) → R a → DoesAnswer r h (f a))
        → DoesAnswer r h (n >>= f)
    unfolding ◌>>=◌
    DoesAnswer-bind {r = r} {n = n} {f = f} quiet next = record {
      after = λ s e k. After-then_run _ _ (n s) f (quiet.after s) (λ a t ((same, kept), q).
          After-weaken _ _ (f a t) (λ b u answer. Answered-after r s t u same answer)
            ((next a q).after t (same.2 ∙ e) (kept ∙ k)));
    }

    -- What is read is the state.
    DoesAnswer-get :
        {B : Type 0} {r : List (Odometry D) × G} {h : G} {f : VioNode D G → Step (VioNode D G) B}
        → ((u : VioNode D G) → u.model ≡ m → DoesAnswer r h (f u))
        → DoesAnswer r h (get >>= f)
    unfolding ◌>>=◌
    DoesAnswer-get next = record { after = λ s e k. (next s e).after s e k }

    DoesAnswer-draw :
        {B : Type 0} {r : List (Odometry D) × G} {h : G} (f : D × U → Step (VioNode D G) B) (u : U)
        → (let (value, u', g) = random.draw_uniform u h in DoesAnswer r g (f (value, u')))
        → DoesAnswer r h (draw_fault random seconds fuel u >>= f)
    unfolding ◌>>=◌
    DoesAnswer-draw {r = r} f u next = record {
      after = λ s e k.
          let (value, u', g) = random.draw_uniform u s.fault_rng in
          let t = record s { fault_rng = g } in
          let here =
            subst
              (λ x.
                DoesAnswer r (random.draw_uniform u x).2
                  (f ((random.draw_uniform u x).0, (random.draw_uniform u x).1)))
              (sym k) next in
          After-weaken _ _ (f (value, u') t)
            (λ b v answer. Answered-after r s t v (refl, refl, refl) answer) (here.after t e refl);
    }

    pure-DoesAnswer : (h : G) → DoesAnswer ([], h) h (pure {S = VioNode D G} tt)
    pure-DoesAnswer h = record {
      after = λ s e k. ([], refl, k, Adds-same s s (refl, refl, refl), λ _ idle. idle);
    }

    queued :
        (truth vio : Odometry D) (g : G) (s : VioNode D G)
        → vio.stamp ≡ truth.stamp
        → s.fault_rng ≡ g
        → Answered (truth ∷ [], g) s (publish_due_messages truth.stamp (enqueue vio s))
    unfolding enqueue publish_due_messages
    queued truth vio g s e k = (
      vio ∷ [],
      ap (λ x. x ∷ []) e,
      k,
      Adds-trans s _ _ (enqueue-Adds vio s) (publish-Adds truth.stamp (enqueue vio s)),
      enqueue-IsPrompt truth.stamp vio s e,
    )

    deliver-DoesAnswer :
        (truth : Odometry D) (u : U) (h : G)
        → DoesAnswer
            (truth ∷ [], (random.draw_uniform u h).2)
            h
            (deliver random seconds fuel truth u)
    unfolding deliver ◌>>=◌
    deliver-DoesAnswer truth u h = record {
      after = λ s e k.
          After-then_run _ _ (measure random seconds fuel truth u s) _
            ((measure-IsDrawing random seconds fuel truth u).after s)
            (λ vio t (same, drew, stamped).
              Answered-after (truth ∷ [], (random.draw_uniform u h).2) s t _ same
                (queued truth vio (random.draw_uniform u h).2 t stamped
                  (drew ∙ ap (λ g. (random.draw_uniform u g).2) k)));
    }

    drop_or_deliver :
        (drop : Bool) (truth : Odometry D) (u : U) (h : G)
        → DoesAnswer
            (if drop then ([], h) else (truth ∷ [], (random.draw_uniform u h).2))
            h
            (if drop then pure tt else deliver random seconds fuel truth u)
    drop_or_deliver true truth u h = pure-DoesAnswer h
    drop_or_deliver false truth u h = deliver-DoesAnswer truth u h

    respond-DoesAnswer :
        (truth : Odometry D) (h : G)
        → DoesAnswer
            (drawn random m truth
              (random.draw_uniform (random.uniform zero_d (d.decimal (pos 1) 0)) h))
            h
            (respond random seconds fuel truth)
    unfolding respond
    respond-DoesAnswer truth h =
        DoesAnswer-bind
          (modify-IsQuiet (start_at random seconds fuel truth)
            (start_at-IsSteady random seconds fuel truth))
          (λ _ _. DoesAnswer-bind (advance-IsQuiet random seconds fuel truth.stamp) (λ _ _.
            DoesAnswer-get (λ s k. DoesAnswer-draw _ (random.uniform zero_d (d.decimal (pos 1) 0)) (
              let (chance, u, g) =
                random.draw_uniform (random.uniform zero_d (d.decimal (pos 1) 0)) h in
              subst
                (λ (n : NoiseModel D). DoesAnswer (drawn random m truth (chance, u, g)) g (
                  if d.lt chance n.dropout_probability
                  then pure tt
                  else deliver random seconds fuel truth u))
                (sym k) (drop_or_deliver (d.lt chance m.dropout_probability) truth u g)))))

    ignore_or_respond :
        (unstamped : Bool) (truth : Odometry D) (h : G)
        → DoesAnswer
            (if unstamped
              then ([], h)
              else drawn random m truth
                  (random.draw_uniform (random.uniform zero_d (d.decimal (pos 1) 0)) h))
            h
            (if unstamped then pure tt else respond random seconds fuel truth)
    ignore_or_respond true truth h = pure-DoesAnswer h
    ignore_or_respond false truth h = respond-DoesAnswer truth h

    callback-DoesAnswer :
        (truth : Odometry D) (h : G)
        → DoesAnswer (judged random m h (sensed truth)) h (truth_callback random seconds fuel truth)
    unfolding truth_callback
    callback-DoesAnswer truth h = ignore_or_respond (truth.stamp == 0) truth h

  handle-Answered :
      (event : Event D) (s t : VioNode D G)
      → handle random seconds fuel event s ≡ some t
      → Answered (judged random s.model s.fault_rng event) s t
  unfolding handle publish_due_messages
  handle-Answered (sensed truth) s t e =
      by_result (truth_callback random seconds fuel truth s)
        ((callback-DoesAnswer s.model truth s.fault_rng).after s refl refl) e
    where
      by_result :
          (o : Option (Unit {0} × VioNode D G))
          → After (λ _ t. Answered (judged random s.model s.fault_rng (sensed truth)) s t) o
          → elim o [ none ↦ none | some (_, t) ↦ some t ] ≡ some t
          → Answered (judged random s.model s.fault_rng (sensed truth)) s t
      by_result none h q = absurd (none-ne-some _ q)
      by_result (some (_, u)) h q =
          subst (λ v. Answered (judged random s.model s.fault_rng (sensed truth)) s v)
            (some-injective _ _ q) h
  handle-Answered (tick time) s t e =
      subst (λ v. Answered ([], s.fault_rng) s v) (some-injective _ _ e)
        ([], refl, refl, publish-Adds time s, publish-IsPrompt time s)

  stamps-append :
      (a b x y : List (Odometry D))
      → stamps a ≡ stamps x
      → stamps b ≡ stamps y
      → stamps (a ++ b) ≡ stamps (x ++ y)
  stamps-append a b x y h k = rw (
    map-append (λ (o : Odometry D). o.stamp) a b,
    map-append (λ (o : Odometry D). o.stamp) x y,
    h,
    k,
  )

  pub run-Adds :
      (events : List (Event D)) (s t : VioNode D G)
      → run random seconds fuel events s ≡ some t
      → (new : List (Odometry D)) × Accepts random s.model s.fault_rng events new
        × Adds new s t
        × IsPrompt s t
  unfolding run survivors
  run-Adds [] s t e =
      subst
        (λ u.
          (new : List (Odometry D)) × Accepts random s.model s.fault_rng [] new
          × Adds new s u
          × IsPrompt s u)
        (some-injective _ _ e) ([], refl, Adds-same s s (refl, refl, refl), λ _ idle. idle)
  run-Adds (event ∷ events) s t e = elim (Option-cases (handle random seconds fuel event s)) [
    | inl h ↦ absurd (none-ne-some t (rw (run, h) at e))
    | inr (u, h) ↦
        let (new, accept, drew, adds, prompt) = handle-Answered event s u h in
        let (more, accept', adds', prompt') = run-Adds events u t (rw (run, h) at e) in
        (
          new ++ more,
          stamps-append new more _ _ accept (
              subst (λ g. Accepts random s.model g events more) drew
                (subst (λ m. Accepts random m u.fault_rng events more) adds.kept accept')),
          Adds-trans s u t adds adds',
          IsPrompt-trans s u t adds.kept prompt prompt',
        )
  ]

  -- Whatever happens, in whatever order: either the run does not end, and then `wrap_angle` hangs at
  -- some angle; or it ends, and the messages that are then published or wait are the old ones and after
  -- them one for each of the true poses that came, in the order in which they came and with their
  -- stamps, but for those without a stamp and those whose own draw fell below the probability of a
  -- dropout. If
  -- each waiting message had the release time that its stamp and the latency give, so it has then.
  pub run-Accepts :
      (events : List (Event D)) (s : VioNode D G)
      → ((t : VioNode D G) × (run random seconds fuel events s ≡ some t)
          × ((new : List (Odometry D)) × Accepts random s.model s.fault_rng events new
              × Adds new s t))
        ⊎ ((run random seconds fuel events s ≡ none) × Hangs random seconds fuel)
  run-Accepts events s = elim (Option-cases (run random seconds fuel events s)) [
    | inr (t, e) ↦
        let (new, accept, adds, _) = run-Adds events s t e in inl (t, e, (new, accept, adds))
    | inl h ↦ elim (run_ends random seconds fuel events s) [
      | inl (t, e) ↦ absurd (none-ne-some t (sym h ∙ e))
      | inr stuck ↦ inr (h, stuck)
    ]
  ]
