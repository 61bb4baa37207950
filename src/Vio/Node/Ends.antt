-- ===== src/Vio/Node/Ends.antt =====
-- When a callback ends.
use billee_software.Prelude.{
  ℕ, ◌≡◌, refl, ap, ◌∙◌, Bool, true, false, ◌⊎◌, inl, inr, none, some, Option-cases, List, [], ◌∷◌,
  ◌==◌, if◌then◌else◌,
}
use billee_software.Prelude.Int.{ℤ}
use billee_software.Double.{Double}
use billee_software.Vio.Geometry.{wrap_angle}
use billee_software.Vio.Random.{Random}
use billee_software.Vio.Step.{Step, pure, then_run, ◌>>=◌, get, modify, lift}
use billee_software.Vio.State.{VioNode, Odometry, Event, sensed, tick, publish_due_messages}
use billee_software.Vio.Node.{
  white_noise, drift_noise, wrapped, start_at, walk, advance, make_measurement, displace,
  draw_fault, measure, deliver, respond, truth_callback, handle, run,
}

module _ {D G N U : Type 0} ⦃d : Double D⦄ (random : Random D G N U) (seconds : ℤ → D)
    (fuel : ℕ) where
  -- An angle at which the fuel is not enough.
  abbrev pub Hangs : Type 0
  Hangs = (x : D) × (wrap_angle fuel x ≡ none)

  record DoesEnd {A : Type 0} (m : Step (VioNode D G) A) : Type 0 where
    pub ended : (s : VioNode D G) → ((r : A × VioNode D G) × (m s ≡ some r)) ⊎ Hangs

  DoesEnd-bind :
      {A B : Type 0} {m : Step (VioNode D G) A} {f : A → Step (VioNode D G) B}
      → DoesEnd m
      → ((a : A) → DoesEnd (f a))
      → DoesEnd (m >>= f)
  unfolding ◌>>=◌
  DoesEnd-bind {m = m} {f = f} h next = record {
    ended = λ s. elim (h.ended s) [
      | inr stuck ↦ inr stuck
      | inl ((a, t), e) ↦ elim ((next a).ended t) [
        | inr stuck ↦ inr stuck
        | inl (r, e') ↦ inl (r, ap (λ o. then_run o f) e ∙ e')
      ]
    ];
  }

  get-DoesEnd : DoesEnd {A = VioNode D G} get
  get-DoesEnd = record { ended = λ s. inl ((s, s), refl) }

  pure-DoesEnd : {A : Type 0} (a : A) → DoesEnd (pure a)
  pure-DoesEnd a = record { ended = λ s. inl ((a, s), refl) }

  modify-DoesEnd : (f : VioNode D G → VioNode D G) → DoesEnd (modify f)
  modify-DoesEnd f = record { ended = λ s. inl ((tt, f s), refl) }

  wrapped-DoesEnd : (x : D) → DoesEnd (wrapped random seconds fuel x)
  wrapped-DoesEnd x = record {
    ended = λ s. elim (Option-cases (wrap_angle fuel x)) [
      | inl h ↦ inr (x, h)
      | inr (y, h) ↦ inl ((y, s), ap (λ o. lift o s) h)
    ];
  }

  white_noise-DoesEnd : (deviation : D) → DoesEnd (white_noise random seconds fuel deviation)
  unfolding white_noise
  white_noise-DoesEnd deviation = record { ended = λ s. inl (_, refl) }

  drift_noise-DoesEnd : (deviation : D) → DoesEnd (drift_noise random seconds fuel deviation)
  unfolding drift_noise
  drift_noise-DoesEnd deviation = record { ended = λ s. inl (_, refl) }

  draw_fault-DoesEnd : (u : U) → DoesEnd (draw_fault random seconds fuel u)
  draw_fault-DoesEnd u = record { ended = λ s. inl (_, refl) }

  DoesEnd-if :
      {A : Type 0} (b : Bool) {m k : Step (VioNode D G) A}
      → DoesEnd m
      → DoesEnd k
      → DoesEnd (if b then m else k)
  DoesEnd-if true hm hk = hm
  DoesEnd-if false hm hk = hk

  make_measurement-DoesEnd :
      (truth : Odometry D) → DoesEnd (make_measurement random seconds fuel truth)
  unfolding make_measurement
  make_measurement-DoesEnd truth = DoesEnd-bind get-DoesEnd (λ s.
      DoesEnd-bind (wrapped-DoesEnd _) (λ relative_yaw.
        DoesEnd-bind (white_noise-DoesEnd _) (λ yaw_noise. DoesEnd-bind (wrapped-DoesEnd _) (λ yaw.
          DoesEnd-bind (white_noise-DoesEnd _)
            (λ x. DoesEnd-bind (white_noise-DoesEnd _) (λ y. pure-DoesEnd _))))))

  displace-DoesEnd : (vio : Odometry D) → DoesEnd (displace random seconds fuel vio)
  unfolding displace
  displace-DoesEnd vio = DoesEnd-bind get-DoesEnd (λ s. DoesEnd-bind (white_noise-DoesEnd _) (λ x.
      DoesEnd-bind (white_noise-DoesEnd _) (λ y.
        DoesEnd-bind (white_noise-DoesEnd _)
          (λ turn. DoesEnd-bind (wrapped-DoesEnd _) (λ yaw. pure-DoesEnd _)))))

  measure-DoesEnd : (truth : Odometry D) (u : U) → DoesEnd (measure random seconds fuel truth u)
  measure-DoesEnd truth u = DoesEnd-bind (make_measurement-DoesEnd truth) (λ vio.
      DoesEnd-bind get-DoesEnd (λ s.
        DoesEnd-bind (draw_fault-DoesEnd u)
          (λ a. DoesEnd-if _ (displace-DoesEnd vio) (pure-DoesEnd vio))))

  deliver-DoesEnd : (truth : Odometry D) (u : U) → DoesEnd (deliver random seconds fuel truth u)
  unfolding deliver
  deliver-DoesEnd truth u = DoesEnd-bind (measure-DoesEnd truth u) (λ vio. modify-DoesEnd _)

  walk-DoesEnd : (stamp : ℕ) (dt : D) → DoesEnd (walk random seconds fuel stamp dt)
  unfolding walk
  walk-DoesEnd stamp dt = DoesEnd-bind get-DoesEnd (λ s. DoesEnd-bind (drift_noise-DoesEnd _) (λ x.
      DoesEnd-bind (modify-DoesEnd _) (λ _. DoesEnd-bind (drift_noise-DoesEnd _) (λ y.
        DoesEnd-bind (modify-DoesEnd _)
          (λ _. DoesEnd-bind (drift_noise-DoesEnd _) (λ yaw. modify-DoesEnd _))))))

  advance-DoesEnd : (stamp : ℕ) → DoesEnd (advance random seconds fuel stamp)
  unfolding advance
  advance-DoesEnd stamp = record {
    ended = λ s. (DoesEnd-if _ (walk-DoesEnd stamp _) (pure-DoesEnd tt)).ended s;
  }

  respond-DoesEnd : (truth : Odometry D) → DoesEnd (respond random seconds fuel truth)
  unfolding respond
  respond-DoesEnd truth = DoesEnd-bind (modify-DoesEnd (start_at random seconds fuel truth)) (λ _.
      DoesEnd-bind (advance-DoesEnd truth.stamp) (λ _. DoesEnd-bind get-DoesEnd (λ s.
        DoesEnd-bind (draw_fault-DoesEnd _)
          (λ (chance, u). DoesEnd-if _ (pure-DoesEnd tt) (deliver-DoesEnd truth u)))))

  callback-DoesEnd : (truth : Odometry D) → DoesEnd (truth_callback random seconds fuel truth)
  unfolding truth_callback
  callback-DoesEnd truth = DoesEnd-if (truth.stamp == 0) (pure-DoesEnd tt) (respond-DoesEnd truth)

  handle_ends :
      (event : Event D) (s : VioNode D G)
      → ((t : VioNode D G) × (handle random seconds fuel event s ≡ some t)) ⊎ Hangs
  unfolding handle
  handle_ends (sensed truth) s = elim ((callback-DoesEnd truth).ended s) [
    | inr stuck ↦ inr stuck
    | inl ((u, t), e) ↦ inl (t, rw (handle, e))
  ]
  handle_ends (tick time) s = inl (publish_due_messages time s, refl)

  pub run_ends :
      (events : List (Event D)) (s : VioNode D G)
      → ((t : VioNode D G) × (run random seconds fuel events s ≡ some t)) ⊎ Hangs
  unfolding run
  run_ends [] s = inl (s, refl)
  run_ends (event ∷ events) s = elim (handle_ends event s) [
    | inr stuck ↦ inr stuck
    | inl (t, e) ↦ elim (run_ends events t) [
      | inr stuck ↦ inr stuck
      | inl (u, e') ↦ inl (u, rw (run, e) e')
    ]
  ]
