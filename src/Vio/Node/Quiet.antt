-- ===== src/Vio/Node/Quiet.antt =====
-- What the operations that measure do to the queue, to what is published, and to the model.
use billee_software.Prelude.{
  ℕ, ◌≡◌, refl, ap, ◌∙◌, Bool, true, false, Option, none, some, if◌then◌else◌,
}
use billee_software.Prelude.Int.{ℤ}
use billee_software.Double.{Double}
use billee_software.Vio.Random.{Random}
use billee_software.Vio.Step.{Step, pure, ◌>>=◌, get, modify, lift}
use billee_software.Vio.Step.Laws.{After, After-weaken, After-then_run}
use billee_software.Vio.State.{VioNode, Odometry}
use billee_software.Vio.Node.{
  white_noise, drift_noise, walk, advance, make_measurement, displace, draw_fault, measure,
  start_at,
}

abbrev pub Any : Type 0
Any = Unit

module _ {D G : Type 0} where
  abbrev pub IsSame : VioNode D G → VioNode D G → Type 0
  IsSame s t =
      (t.pending_messages ≡ s.pending_messages) × (t.published ≡ s.published) × (t.model ≡ s.model)

  -- And nothing is drawn for the faults.
  abbrev pub IsSteady : VioNode D G → VioNode D G → Type 0
  IsSteady s t = IsSame s t × (t.fault_rng ≡ s.fault_rng)

  IsSame-trans : (s t u : VioNode D G) → IsSame s t → IsSame t u → IsSame s u
  IsSame-trans s t u (a, b, c) (e, f, g) = (e ∙ a, f ∙ b, g ∙ c)

  IsSteady-trans : (s t u : VioNode D G) → IsSteady s t → IsSteady t u → IsSteady s u
  IsSteady-trans s t u (h, e) (k, f) = (IsSame-trans s t u h k, f ∙ e)

  IsSteady-if :
      (b : Bool) (s t u : VioNode D G)
      → IsSteady s t
      → IsSteady s u
      → IsSteady s (if b then t else u)
  IsSteady-if true s t u ht hu = ht
  IsSteady-if false s t u ht hu = hu

  pub record IsQuiet {A : Type 0} (R : A → Type 0) (m : Step (VioNode D G) A) : Type 0 where
    pub after : (s : VioNode D G) → After (λ a t. IsSteady s t × R a) (m s)

  IsQuiet-bind :
      {A B : Type 0} {R : A → Type 0} {Q : B → Type 0} {m : Step (VioNode D G) A}
      {f : A → Step (VioNode D G) B}
      → IsQuiet R m
      → ((a : A) → R a → IsQuiet Q (f a))
      → IsQuiet Q (m >>= f)
  unfolding ◌>>=◌
  IsQuiet-bind {R = R} {Q = Q} {m = m} {f = f} h next = record {
    after = λ s. After-then_run _ _ (m s) f (h.after s) (λ a t (same, r).
        After-weaken _ _ (f a t) (λ b u (same', q). (IsSteady-trans s t u same same', q))
          ((next a r).after t));
  }

  get-IsQuiet : IsQuiet {A = VioNode D G} (λ s. Any) get
  get-IsQuiet = record { after = λ s. (((refl, refl, refl), refl), tt) }

  pure-IsQuiet : {A : Type 0} {R : A → Type 0} {a : A} → R a → IsQuiet R (pure a)
  pure-IsQuiet r = record { after = λ s. (((refl, refl, refl), refl), r) }

  lift-IsQuiet : {A : Type 0} (o : Option A) → IsQuiet (λ a. Any) (lift o)
  lift-IsQuiet none = record { after = λ s. tt }
  lift-IsQuiet (some a) = record { after = λ s. (((refl, refl, refl), refl), tt) }

  IsQuiet-imp :
      {A : Type 0} {R Q : A → Type 0} {m : Step (VioNode D G) A}
      → ((a : A) → R a → Q a)
      → IsQuiet R m
      → IsQuiet Q m
  IsQuiet-imp {m = m} imp h = record {
    after = λ s. After-weaken _ _ (m s) (λ a t (same, r). (same, imp a r)) (h.after s);
  }

  pub modify-IsQuiet :
      (f : VioNode D G → VioNode D G)
      → ((s : VioNode D G) → IsSteady s (f s))
      → IsQuiet (λ u. Any) (modify f)
  modify-IsQuiet f h = record { after = λ s. (h s, tt) }

module _ {D G N U : Type 0} ⦃d : Double D⦄ (random : Random D G N U) (seconds : ℤ → D)
    (fuel : ℕ) where
  white_noise-IsQuiet :
      (deviation : D) → IsQuiet (λ a. Any) (white_noise random seconds fuel deviation)
  unfolding white_noise
  white_noise-IsQuiet deviation = record { after = λ s. (((refl, refl, refl), refl), tt) }

  drift_noise-IsQuiet :
      (deviation : D) → IsQuiet (λ a. Any) (drift_noise random seconds fuel deviation)
  unfolding drift_noise
  drift_noise-IsQuiet deviation = record { after = λ s. (((refl, refl, refl), refl), tt) }

  make_measurement-IsQuiet :
      (truth : Odometry D)
      → IsQuiet (λ m. m.stamp ≡ truth.stamp) (make_measurement random seconds fuel truth)
  unfolding make_measurement
  make_measurement-IsQuiet truth = IsQuiet-bind get-IsQuiet (λ s _.
      IsQuiet-bind (lift-IsQuiet _) (λ relative_yaw _.
        IsQuiet-bind (white_noise-IsQuiet _) (λ yaw_noise _. IsQuiet-bind (lift-IsQuiet _) (λ yaw _.
          IsQuiet-bind (white_noise-IsQuiet _)
            (λ x _. IsQuiet-bind (white_noise-IsQuiet _) (λ y _. pure-IsQuiet refl))))))

  displace-IsQuiet :
      (vio : Odometry D) → IsQuiet (λ m. m.stamp ≡ vio.stamp) (displace random seconds fuel vio)
  unfolding displace
  displace-IsQuiet vio = IsQuiet-bind get-IsQuiet (λ s _.
      IsQuiet-bind (white_noise-IsQuiet _) (λ x _. IsQuiet-bind (white_noise-IsQuiet _) (λ y _.
        IsQuiet-bind (white_noise-IsQuiet _)
          (λ turn _. IsQuiet-bind (lift-IsQuiet _) (λ yaw _. pure-IsQuiet refl)))))

  displaced_or_not :
      (outlier : Bool) (truth vio : Odometry D)
      → vio.stamp ≡ truth.stamp
      → IsQuiet
          (λ m. m.stamp ≡ truth.stamp)
          (if outlier then displace random seconds fuel vio else pure vio)
  displaced_or_not true truth vio e = IsQuiet-imp (λ m h. h ∙ e) (displace-IsQuiet vio)
  displaced_or_not false truth vio e = pure-IsQuiet e

  -- One value is drawn for the faults, and nothing else happens.
  pub record IsDrawing {A : Type 0} (u : U) (R : A → Type 0) (m : Step (VioNode D G) A)
      : Type 0 where
    pub after :
        (s : VioNode D G)
        → After
            (λ a t. IsSame s t × (t.fault_rng ≡ (random.draw_uniform u s.fault_rng).2) × R a)
            (m s)

  IsDrawing-after :
      {A B : Type 0} {u : U} {R : A → Type 0} {Q : B → Type 0} {m : Step (VioNode D G) A}
      {f : A → Step (VioNode D G) B}
      → IsQuiet R m
      → ((a : A) → R a → IsDrawing u Q (f a))
      → IsDrawing u Q (m >>= f)
  unfolding ◌>>=◌
  IsDrawing-after {u = u} {m = m} {f = f} h next = record {
    after = λ s. After-then_run _ _ (m s) f (h.after s) (λ a t ((same, kept), r).
        After-weaken _ _ (f a t)
          (λ b v (same', drew, q).
            (IsSame-trans s t v same same', drew ∙ ap (λ g. (random.draw_uniform u g).2) kept, q))
          ((next a r).after t));
  }

  IsDrawing-then :
      {B : Type 0} {u : U} {Q : B → Type 0} {f : D × U → Step (VioNode D G) B}
      → ((a : D × U) → IsQuiet Q (f a))
      → IsDrawing u Q (draw_fault random seconds fuel u >>= f)
  unfolding ◌>>=◌
  IsDrawing-then {u = u} {f = f} next = record {
    after = λ s.
        let (value, u', g) = random.draw_uniform u s.fault_rng in
        After-weaken _ _ (f (value, u') (record s { fault_rng = g }))
          (λ b t ((same, kept), q). (same, kept, q))
          ((next (value, u')).after (record s { fault_rng = g }));
  }

  pub measure-IsDrawing :
      (truth : Odometry D) (u : U)
      → IsDrawing u (λ m. m.stamp ≡ truth.stamp) (measure random seconds fuel truth u)
  measure-IsDrawing truth u = IsDrawing-after (make_measurement-IsQuiet truth) (λ vio e.
      IsDrawing-after get-IsQuiet (λ s _. IsDrawing-then (λ a. displaced_or_not _ truth vio e)))

  walk-IsQuiet : (stamp : ℕ) (dt : D) → IsQuiet (λ u. Any) (walk random seconds fuel stamp dt)
  unfolding walk
  walk-IsQuiet stamp dt = IsQuiet-bind get-IsQuiet (λ s _.
      IsQuiet-bind (drift_noise-IsQuiet _) (λ x _.
        IsQuiet-bind (modify-IsQuiet _ (λ t. ((refl, refl, refl), refl))) (λ _ _.
          IsQuiet-bind (drift_noise-IsQuiet _) (λ y _.
            IsQuiet-bind (modify-IsQuiet _ (λ t. ((refl, refl, refl), refl))) (λ _ _.
              IsQuiet-bind (drift_noise-IsQuiet _)
                (λ yaw _. modify-IsQuiet _ (λ t. ((refl, refl, refl), refl))))))))

  walked_or_not :
      (positive : Bool) (stamp : ℕ) (dt : D)
      → IsQuiet (λ u. Any) (if positive then walk random seconds fuel stamp dt else pure tt)
  walked_or_not true stamp dt = walk-IsQuiet stamp dt
  walked_or_not false stamp dt = pure-IsQuiet tt

  pub advance-IsQuiet : (stamp : ℕ) → IsQuiet (λ u. Any) (advance random seconds fuel stamp)
  unfolding advance
  advance-IsQuiet stamp = record { after = λ s. (walked_or_not _ stamp _).after s }

  pub start_at-IsSteady :
      (truth : Odometry D) (s : VioNode D G) → IsSteady s (start_at random seconds fuel truth s)
  unfolding start_at
  start_at-IsSteady truth s =
      IsSteady-if s.initialized s s _ ((refl, refl, refl), refl) ((refl, refl, refl), refl)
