-- ===== src/Vio/Node/Runs.antt =====
-- A whole run of the node: the constructor, and then any poses and ticks of the timer.
use mathlib.Core.Bool.{true≢false}
use mathlib.Core.Sum.{inr-injective, inl-ne-inr}
use billee_software.Prelude.{
  none, ◌⊎◌, ℕ, ◌≤◌, ◌≡◌, refl, sym, subst, false, inl, inr, some, Option-cases, List, [], ◌∷◌, All,
  arith,
}
use billee_software.Prelude.Int.{ℤ, pos, negsuc}
use billee_software.Double.{Double}
use billee_software.Vio.Random.{Random}
use billee_software.Vio.Model.{Settings, is_negative, validate_parameters}
use billee_software.Vio.Model.Laws.{IsValidModel, select_model-IsValidModel}
use billee_software.Vio.State.{VioNode, Odometry, PendingMessage, Event, release}
use billee_software.Vio.Node.{fresh_node, sample_run_calibration, construct, run}
use billee_software.Vio.Node.Log.{IsOnTime, log, Accepts}
use billee_software.Vio.Node.Ends.{Hangs}
use billee_software.Vio.Node.Answers.{run-Accepts}

release-le : (stamp : ℕ) (latency : ℤ) → is_negative latency ≡ false → stamp ≤ release stamp latency
release-le stamp (pos n) h = omega arith
release-le stamp (negsuc n) h = absurd (true≢false h)

module _ {D : Type 0} where
  on_time_after :
      (latency : ℤ) (queue : List (PendingMessage D))
      → is_negative latency ≡ false
      → IsOnTime latency queue
      → All (λ p. p.message.stamp ≤ p.release_time) queue
  on_time_after latency [] h k = tt
  on_time_after latency (p ∷ ps) h (e, k) = (
    subst (λ r. p.message.stamp ≤ r) (sym e) (release-le p.message.stamp latency h),
    on_time_after latency ps h k,
  )

module _ {D G N U : Type 0} ⦃d : Double D⦄ (random : Random D G N U) (seconds : ℤ → D)
    (fuel : ℕ) where
  pub record IsFresh (s : VioNode D G) : Type 0 where
    pub valid : IsValidModel s.model
    pub idle : s.pending_messages ≡ []
    pub silent : s.published ≡ []

  construct-IsFresh :
      (p : Settings D) (requested_seed : ℤ) (high low : ℕ) (s : VioNode D G)
      → construct random seconds fuel p requested_seed high low ≡ inr s
      → IsFresh s
  unfolding construct sample_run_calibration fresh_node
  construct-IsFresh p requested_seed high low s e =
      elim (Option-cases (validate_parameters p requested_seed)) [
        | inl h ↦ subst IsFresh (inr-injective _ _ (rw (construct, h) at e)) (record {
          valid = select_model-IsValidModel random p requested_seed _ h;
          idle = refl;
          silent = refl;
        })
        | inr (bad, h) ↦ absurd (inl-ne-inr (rw (construct, h) at e))
      ]

  -- Either the run of a node that the constructor has made does not end, and then `wrap_angle` hangs at
  -- some angle; or it ends, and the node has then published, or keeps waiting, one message for each
  -- pose that came, in their order and with their stamps, but for the poses without a stamp, for which
  -- nothing is drawn, and those whose own draw falls below the probability of a dropout, where each
  -- pose with a stamp draws once and once more if it is kept; no waiting message is due before its own
  -- stamp; and the node's model is still a valid one.
  pub run-construct :
      (p : Settings D) (requested_seed : ℤ) (high low : ℕ) (events : List (Event D))
      (s : VioNode D G)
      → construct random seconds fuel p requested_seed high low ≡ inr s
      → ((t : VioNode D G) × (run random seconds fuel events s ≡ some t)
          × ((new : List (Odometry D)) × Accepts random s.model s.fault_rng events new
              × (log t ≡ new))
          × All (λ m. m.message.stamp ≤ m.release_time) t.pending_messages
          × IsValidModel t.model)
        ⊎ ((run random seconds fuel events s ≡ none) × Hangs random seconds fuel)
  run-construct p requested_seed high low events s e =
      let fresh = construct-IsFresh p requested_seed high low s e in
      let start : IsOnTime s.model.latency_ms s.pending_messages =
        subst (IsOnTime s.model.latency_ms) (sym fresh.idle) tt in
      elim (run-Accepts random seconds fuel events s) [
        | inr stuck ↦ inr stuck
        | inl (t, r, (new, accepts, adds)) ↦
            let valid : IsValidModel t.model = subst IsValidModel (sym adds.kept) fresh.valid in
            inl (
              t,
              r,
              (new, accepts, rw (adds.grown, fresh.silent, fresh.idle)),
              on_time_after t.model.latency_ms t.pending_messages valid.latency
                  (adds.on_time start),
              valid,
            )
      ]
