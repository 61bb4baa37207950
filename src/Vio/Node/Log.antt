-- ===== src/Vio/Node/Log.antt =====
-- The messages of the node, published or waiting, in the order of their acceptance.
use mathlib.Core.List.{append_assoc, append-nil, map-append}
use billee_software.Prelude.{
  ℕ, ◌≤◌, ◌≡◌, refl, sym, ap, ◌∙◌, subst, List, [], ◌∷◌, ◌++◌, map, All, All-append, ◌==◌,
  if◌then◌else◌,
}
use billee_software.Prelude.Int.{ℤ, pos}
use billee_software.Vio.Model.{NoiseModel}
use billee_software.Vio.Random.{Random}
use billee_software.Double.{Double, zero_d}
use billee_software.Vio.State.{
  tick, VioNode, Odometry, PendingMessage, Event, sensed, release, publish_due_messages, enqueue,
}
use billee_software.Vio.Node.Queue.{IsCut, IsDue, IsLater, take_due-IsCut}
use billee_software.Vio.Node.Quiet.{IsSame}

All-left : {A : Type 0} (P : A → Type 0) (xs ys : List A) → All P (xs ++ ys) → All P xs × All P ys
All-left P [] ys h = (tt, h)
All-left P (x ∷ xs) ys h = let (a, b) = All-left P xs ys h.1 in ((h.0, a), b)

module _ {D : Type 0} where
  abbrev pub messages : List (PendingMessage D) → List (Odometry D)
  messages = map (λ p. p.message)

  -- Each waiting message has the release time that its stamp and the latency give.
  abbrev pub IsOnTime : ℤ → List (PendingMessage D) → Type 0
  IsOnTime latency = All (λ p. p.release_time ≡ release p.message.stamp latency)

abbrev pub stamps : {D : Type 0} → List (Odometry D) → List ℕ
stamps = map (λ o. o.stamp)

module _ {D G N U : Type 0} ⦃d : Double D⦄ (random : Random D G N U) where
  -- By the draw that tests for a dropout: nothing is left of the pose, or the pose is, and a second
  -- value is drawn with the distribution of the first.
  abbrev pub drawn : NoiseModel D → Odometry D → D × U × G → List (Odometry D) × G
  drawn m truth (chance, u, g) =
      if d.lt chance m.dropout_probability
      then ([], g)
      else (truth ∷ [], (random.draw_uniform u g).2)

  -- What is left of an event, and the engine of the faults after it: of a tick and of a pose without
  -- a stamp nothing, and nothing is drawn for them.
  abbrev pub judged : NoiseModel D → G → Event D → List (Odometry D) × G
  judged m g (tick time) = ([], g)
  judged m g (sensed truth) =
      if truth.stamp == 0
      then ([], g)
      else drawn m truth (random.draw_uniform (random.uniform zero_d (d.decimal (pos 1) 0)) g)

  -- The true poses that are left of a sequence of events.
  unfoldable pub survivors : NoiseModel D → G → List (Event D) → List (Odometry D)
  survivors m g [] = []
  survivors m g (event ∷ events) = (judged m g event).0 ++ survivors m (judged m g event).1 events

  -- One message for each of them, in their order and with their stamps.
  abbrev pub Accepts : NoiseModel D → G → List (Event D) → List (Odometry D) → Type 0
  Accepts m g events new = stamps new ≡ stamps (survivors m g events)

IsOnTime-subst :
    {D : Type 0} {m n : NoiseModel D} {xs ys : List (PendingMessage D)}
    → m ≡ n
    → xs ≡ ys
    → IsOnTime m.latency_ms xs
    → IsOnTime n.latency_ms ys
IsOnTime-subst {n = n} {xs = xs} e f h =
    subst (λ q. IsOnTime n.latency_ms q) f (subst (λ m. IsOnTime m.latency_ms xs) e h)

module _ {D G : Type 0} where
  abbrev pub log : VioNode D G → List (Odometry D)
  log s = s.published ++ messages s.pending_messages

  -- Publishing moves messages from the queue to what is published.
  pub record IsPublished (time : ℕ) (s t : VioNode D G) : Type 0 where
    pub sent : List (PendingMessage D)
    pub published : t.published ≡ s.published ++ messages sent
    pub cut : IsCut time s.pending_messages sent t.pending_messages
    pub model : t.model ≡ s.model

  publish-IsPublished :
      (time : ℕ) (s : VioNode D G) → IsPublished time s (publish_due_messages time s)
  unfolding publish_due_messages
  publish-IsPublished time s =
      let (sent, left, e, cut) = take_due-IsCut time s.pending_messages in
      record {
        sent = sent;
        published = ap (λ r. s.published ++ r.0) e;
        cut = subst (IsCut time s.pending_messages sent) (sym (ap (λ r. r.1) e)) cut;
        model = refl;
      }

  published-log : (time : ℕ) (s t : VioNode D G) → IsPublished time s t → log t ≡ log s
  published-log time s t h = rw (
    h.published,
    h.cut.whole,
    map-append (λ p. p.message) h.sent t.pending_messages,
    append_assoc,
  )

  -- Publishing takes a part of the queue from its front and appends its messages to what is published,
  -- each of them when its stamp plus the latency has passed, and leaves nothing due in front. It needs
  -- that each waiting message has the release time that its stamp and the latency give.
  publish_due_messages_lem :
      (time : ℕ) (s : VioNode D G)
      → IsOnTime s.model.latency_ms s.pending_messages
      → (sent left : List (PendingMessage D)) × (publish_due_messages time s
          ≡ record s { pending_messages = left; published = s.published ++ messages sent })
        × (s.pending_messages ≡ sent ++ left)
        × All (λ p. release p.message.stamp s.model.latency_ms ≤ time) sent
        × IsLater time left
  unfolding publish_due_messages
  publish_due_messages_lem time s h =
      let (sent, left, e, cut) = take_due-IsCut time s.pending_messages in
      let (on_time, _) =
        All-left _ sent left (subst (λ q. IsOnTime s.model.latency_ms q) cut.whole h) in
      (
        sent,
        left,
        ap (λ r. record s { pending_messages = r.1; published = s.published ++ r.0 }) e,
        cut.whole,
        in_time sent on_time cut.due,
        cut.later,
      )
    where
      in_time :
          (sent : List (PendingMessage D))
          → IsOnTime s.model.latency_ms sent
          → All (IsDue time) sent
          → All (λ p. release p.message.stamp s.model.latency_ms ≤ time) sent
      in_time [] on_time due = tt
      in_time (p ∷ ps) (e, on_time) (d, due) = (subst (λ r. r ≤ time) e d, in_time ps on_time due)

  -- What one event does to the log.
  pub record Adds (new : List (Odometry D)) (s t : VioNode D G) : Type 0 where
    pub kept : t.model ≡ s.model
    pub grown : log t ≡ log s ++ new
    pub on_time :
        IsOnTime s.model.latency_ms s.pending_messages
        → IsOnTime t.model.latency_ms t.pending_messages

  pub Adds-same : (s t : VioNode D G) → IsSame s t → Adds [] s t
  Adds-same s t (a, b, c) = record {
    kept = c;
    grown = rw (a, b, append-nil);
    on_time = λ h. IsOnTime-subst (sym c) (sym a) h;
  }

  pub Adds-trans :
      {new more : List (Odometry D)} (s t u : VioNode D G)
      → Adds new s t
      → Adds more t u
      → Adds (new ++ more) s u
  Adds-trans {new = new} {more = more} s t u h k = record {
    kept = k.kept ∙ h.kept;
    grown = rw (k.grown, h.grown, append_assoc);
    on_time = λ r. k.on_time (h.on_time r);
  }

  pub publish-Adds : (time : ℕ) (s : VioNode D G) → Adds [] s (publish_due_messages time s)
  publish-Adds time s =
      let h = publish-IsPublished time s in
      record {
        kept = h.model;
        grown = published-log time s _ h ∙ sym (append-nil _);
        on_time = λ r.
            let (_, left) =
              All-left _ h.sent _ (subst (λ q. IsOnTime s.model.latency_ms q) h.cut.whole r) in
            IsOnTime-subst (sym h.model) refl left;
      }

  pub enqueue-Adds : (vio : Odometry D) (s : VioNode D G) → Adds (vio ∷ []) s (enqueue vio s)
  unfolding enqueue
  enqueue-Adds vio s = record {
    kept = refl;
    grown = rw (map-append (λ (p : PendingMessage D). p.message), append_assoc);
    on_time = λ h. All-append _ s.pending_messages _ h (refl, tt);
  }
