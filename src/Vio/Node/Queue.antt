-- ===== src/Vio/Node/Queue.antt =====
-- What goes through the queue of delayed messages.
use billee_software.Prelude.{
  ℕ, ◌≤◌, ◌<◌, ◌≡◌, refl, ap, List, [], ◌∷◌, ◌++◌, leb, arith, map, All, Bool-cases, inl, inr,
}
use billee_software.Vio.State.{PendingMessage, take_due}

module _ {D : Type 0} where
  -- Not due at a time.
  abbrev pub IsLater : ℕ → List (PendingMessage D) → Type 0
  IsLater time [] = Unit {0}
  IsLater time (p ∷ ps) = time < p.release_time

  abbrev pub IsDue : ℕ → PendingMessage D → Type 0
  IsDue time p = p.release_time ≤ time

  -- The queue, cut where it stops being due.
  pub record IsCut (time : ℕ) (queue sent left : List (PendingMessage D)) : Type 0 where
    pub whole : queue ≡ sent ++ left
    pub due : All (IsDue time) sent
    pub later : IsLater time left

  -- The messages are taken in the queue's order up to the first one that is not due.
  pub take_due-IsCut :
      (time : ℕ) (queue : List (PendingMessage D))
      → (sent left : List (PendingMessage D)) × (take_due time queue
          ≡ (map (λ p. p.message) sent, left))
        × IsCut time queue sent left
  unfolding take_due
  take_due-IsCut time [] = ([], [], refl, record { whole = refl; due = tt; later = tt })
  take_due-IsCut time (p ∷ ps) =
      let (sent, left, e, cut) = take_due-IsCut time ps in
      elim (Bool-cases (leb p.release_time time)) [
        | inl h ↦ (
          p ∷ sent,
          left,
          rw (h, e),
          record {
            whole = ap (λ q. p ∷ q) cut.whole;
            due = (ground (arith, h), cut.due);
            later = cut.later;
          },
        )
        | inr h ↦ ([], p ∷ ps, rw h, record { whole = refl; due = tt; later = ground (arith, h) })
      ]
