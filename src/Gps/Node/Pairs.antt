-- ===== src/Gps/Node/Pairs.antt =====
-- What the node publishes of what it receives.
use mathlib.Core.Bool.{true≢false}
use mathlib.Core.List.Sublist
use mathlib.Core.List.{append-nil, Sublist, nil-sublist}
use billee_software.Prelude.{
  ℕ, ◌⊎◌, ◌≡◌, refl, sym, ap, subst, Bool, true, false, ◌&&◌, Option, none, some, List, [], ◌∷◌,
  ◌++◌, ◌==◌, ==_iff, if◌then◌else◌, take, drop, inl, inr, Bool-cases,
}
use billee_software.Prelude.Int.{ℤ}
use billee_software.Double.{Double}
use billee_software.Gps.Device.{open_device}
use billee_software.Gps.Payload.{pos_of_bytes, cov_of_bytes}
use billee_software.Gps.Node.{
  Gps, Answers, pos_id, cov_id, pos_size, cov_size, header_bytes, store_pos, store_cov, store,
  poll_msgs, may_publish, sent, must_forget, publish_pair, forget_late, timer_callback, run,
}
use billee_software.Gps.Node.Offered.{
  Waiting, partners, arrived, waiting, offered, partners_made, partners_none, poll_msgs-waiting,
  callback-waiting,
}
use billee_software.Gps.Node.Received.{
  received, read_msg_lem, pos_in, cov_in, positions, covariances, kept, replaced, IsPairing,
  IsPairing-trans, IsPairing-then, unchanged,
}

-- What the tests before a publication say.
tests_hold : (a b c : Bool) → ((a && b) && c) ≡ true → (a ≡ true) × ((b ≡ true) × (c ≡ true))
tests_hold true true true h = (refl, (refl, refl))
tests_hold true true false h = absurd (true≢false (sym h))
tests_hold true false c h = absurd (true≢false (sym h))
tests_hold false b c h = absurd (true≢false (sym h))

module _ {D : Type 0} ⦃d : Double D⦄ where
  store-IsPairing :
      (time : ℕ) (buffer : List ℕ) (id : Option ℕ) (s : Gps D)
      → IsPairing s (store time buffer id s) [] (pos_in (id, buffer)) (cov_in (id, buffer))
  unfolding store pos_in cov_in
  store-IsPairing time buffer none s = unchanged s
  store-IsPairing time buffer (some id) s = stored (id == pos_id) (id == cov_id)
    where
      stored :
          (p c : Bool)
          → IsPairing s
              (if p then store_pos time buffer s else if c then store_cov time buffer s else s)
              []
              (if p then pos_of_bytes (take pos_size (drop header_bytes buffer)) ∷ [] else [])
              (if c then cov_of_bytes (take cov_size (drop header_bytes buffer)) ∷ [] else [])
      stored true c = record {
        pos_order = replaced _ _;
        cov_order = kept _ _;
        made = sym (append-nil _);
        one_time = tt;
      }
      stored false true = record {
        pos_order = kept _ _;
        cov_order = replaced _ _;
        made = sym (append-nil _);
        one_time = tt;
      }
      stored false false = unchanged s

  poll_msgs-IsPairing :
      (a : Answers) (s : Gps D)
      → IsPairing s (poll_msgs a s) [] (pos_in (received a)) (cov_in (received a))
  unfolding poll_msgs
  poll_msgs-IsPairing a s =
      let device = (open_device a.opened a.configured s.device).1 in
      let h =
        store-IsPairing a.stored_at (received a).1 (received a).0 (record s { device = device }) in
      subst
        (λ r.
          IsPairing s (store a.stored_at r.2 r.0 (record s { device = r.1 })) []
            (pos_in (received a)) (cov_in (received a)))
        (sym (read_msg_lem a s.device))
        (record { pos_order = h.pos_order; cov_order = h.cov_order; made = h.made; one_time = tt })

  publish_pair-IsPairing :
      (s : Gps D) → IsPairing s (publish_pair s) (partners (waiting s).pos (waiting s).cov) [] []
  unfolding publish_pair
  publish_pair-IsPairing s = by_test (Bool-cases (may_publish s))
    where
      by_test :
          (may_publish s ≡ true) ⊎ (may_publish s ≡ false)
          → IsPairing s (publish_pair s) (partners (waiting s).pos (waiting s).cov) [] []
      by_test (inl h) =
          let (p, (c, e)) = tests_hold s.has_pos s.has_cov _ h in
          subst (λ l. IsPairing s (publish_pair s) l [] []) (sym (partners_made s p c e))
            (subst (λ t. IsPairing s t ((s.pending_pos, s.pending_cov) ∷ []) [] [])
              (ap (λ b. if b then sent s else s) (sym h))
              (record {
                pos_order =
                    subst
                      (λ b.
                        Sublist (s.pending_pos ∷ []) ((if b then s.pending_pos ∷ [] else []) ++ []))
                      (sym p) (Sublist.refl _);
                cov_order =
                    subst
                      (λ b.
                        Sublist (s.pending_cov ∷ []) ((if b then s.pending_cov ∷ [] else []) ++ []))
                      (sym c) (Sublist.refl _);
                made = refl;
                one_time = ((==_iff _ _).0 e, tt);
              }))
      by_test (inr h) =
          subst (λ l. IsPairing s (publish_pair s) l [] []) (sym (partners_none s h))
            (subst (λ t. IsPairing s t [] [] []) (ap (λ b. if b then sent s else s) (sym h))
              (unchanged s))

  module _ (seconds : ℤ → D) (tol_sec : ℤ) where
    forget_late-IsPairing :
        (now : ℕ) (s : Gps D) → IsPairing s (forget_late seconds tol_sec now s) [] [] []
    unfolding forget_late
    forget_late-IsPairing now s = by_test (must_forget seconds tol_sec now s)
      where
        by_test :
            (b : Bool)
            → IsPairing s (if b then record s { has_pos = false; has_cov = false } else s) [] [] []
        by_test true = record {
          pos_order = nil-sublist _;
          cov_order = nil-sublist _;
          made = sym (append-nil _);
          one_time = tt;
        }
        by_test false = unchanged s

    callback-IsPairing :
        (a : Answers) (s : Gps D)
        → IsPairing s
            (timer_callback seconds tol_sec a s)
            (partners (arrived a (waiting s)).pos (arrived a (waiting s)).cov)
            (pos_in (received a))
            (cov_in (received a))
    unfolding timer_callback
    callback-IsPairing a s =
        let polled = poll_msgs a s in
        let made = partners (waiting polled).pos (waiting polled).cov in
        let t = forget_late seconds tol_sec a.now (publish_pair polled) in
        subst
          (λ (w : Waiting).
            IsPairing s t (partners w.pos w.cov) (pos_in (received a)) (cov_in (received a)))
          (poll_msgs-waiting a s)
          (subst (λ l. IsPairing s t l (pos_in (received a)) (cov_in (received a)))
            (append-nil made)
            (IsPairing-then
              (IsPairing-then (poll_msgs-IsPairing a s) (publish_pair-IsPairing polled))
              (forget_late-IsPairing a.now (publish_pair polled))))

    settled_after :
        (a : Answers) (s : Gps D) → may_publish (timer_callback seconds tol_sec a s) ≡ false
    unfolding timer_callback forget_late publish_pair
    settled_after a s =
        let polled = poll_msgs a s in
        forgotten (must_forget seconds tol_sec a.now (publish_pair polled)) (publish_pair polled)
          (published (may_publish polled) polled refl)
      where
        published :
            (b : Bool) (u : Gps D) → may_publish u ≡ b → may_publish (publish_pair u) ≡ false
        published true u e = rw (publish_pair, e) refl
        published false u e = rw (publish_pair, e) e

        forgotten :
            (b : Bool) (u : Gps D)
            → may_publish u ≡ false
            → may_publish (if b then record u { has_pos = false; has_cov = false } else u) ≡ false
        forgotten true u e = refl
        forgotten false u e = e

    settled :
        (answers : List Answers) (s : Gps D)
        → may_publish s ≡ false
        → may_publish (run seconds tol_sec answers s) ≡ false
    unfolding run
    settled [] s h = h
    settled (a ∷ answers) s h =
        settled answers (timer_callback seconds tol_sec a s) (settled_after a s)

    pairs_of_run :
        (answers : List Answers) (s : Gps D)
        → IsPairing s
            (run seconds tol_sec answers s)
            (offered seconds tol_sec answers (waiting s))
            (positions answers)
            (covariances answers)
    unfolding run positions covariances offered
    pairs_of_run [] s = unchanged s
    pairs_of_run (a ∷ answers) s =
        let t = timer_callback seconds tol_sec a s in
        let rest =
          subst
            (λ w.
              IsPairing t (run seconds tol_sec answers t) (offered seconds tol_sec answers w)
                (positions answers) (covariances answers))
            (callback-waiting seconds tol_sec a s) (pairs_of_run answers t) in
        IsPairing-trans (callback-IsPairing a s) rest

    -- Over any number of callbacks, whatever the device and the clock answer, the node publishes
    -- one message for each pair that it is offered, in their order, and no other: one in each callback
    -- in which, with the message that then comes in, a position and a covariance of one time of week
    -- wait. A message waits until one of its kind comes in, until its pair is made, or until one of
    -- the two has waited for longer than the tolerance at the end of a callback. The positions of the
    -- pairs, and then the one held, are in their order among the one held before and those that came
    -- in, each used at most once; and so are the covariances. If no pair of one time is held before,
    -- none is held afterwards.
    pub run-IsPairing :
        (answers : List Answers) (s : Gps D)
        → may_publish s ≡ false
        → IsPairing s
            (run seconds tol_sec answers s)
            (offered seconds tol_sec answers (waiting s))
            (positions answers)
            (covariances answers)
          × (may_publish (run seconds tol_sec answers s) ≡ false)
    run-IsPairing answers s h = (pairs_of_run answers s, settled answers s h)
