-- ===== src/Pxx/Backend/Transaction.antt =====
-- `sdo_transaction`: a result is an answer that was heard during the wait.
pub mod Replies
use billee_software.Prelude.{
  ℕ, suc, ◌≡◌, refl, sym, ap, ◌∙◌, subst, ◌⊎◌, inl, inr, Bool, true, false, Option, none, some,
  List, [], ◌∷◌, ◌++◌, arith, Bool-cases, Option-cases, if◌then◌else◌,
}
use billee_software.Pxx.Can.{Frame}
use billee_software.Pxx.Can.Parse.{SdoResponse, parse_sdo_response}
use billee_software.Pxx.Can.Dispatch.{parsers_exclusive}
use billee_software.Pxx.Backend.Receiver.{
  Untouched, Untouched-trans, rx_loop-Untouched, rx_round-Untouched,
}
use billee_software.Pxx.Transport.{CanFrame, Sent, send}
use billee_software.Pxx.Backend.{
  Backend, Bus, Event, received, woken, store, rx_round, rx_loop, wait_on, wait_for, answers,
  request_node, request_index, request_subindex, send_frame, prepare, conclude, await,
  sdo_transaction, then_run,
}

-- The response came in the frame.
abbrev pub From : SdoResponse → Option Frame → Type 0
From r none = ⊥
From r (some f) = parse_sdo_response f ≡ some r

-- The response came in a frame of the wait.
abbrev pub Heard : SdoResponse → List Event → Type 0
Heard r [] = ⊥
Heard r (received o ∷ es) = From r o ⊎ Heard r es
Heard r (woken ∷ es) = Heard r es

-- A stored response is the old one or the frame's.
rx_round-response :
    (o : Option Frame) (s : Backend) (r : SdoResponse)
    → (rx_round o s).sdo_response ≡ some r
    → From r o ⊎ (s.sdo_response ≡ some r)
unfolding rx_round store
rx_round-response none s r e = inr e
rx_round-response (some f) s r e = ground arith

pub record Answered (request : Frame) (es : List Event) (s t : Backend) : Type 0 where
  pub response : SdoResponse
  pub stored : t.sdo_response ≡ some response
  pub fits : answers request (some response) ≡ true
  pub source : Heard response es ⊎ (s.sdo_response ≡ some response)

Answered-now :
    (request : Frame) (es : List Event) (s : Backend)
    → answers request s.sdo_response ≡ true
    → Answered request es s s
Answered-now request es s e = elim (Option-cases s.sdo_response) [
  | inl n ↦ cc (ap (answers request) n)
  | inr (r, h) ↦ record {
    response = r;
    stored = h;
    fits = ap (answers request) (sym h) ∙ e;
    source = inr h;
  }
]

wait_on-Answered :
    (request : Frame) (es : List Event) (s : Backend)
    → (wait_on request es s).0 ≡ true
    → Answered request es s (wait_on request es s).1
unfolding wait_on
wait_on-Answered request [] s e = Answered-now request [] s e
wait_on-Answered request (received o ∷ es) s e =
    let a = wait_on-Answered request es (rx_round o s) e in
    record {
      response = a.response;
      stored = a.stored;
      fits = a.fits;
      source = elim a.source [
        | inl h ↦ inl (inr h)
        | inr h ↦ elim (rx_round-response o s a.response h) [
          | inl from ↦ inl (inl from)
          | inr old ↦ inr old
        ]
      ];
    }
wait_on-Answered request (woken ∷ es) s e = elim (Bool-cases (answers request s.sdo_response)) [
  | inl y ↦ rw y (Answered-now request (woken ∷ es) s y)
  | inr n ↦
      let a = wait_on-Answered request es s (rw n at e) in
      rw n (record { response = a.response; stored = a.stored; fits = a.fits; source = a.source })
]

pub wait_for-Answered :
    (request : Frame) (es : List Event) (s : Backend)
    → (wait_for request es s).0 ≡ true
    → Answered request es s (wait_for request es s).1
unfolding wait_for
wait_for-Answered request es s e = elim (Bool-cases (answers request s.sdo_response)) [
  | inl y ↦ rw y (Answered-now request es s y)
  | inr n ↦ rw n (wait_on-Answered request es s (rw n at e))
]

-- The response that a transaction is about, and its value.
pub record Answer (request : Frame) (es : List Event) (value : ℕ) : Type 0 where
  pub response : SdoResponse
  pub heard : Heard response es
  pub same_node : response.node_id ≡ request_node request
  pub same_index : response.index ≡ request_index request
  pub same_subindex : response.subindex ≡ request_subindex request
  pub accepted : response.aborted ≡ false
  pub carries : response.value ≡ value

conclude-Answer :
    (bus : Bus) (sink : Bool) (request : Frame) (es : List Event) (s : Backend) (value : ℕ)
    (w : Bool × Backend)
    → s.sdo_response ≡ none
    → (w.0 ≡ true → Answered request es s w.1)
    → (conclude bus sink request w).0 ≡ some value
    → Answer request es value
unfolding conclude
conclude-Answer bus sink request es s value (false, t) clear a e = cc
conclude-Answer bus sink request es s value (true, t) clear a e =
    let b = a refl in
    record {
      response = b.response;
      heard = elim b.source [ inl h ↦ h | inr h ↦ cc (clear, h) ];
      same_node = ground (arith, b.fits);
      same_index = ground (arith, b.fits);
      same_subindex = ground (arith, b.fits);
      accepted = ground (arith, b.stored);
      carries = ground (arith, b.stored);
    }

await-Answer :
    (bus : Bus) (sink : Bool) (request : Frame) (n : ℕ) (r : Option (Unit {0}) × Backend)
    (value : ℕ)
    → r.1.sdo_response ≡ none
    → r.1.waits ≡ n
    → (then_run r (λ _. await bus sink request)).0 ≡ some value
    → Answer request (bus.during n) value
await-Answer bus sink request n (none, t) value clear w e = cc
await-Answer bus sink request n (some _, t) value clear w e =
    let es = bus.during t.waits in
    let t' = record t { waits = suc t.waits } in
    subst (λ k. Answer request (bus.during k) value) w
      (conclude-Answer bus sink request es t' value (wait_for request es t') clear
        (wait_for-Answered request es t') e)

-- Sending touches no shared field, and says so.
pub send_frame-response :
    (bus : Bus) (sink : Bool) (f : Frame) (s : Backend)
    → let t = (send_frame bus sink f s).1 in
      (t.sdo_response ≡ s.sdo_response)
      × (t.waits ≡ s.waits)
      × (t.feedback ≡ s.feedback)
      × (t.rx_running ≡ s.rx_running)
unfolding send_frame
send_frame-response bus sink f s = ground arith

pub prepare-Untouched : (bus : Bus) (s : Backend) → Untouched s (prepare bus s)
unfolding prepare
prepare-Untouched bus s =
    let kept = rx_loop-Untouched (bus.before s.waits) s in
    Untouched-trans s (rx_loop (bus.before s.waits) s) _ kept (ground arith)

pub prepare-response : (bus : Bus) (s : Backend) → (prepare bus s).sdo_response ≡ none
unfolding prepare
prepare-response bus s = refl

-- A transaction succeeds only with a response that arrives during its own wait, names the object of
-- the request, is no abort, and carries the value that is returned; one that came before is never
-- taken.
pub sdo_transaction-Answer :
    (bus : Bus) (sink : Bool) (request : Frame) (s : Backend) (value : ℕ)
    → (sdo_transaction bus sink request s).0 ≡ some value
    → Answer request (bus.during s.waits) value
unfolding sdo_transaction
sdo_transaction-Answer bus sink request s value e =
    let kept = send_frame-response bus sink request (prepare bus s) in
    await-Answer bus sink request s.waits (send_frame bus sink request (prepare bus s)) value
      (kept.0 ∙ prepare-response bus s) (kept.1 ∙ (prepare-Untouched bus s).same_waits) e
