-- ===== src/Pxx/Backend/Transaction/Replies.antt =====
-- `sdo_transaction`: an answer that is heard during the wait is the result.
use billee_software.Prelude.{
  ℕ, suc, ◌≡◌, refl, ap, ◌∙◌, Bool, true, false, Option, none, some, List, [], ◌∷◌, ◌++◌, arith,
  if◌then◌else◌,
}
use billee_software.Pxx.Can.{Frame}
use billee_software.Pxx.Can.Parse.{SdoResponse, parse_sdo_response}
use billee_software.Pxx.Can.Dispatch.{parsers_exclusive}
use billee_software.Pxx.Backend.Receiver.{Untouched, rx_round-Untouched}
use billee_software.Pxx.Transport.{CanFrame, Sent, send}
use billee_software.Pxx.Backend.{
  Backend, Bus, Event, received, woken, store, rx_round, wait_on, wait_for, answers, send_frame,
  prepare, conclude, await, sdo_transaction, then_run,
}
use billee_software.Pxx.Backend.Transaction.{
  prepare-Untouched, prepare-response, send_frame-response,
}

-- Nothing in the frame is a response.
abbrev pub IsSilent : Option Frame → Type 0
IsSilent none = Unit {0}
IsSilent (some f) = parse_sdo_response f ≡ none

abbrev pub AllSilent : List Event → Type 0
AllSilent [] = Unit {0}
AllSilent (received o ∷ es) = IsSilent o × AllSilent es
AllSilent (woken ∷ es) = AllSilent es

rx_round-silent :
    (o : Option Frame) (s : Backend) → IsSilent o → (rx_round o s).sdo_response ≡ s.sdo_response
unfolding rx_round store
rx_round-silent none s q = refl
rx_round-silent (some f) s q = ground arith

rx_round-heard :
    (f : Frame) (s : Backend) (r : SdoResponse)
    → s.rx_running ≡ true
    → parse_sdo_response f ≡ some r
    → (rx_round (some f) s).sdo_response ≡ some r
unfolding rx_round store
rx_round-heard f s r on e = ground (arith, parsers_exclusive f)

wait_on-hit :
    (request f : Frame) (r : SdoResponse) (quiet rest : List Event) (s : Backend)
    → AllSilent quiet
    → parse_sdo_response f ≡ some r
    → answers request (some r) ≡ true
    → s.rx_running ≡ true
    → s.sdo_response ≡ none
    → let w = wait_on request (quiet ++ received (some f) ∷ woken ∷ rest) s in
      (w.0 ≡ true) × (w.1.sdo_response ≡ some r)
unfolding wait_on
wait_on-hit request f r [] rest s q p a on clear =
    let stored = rx_round-heard f s r on p in rw (ap (answers request) stored ∙ a) (refl, stored)
wait_on-hit request f r (received o ∷ es) rest s (q, qs) p a on clear =
    wait_on-hit request f r es rest (rx_round o s) qs p a
      ((rx_round-Untouched o s).same_running ∙ on) (rx_round-silent o s q ∙ clear)
wait_on-hit request f r (woken ∷ es) rest s qs p a on clear =
    let miss : answers request s.sdo_response ≡ false = ap (answers request) clear in
    rw miss (wait_on-hit request f r es rest s qs p a on clear)

conclude-hit :
    (bus : Bus) (sink : Bool) (request : Frame) (r : SdoResponse) (w : Bool × Backend)
    → w.0 ≡ true
    → w.1.sdo_response ≡ some r
    → (conclude bus sink request w).0 ≡ (if r.aborted then none else some r.value)
unfolding conclude
conclude-hit bus sink request r (false, t) y e = cc
conclude-hit bus sink request r (true, t) y e = ground arith

await-hit :
    (bus : Bus) (sink : Bool) (request f : Frame) (r : SdoResponse) (quiet rest : List Event)
    (n : ℕ) (w : Option (Unit {0}) × Backend)
    → bus.during n ≡ quiet ++ received (some f) ∷ woken ∷ rest
    → AllSilent quiet
    → parse_sdo_response f ≡ some r
    → answers request (some r) ≡ true
    → w.0 ≡ some tt
    → w.1.rx_running ≡ true
    → w.1.sdo_response ≡ none
    → w.1.waits ≡ n
    → (then_run w (λ _. await bus sink request)).0 ≡ (if r.aborted then none else some r.value)
unfolding conclude wait_for
await-hit bus sink request f r quiet rest n (none, t) script q p a sent on clear count = cc
await-hit bus sink request f r quiet rest n (some _, t) script q p a sent on clear count =
    let t' = record t { waits = suc t.waits } in
    let es : bus.during t.waits ≡ quiet ++ received (some f) ∷ woken ∷ rest =
      ap bus.during count ∙ script in
    let miss : answers request t.sdo_response ≡ false = ap (answers request) clear in
    let hit = wait_on-hit request f r quiet rest t' q p a on clear in
    rw (es, miss) (conclude-hit bus sink request r _ hit.0 hit.1)

send_frame-sent :
    (bus : Bus) (sink : Bool) (f : Frame) (s t : Backend) (c : CanFrame)
    → Untouched s t
    → send s.can_transport f (bus.written s.writes) ≡ Sent.sent c
    → (send_frame bus sink f t).0 ≡ some tt
unfolding send_frame
send_frame-sent bus sink f s t c u e = ground (arith, ap bus.written u.same_writes)

-- While the receiver runs and the request can be sent, a matching response that is the first to
-- arrive in the wait, and is seen before another comes, decides the transaction: an abort makes it
-- fail, and anything else makes it return the response's value.
pub sdo_transaction_answered :
    (bus : Bus) (sink : Bool) (request f : Frame) (s : Backend) (c : CanFrame) (r : SdoResponse)
    (quiet rest : List Event)
    → send s.can_transport request (bus.written s.writes) ≡ Sent.sent c
    → s.rx_running ≡ true
    → bus.during s.waits ≡ quiet ++ received (some f) ∷ woken ∷ rest
    → AllSilent quiet
    → parse_sdo_response f ≡ some r
    → answers request (some r) ≡ true
    → (sdo_transaction bus sink request s).0 ≡ (if r.aborted then none else some r.value)
unfolding sdo_transaction
sdo_transaction_answered bus sink request f s c r quiet rest sent on script q p a =
    let ready = prepare-Untouched bus s in
    let kept = send_frame-response bus sink request (prepare bus s) in
    await-hit bus sink request f r quiet rest s.waits (send_frame bus sink request (prepare bus s))
      script q p a (send_frame-sent bus sink request s (prepare bus s) c ready sent)
      (kept.3 ∙ ready.same_running ∙ on) (kept.0 ∙ prepare-response bus s)
      (kept.1 ∙ ready.same_waits)
