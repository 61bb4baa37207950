-- ===== src/Pxx/Backend/Serving.antt =====
-- A drive that serves its requests (the waits of `sdo_transaction`), and the operations of
-- `SocketCanMotorBackend` that succeed while it does.
use mathlib.Core.Option.{some-injective}
use billee_software.Prelude.{
  if◌then◌else◌, subst, ℕ, suc, ◌^◌, ◌≤◌, ◌<◌, ◌≡◌, refl, sym, ap, ◌∙◌, Bool, true, false, Option,
  none, some, List, ◌∷◌, ◌++◌, arith,
}
use billee_software.Pxx.Can.{Frame, make_sdo_write_frame, make_sdo_read_frame}
use billee_software.Pxx.Can.Parse.{SdoResponse, parse_sdo_response}
use billee_software.Pxx.Transport.{Sent, is_open, send, socket_frame}
use billee_software.Pxx.Backend.{
  Backend, Bus, Event, received, woken, M, pure, then_run, answers, send_frame, sdo_transaction,
  sdo_write, sdo_read, conclude, await, prepare, wait_for,
}
use billee_software.Pxx.Backend.Receiver.{wait_for-Untouched}
use billee_software.Pxx.Backend.Requests.{
  Names, make_sdo_write_frame-Names, make_sdo_read_frame-Names,
}
use billee_software.Pxx.Backend.Emits.{sdo_transaction-Emits}
use billee_software.Pxx.Backend.Transaction.{prepare-Untouched}
use billee_software.Pxx.Backend.Transaction.Replies.{AllSilent, sdo_transaction_answered}

-- In the wait `n` the first response is about the object, is no abort, and is seen before another.
pub record Serves (bus : Bus) (n node index subindex : ℕ) : Type 0 where
  pub quiet : List Event
  pub rest : List Event
  pub answer : Frame
  pub response : SdoResponse
  pub script : bus.during n ≡ quiet ++ received (some answer) ∷ woken ∷ rest
  pub silent : AllSilent quiet
  pub parsed : parse_sdo_response answer ≡ some response
  pub same_node : response.node_id ≡ node
  pub same_index : response.index ≡ index
  pub same_subindex : response.subindex ≡ subindex
  pub accepted : response.aborted ≡ false

-- Open, with a receiver that runs, before the wait `n`.
pub record IsReady (n : ℕ) (s : Backend) : Type 0 where
  pub opened : is_open s.can_transport ≡ true
  pub running : s.rx_running ≡ true
  pub counted : s.waits ≡ n

-- The operation returned `a`, and the backend is before the wait `n`.
pub record Returns {A : Type 0} (n : ℕ) (a : A) (r : Option A × Backend) : Type 0 where
  pub value : r.0 ≡ some a
  pub ready : IsReady n r.1

pub pure-Returns : {A : Type 0} (n : ℕ) (a : A) (s : Backend) → IsReady n s → Returns n a (pure a s)
pure-Returns n a s h = record { value = refl; ready = h }

pub then_run-Returns :
    {A B : Type 0} (n m : ℕ) (a : A) (b : B) (r : Option A × Backend) (k : A → M B)
    → Returns n a r
    → ((t : Backend) → IsReady n t → Returns m b (k a t))
    → Returns m b (then_run r k)
then_run-Returns n m a b (none, t) k p q = cc (p.value)
then_run-Returns n m a b (some a', t) k p q =
    let same : a' ≡ a = some-injective a' a p.value in
    subst (λ x. Returns m b (k x t)) (sym same) (q t p.ready)

conclude-waits :
    (bus : Bus) (sink : Bool) (request : Frame) (w : Bool × Backend)
    → (conclude bus sink request w).1.waits ≡ w.1.waits
unfolding conclude
conclude-waits bus sink request (false, t) = ground arith
conclude-waits bus sink request (true, t) = ground arith

await-waits :
    (bus : Bus) (sink : Bool) (request : Frame) (s : Backend)
    → (await bus sink request s).1.waits ≡ suc s.waits
await-waits bus sink request s =
    let started = record s { waits = suc s.waits } in
    let w = wait_for request (bus.during s.waits) started in
    conclude-waits bus sink request w
    ∙ (wait_for-Untouched request (bus.during s.waits) started).same_waits

-- A transaction that sent its request has waited once.
waited :
    (bus : Bus) (sink : Bool) (request : Frame) (r : Option (Unit {0}) × Backend)
    → r.0 ≡ some tt
    → (then_run r (λ _. await bus sink request)).1.waits ≡ suc r.1.waits
waited bus sink request (none, t) e = cc e
waited bus sink request (some _, t) e = await-waits bus sink request t

module _ (bus : Bus) (sink : Bool) (all_written : (k : ℕ) → bus.written k ≡ true) where
  send-sent :
      (n : ℕ) (f : Frame) (s : Backend)
      → IsReady n s
      → f.data_length ≤ 8
      → send s.can_transport f (bus.written s.writes) ≡ Sent.sent (socket_frame f)
  unfolding send
  send-sent n f s h short = ground (arith, h.opened, all_written s.writes)

  pub send_frame-Returns :
      (n : ℕ) (f : Frame) (s : Backend)
      → IsReady n s
      → f.data_length ≤ 8
      → Returns n tt (send_frame bus sink f s)
  unfolding send_frame
  send_frame-Returns n f s h short =
      rw (send_frame, send-sent n f s h short)
        (record {
          value = refl;
          ready = record { opened = h.opened; running = h.running; counted = h.counted };
        })

  sdo_transaction-Returns :
      (n node index subindex : ℕ) (request : Frame) (s : Backend)
      → IsReady n s
      → request.data_length ≤ 8
      → Names request node index subindex
      → (v : Serves bus n node index subindex)
      → Returns (suc n) v.response.value (sdo_transaction bus sink request s)
  unfolding sdo_transaction
  sdo_transaction-Returns n node index subindex request s h short names v =
      let kept = prepare-Untouched bus s in
      let ready = prepare bus s in
      let sent =
        send_frame-Returns n request ready
          (record {
            opened = ap is_open kept.same_transport ∙ h.opened;
            running = kept.same_running ∙ h.running;
            counted = kept.same_waits ∙ h.counted;
          })
          short in
      let steady = (sdo_transaction-Emits bus sink request s).steady in
      let fits : answers request (some v.response) ≡ true =
        ground (arith, names, v.same_node, v.same_index, v.same_subindex) in
      record {
        value =
            sdo_transaction_answered bus sink request v.answer s (socket_frame request) v.response
              v.quiet v.rest (send-sent n request s h short) h.running
              (ap bus.during h.counted ∙ v.script) v.silent v.parsed fits
            ∙ ap (λ b. if b then none else some v.response.value) v.accepted;
        ready = record {
          opened = ap is_open steady.same_transport ∙ h.opened;
          running = steady.same_running ∙ h.running;
          counted =
              waited bus sink request (send_frame bus sink request ready) sent.value
              ∙ ap suc sent.ready.counted;
        };
      }

  short_requests :
      (node index subindex value size : ℕ)
      → ((make_sdo_write_frame node index subindex value size).data_length ≤ 8)
        × ((make_sdo_read_frame node index subindex).data_length ≤ 8)
  unfolding make_sdo_write_frame make_sdo_read_frame
  short_requests node index subindex value size = omega arith

  pub sdo_write-Returns :
      (n node index subindex value size : ℕ) (s : Backend)
      → IsReady n s
      → node ≤ 127
      → index < 2 ^ 16
      → subindex < 2 ^ 8
      → 1 ≤ size
      → size ≤ 4
      → Serves bus n node index subindex
      → Returns (suc n) tt (sdo_write bus sink node index subindex value size s)
  unfolding sdo_write
  sdo_write-Returns n node index subindex value size s h hn hi hs h1 h4 v =
      let request = make_sdo_write_frame node index subindex value size in
      let names = make_sdo_write_frame-Names node index subindex value size hn hi hs h1 h4 in
      then_run-Returns (suc n) (suc n) v.response.value tt (sdo_transaction bus sink request s) _
        (sdo_transaction-Returns n node index subindex request s h
          (short_requests node index subindex value size).0 names.0 v)
        (λ t. pure-Returns (suc n) tt t)

  pub sdo_read-Returns :
      (n node index subindex : ℕ) (s : Backend)
      → IsReady n s
      → node ≤ 127
      → index < 2 ^ 16
      → (v : Serves bus n node index subindex)
      → Returns (suc n) v.response.value (sdo_read bus sink node index subindex s)
  unfolding sdo_read
  sdo_read-Returns n node index subindex s h hn hi v =
      sdo_transaction-Returns n node index subindex (make_sdo_read_frame node index subindex) s h
        (short_requests node index subindex 0 4).1
        (make_sdo_read_frame-Names node index subindex hn hi) v
