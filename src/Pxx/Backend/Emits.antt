-- ===== src/Pxx/Backend/Emits.antt =====
-- Which frames an operation puts on the wire: all of a list if it succeeds, and a beginning of that
-- list if it fails. The rules follow the way the operations are put together.
use mathlib.Core.List.{append_assoc, append-nil}
use billee_software.Prelude.{
  ℕ, suc, ◌≡◌, ◌⊎◌, inl, inr, refl, sym, ap, ◌∙◌, Bool, true, false, Option, none, some, List, [],
  ◌∷◌, ◌++◌, arith, length,
}
use billee_software.Pxx.Can.{Frame, make_sdo_write_frame, make_sdo_read_frame}
use billee_software.Pxx.Transport.{CanFrame, Sent, Transport, send, socket_frame}
use billee_software.Pxx.Backend.{
  Backend, Bus, M, pure, then_run, ◌>>=◌, send_frame, conclude, await, prepare, sdo_transaction,
  sdo_write, sdo_read, wait_for, is_done,
}
use billee_software.Pxx.Backend.Receiver.{Untouched, wait_for-Untouched}
use billee_software.Pxx.Backend.Transaction.{prepare-Untouched}

-- The socket, the configuration and the thread are as before.
pub record IsSteady (s t : Backend) : Type 0 where
  pub same_interface : t.can_interface ≡ s.can_interface
  pub same_nodes : t.node_ids ≡ s.node_ids
  pub same_transport : t.can_transport ≡ s.can_transport
  pub same_running : t.rx_running ≡ s.rx_running
  pub same_joinable : t.rx_joinable ≡ s.rx_joinable
  pub same_size : length t.feedback ≡ length s.feedback

pub IsSteady-trans : (s t u : Backend) → IsSteady s t → IsSteady t u → IsSteady s u
IsSteady-trans s t u p q = ground arith

-- `out` of the frames `fs` went out, and all of them if the operation succeeded.
pub record Trace {A : Type 0} (fs : List CanFrame) (s : Backend) (r : Option A × Backend)
    : Type 0 where
  pub out : List CanFrame
  pub rest : List CanFrame
  pub splits : fs ≡ out ++ rest
  pub grows : r.1.wire ≡ s.wire ++ out
  pub complete : is_done r.0 ≡ true → rest ≡ []
  pub steady : IsSteady s r.1

abbrev pub Emits : {A : Type 0} → List CanFrame → M A → Type 0
Emits fs m = (s : Backend) → Trace fs s (m s)

-- An operation that sends nothing.
pub silent-Trace :
    {A : Type 0} (s : Backend) (r : Option A × Backend)
    → r.1.wire ≡ s.wire
    → IsSteady s r.1
    → Trace [] s r
silent-Trace s r e k = record {
  out = [];
  rest = [];
  splits = refl;
  grows = e ∙ sym (append-nil s.wire);
  complete = λ _. refl;
  steady = k;
}

pub then_run-Trace :
    {A B : Type 0} (fs gs : List CanFrame) (s : Backend) (r : Option A × Backend) (k : A → M B)
    → Trace fs s r
    → ((a : A) → Emits gs (k a))
    → Trace (fs ++ gs) s (then_run r k)
then_run-Trace fs gs s (none, t) k p q = record {
  out = p.out;
  rest = p.rest ++ gs;
  splits = rw (p.splits) (append_assoc p.out p.rest gs);
  grows = p.grows;
  complete = λ e. cc e;
  steady = p.steady;
}
then_run-Trace fs gs s (some a, t) k p q =
    let next = q a t in
    let whole : fs ≡ p.out = p.splits ∙ ap (λ x. p.out ++ x) (p.complete refl) ∙ append-nil p.out in
    record {
      out = p.out ++ next.out;
      rest = next.rest;
      splits =
          ap (λ x. x ++ gs) whole
          ∙ ap (λ x. p.out ++ x) next.splits
          ∙ sym (append_assoc p.out next.out next.rest);
      grows = next.grows ∙ ap (λ x. x ++ next.out) p.grows ∙ append_assoc s.wire p.out next.out;
      complete = next.complete;
      steady = IsSteady-trans s t _ p.steady next.steady;
    }

pub bind-Emits :
    {A B : Type 0} (fs gs : List CanFrame) (m : M A) (k : A → M B)
    → Emits fs m
    → ((a : A) → Emits gs (k a))
    → Emits (fs ++ gs) (m >>= k)
bind-Emits fs gs m k p q s = then_run-Trace fs gs s (m s) k (p s) q

failed-Trace :
    {A : Type 0} (fs : List CanFrame) (s : Backend) (r : Option A × Backend)
    → is_done r.0 ≡ false
    → r.1.wire ≡ s.wire
    → IsSteady s r.1
    → Trace fs s r
failed-Trace fs s r no_result e k = record {
  out = [];
  rest = fs;
  splits = refl;
  grows = e ∙ sym (append-nil s.wire);
  complete = λ yes_result. cc (no_result, yes_result);
  steady = k;
}

Sent-cases :
    (x : Sent) → (x ≡ Sent.refused) ⊎ ((x ≡ Sent.failed) ⊎ ((c : CanFrame) × (x ≡ Sent.sent c)))
Sent-cases Sent.refused = inl refl
Sent-cases Sent.failed = inr (inl refl)
Sent-cases (Sent.sent c) = inr (inr (c, refl))

send-socket_frame :
    (t : Transport) (f : Frame) (w : Bool) (c : CanFrame)
    → send t f w ≡ Sent.sent c
    → c ≡ socket_frame f
unfolding send
send-socket_frame t f w c e = ground arith

pub send_frame-Emits :
    (bus : Bus) (sink : Bool) (f : Frame) → Emits (socket_frame f ∷ []) (send_frame bus sink f)
unfolding send_frame
send_frame-Emits bus sink f s =
    let written = bus.written s.writes in
    elim (Sent-cases (send s.can_transport f written)) [
      | inl e ↦
          failed-Trace _ s (send_frame bus sink f s) (ground arith) (ground arith) (ground arith)
      | inr (inl e) ↦
          failed-Trace _ s (send_frame bus sink f s) (ground arith) (ground arith) (ground arith)
      | inr (inr (c, e)) ↦ record {
        out = socket_frame f ∷ [];
        rest = [];
        splits = refl;
        grows = ground (arith, send-socket_frame s.can_transport f written c e);
        complete = λ _. refl;
        steady = ground arith;
      }
    ]

conclude-Steady :
    (bus : Bus) (sink : Bool) (request : Frame) (s : Backend) (w : Bool × Backend)
    → Untouched s w.1
    → ((conclude bus sink request w).1.wire ≡ s.wire) × IsSteady s (conclude bus sink request w).1
unfolding conclude
conclude-Steady bus sink request s (false, t) u = ground arith
conclude-Steady bus sink request s (true, t) u = ground arith

-- The wait and what follows send nothing.
await-Emits : (bus : Bus) (sink : Bool) (request : Frame) → Emits [] (await bus sink request)
await-Emits bus sink request s =
    let s' = record s { waits = suc s.waits } in
    let w = wait_for request (bus.during s.waits) s' in
    let kept =
      conclude-Steady bus sink request s' w (wait_for-Untouched request (bus.during s.waits) s') in
    silent-Trace s (conclude bus sink request w) kept.0 (ground arith)

prepare-Steady : (bus : Bus) (s : Backend) → IsSteady s (prepare bus s)
prepare-Steady bus s = let kept = prepare-Untouched bus s in ground arith

pub sdo_transaction-Emits :
    (bus : Bus) (sink : Bool) (request : Frame)
    → Emits (socket_frame request ∷ []) (sdo_transaction bus sink request)
unfolding sdo_transaction
sdo_transaction-Emits bus sink request s =
    let ready = prepare bus s in
    let t =
      then_run-Trace (socket_frame request ∷ []) [] ready (send_frame bus sink request ready)
        (λ _. await bus sink request) (send_frame-Emits bus sink request ready)
        (λ _. await-Emits bus sink request) in
    record {
      out = t.out;
      rest = t.rest;
      splits = t.splits;
      grows = t.grows ∙ ap (λ x. x ++ t.out) (prepare-Untouched bus s).same_wire;
      complete = t.complete;
      steady = IsSteady-trans s ready _ (prepare-Steady bus s) t.steady;
    }

pub sdo_write-Emits :
    (bus : Bus) (sink : Bool) (node_id index subindex value size : ℕ)
    → Emits
        (socket_frame (make_sdo_write_frame node_id index subindex value size) ∷ [])
        (sdo_write bus sink node_id index subindex value size)
unfolding sdo_write
sdo_write-Emits bus sink node_id index subindex value size =
    let f = make_sdo_write_frame node_id index subindex value size in
    bind-Emits (socket_frame f ∷ []) [] (sdo_transaction bus sink f) (λ _. pure tt)
      (sdo_transaction-Emits bus sink f) (λ _ s. silent-Trace s (some tt, s) refl (ground arith))

pub sdo_read-Emits :
    (bus : Bus) (sink : Bool) (node_id index subindex : ℕ)
    → Emits
        (socket_frame (make_sdo_read_frame node_id index subindex) ∷ [])
        (sdo_read bus sink node_id index subindex)
unfolding sdo_read
sdo_read-Emits bus sink node_id index subindex =
    sdo_transaction-Emits bus sink (make_sdo_read_frame node_id index subindex)

-- Inversion of a chain that succeeded.
pub then_run-done :
    {A B : Type 0} (r : Option A × Backend) (k : A → M B) (b : B)
    → (then_run r k).0 ≡ some b
    → (a : A) × (r.0 ≡ some a) × ((k a r.1).0 ≡ some b)
then_run-done (none, t) k b e = cc
then_run-done (some a, t) k b e = (a, refl, e)
