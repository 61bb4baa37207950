-- ===== src/Pxx/Backend/Receiver.antt =====
-- What the receiver thread can change: one entry of `feedback_` at a time, and the last response.
use billee_software.Prelude.{
  ◌≡◌, Option, none, some, List, [], ◌∷◌, arith, length, length-set, Bool-cases, inl, inr,
}
use billee_software.Pxx.Can.{Frame}
use billee_software.Pxx.Backend.{
  Backend, Event, received, woken, store, rx_round, rx_loop, wait_on, wait_for, answers,
}

-- All but the feedback's entries and the last response is as before.
pub record Untouched (s t : Backend) : Type 0 where
  pub same_interface : t.can_interface ≡ s.can_interface
  pub same_nodes : t.node_ids ≡ s.node_ids
  pub same_transport : t.can_transport ≡ s.can_transport
  pub same_running : t.rx_running ≡ s.rx_running
  pub same_joinable : t.rx_joinable ≡ s.rx_joinable
  pub same_size : length t.feedback ≡ length s.feedback
  pub same_error : t.error ≡ s.error
  pub same_wire : t.wire ≡ s.wire
  pub same_writes : t.writes ≡ s.writes
  pub same_waits : t.waits ≡ s.waits

Untouched-refl : (s : Backend) → Untouched s s
Untouched-refl s = ground arith

pub Untouched-trans : (s t u : Backend) → Untouched s t → Untouched t u → Untouched s u
Untouched-trans s t u p q = ground arith

store-Untouched : (f : Frame) (s : Backend) → Untouched s (store f s)
unfolding store
store-Untouched f s = grind (arith, length-set)

pub rx_round-Untouched : (o : Option Frame) (s : Backend) → Untouched s (rx_round o s)
unfolding rx_round
rx_round-Untouched none s = Untouched-refl s
rx_round-Untouched (some f) s = ground (arith, store-Untouched f s)

pub rx_loop-Untouched : (os : List (Option Frame)) (s : Backend) → Untouched s (rx_loop os s)
unfolding rx_loop
rx_loop-Untouched [] s = Untouched-refl s
rx_loop-Untouched (o ∷ os) s =
    Untouched-trans s (rx_round o s) _ (rx_round-Untouched o s)
      (rx_loop-Untouched os (rx_round o s))

wait_on-Untouched :
    (request : Frame) (es : List Event) (s : Backend) → Untouched s (wait_on request es s).1
unfolding wait_on
wait_on-Untouched request [] s = Untouched-refl s
wait_on-Untouched request (received o ∷ es) s =
    Untouched-trans s (rx_round o s) _ (rx_round-Untouched o s)
      (wait_on-Untouched request es (rx_round o s))
wait_on-Untouched request (woken ∷ es) s = elim (Bool-cases (answers request s.sdo_response)) [
  | inl e ↦ rw e (Untouched-refl s)
  | inr e ↦ rw e (wait_on-Untouched request es s)
]

pub wait_for-Untouched :
    (request : Frame) (es : List Event) (s : Backend) → Untouched s (wait_for request es s).1
unfolding wait_for
wait_for-Untouched request es s = elim (Bool-cases (answers request s.sdo_response)) [
  | inl e ↦ rw e (Untouched-refl s)
  | inr e ↦ rw e (wait_on-Untouched request es s)
]
