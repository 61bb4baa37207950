-- ===== src/Pxx/Transport/Laws.antt =====
-- Descriptors are closed once and none is lost, and a frame that is sent is the frame received.
use billee_software.Prelude.{
  ℕ, ◌+◌, ◌^◌, ◌≤◌, ◌<◌, ◌≡◌, bit_and, bit_or, true, false, Option, none, some, List, ◌∷◌, arith,
}
use billee_software.Prelude.Bits.{or_low_high}
use billee_software.Words.Masks.{and_sff_mask, and_eff_mask, and_eff_flag}
use billee_software.Pxx.Can.{Frame}
use billee_software.Pxx.Transport.{
  Transport, CanFrame, OpenCalls, Poll, Received, Sent, TransportError, is_open, open_on,
  socket_frame, frame_of, send, receive, copied,
}

-- The descriptors that the transport has had, latest first.
abbrev pub owned : Transport → List ℕ
owned t = elim t.fd [ none ↦ t.closed | some fd ↦ fd ∷ t.closed ]

-- The socket after `open`, by the error.
abbrev pub Opened : Option ℕ → Option TransportError → Transport → Type 0
Opened socket none t = t.fd ≡ socket
Opened socket (some e) t = is_open t ≡ false

-- `open` gives the old descriptor back, and owns the new one exactly once: open if it succeeds, and
-- given back if it fails.
pub open_on-owned :
    (calls : OpenCalls) (t : Transport)
    → let (e, t') = open_on calls t in
      (owned t' ≡ elim calls.socket [ none ↦ owned t | some fd ↦ fd ∷ owned t ])
      × Opened calls.socket e t'
unfolding open_on
open_on-owned calls t = ground arith

-- What both ends of the bus agree on: the identifier fits its format, and no byte stands behind the
-- data length.
pub record IsWire (f : Frame) : Type 0 where
  pub short : f.data_length ≤ 8
  pub standard : f.extended ≡ false → f.arbitration_id < 2 ^ 11
  pub long : f.extended ≡ true → f.arbitration_id < 2 ^ 29
  pub tail : copied f.data_length f.payload ≡ f.payload

copied_twice : (n : ℕ) (bytes : List ℕ) → copied n bytes ≡ bytes → copied n (copied n bytes) ≡ bytes
copied_twice n bytes e = rw (e, e)

-- The identifier as it stands in a `can_frame`, and as it is read back.
standard_id :
    (x : ℕ)
    → x < 2 ^ 11
    → (bit_and (bit_and x 0x7FF) 0x80000000 ≡ 0) × (bit_and (bit_and x 0x7FF) 0x7FF ≡ x)
standard_id x h =
    let low : bit_and x 0x7FF ≡ x = omega (arith, and_sff_mask x) in
    rw low (omega (arith, and_eff_flag x), low)

long_id :
    (x : ℕ)
    → x < 2 ^ 29
    → let id = bit_or (bit_and x 0x1FFFFFFF) 0x80000000 in
      (bit_and id 0x80000000 ≡ 2 ^ 31) × (bit_and id 0x1FFFFFFF ≡ x)
long_id x h =
    let low : bit_and x 0x1FFFFFFF ≡ x = omega (arith, and_eff_mask x) in
    let flagged : bit_or x 0x80000000 ≡ 2 ^ 31 + x =
      omega (arith, or_low_high 31 x 1 (omega arith)) in
    rw (low, flagged)
      (omega (arith, and_eff_flag (2 ^ 31 + x)), omega (arith, and_eff_mask (2 ^ 31 + x)))

frame_of-socket_frame : (f : Frame) → IsWire f → frame_of (socket_frame f) ≡ f
unfolding frame_of socket_frame
frame_of-socket_frame f w = ground (
  arith,
  copied_twice f.data_length f.payload,
  standard_id f.arbitration_id,
  long_id f.arbitration_id,
  w.standard,
  w.long,
  w.tail,
)

-- A frame that fits the bus is received as it was sent.
pub receive-send :
    (t u : Transport) (f : Frame) (c : CanFrame)
    → IsWire f
    → is_open u ≡ true
    → send t f true ≡ Sent.sent c
    → receive u Poll.input (some c) ≡ Received.frame f
unfolding receive send
receive-send t u f c w o e = ground (arith, frame_of-socket_frame f w)
