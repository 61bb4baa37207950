-- ===== src/Odesc/Transport/Laws.antt =====
-- A frame of the drives goes through the bus unchanged.
use billee_software.Prelude.{ℕ, ◌%◌, ◌^◌, ◌≤◌, ◌<◌, ◌≡◌, bit_and, true, List, some, arith}
use billee_software.Words.Masks.{and_sff_mask}
use billee_software.Pxx.Transport.{Transport, Poll, Sent, is_open, copied}
use billee_software.Odesc.Can.{Frame}
use billee_software.Odesc.Transport.{socket_frame, frame_of, Received, send, receive}

-- The identifier has 11 bits, and no byte stands behind the data length.
pub record IsWire (f : Frame) : Type 0 where
  pub short : f.data_length ≤ 8
  pub standard : f.arbitration_id < 2 ^ 11
  pub tail : copied f.data_length f.payload ≡ f.payload

through_mask : (x : ℕ) → x < 2 ^ 11 → bit_and (bit_and x 0x7FF) 0x7FF % 2 ^ 16 ≡ x
through_mask x h =
    let low : bit_and x 0x7FF ≡ x = omega (arith, and_sff_mask x) in rw (low, low) (omega arith)

copied_twice : (n : ℕ) (bytes : List ℕ) → copied n bytes ≡ bytes → copied n (copied n bytes) ≡ bytes
copied_twice n bytes e = rw (e, e)

-- A frame that fits the drives' bus is sent by an open transport, and received as it was sent.
drive_receive-send :
    (t u : Transport) (f : Frame)
    → IsWire f
    → is_open t ≡ true
    → is_open u ≡ true
    → (send t f true ≡ Sent.sent (socket_frame f))
      × (receive u Poll.input (some (socket_frame f)) ≡ Received.frame f)
unfolding send receive socket_frame frame_of
drive_receive-send t u f w ot ou = ground (
  arith,
  through_mask f.arbitration_id w.standard,
  copied_twice f.data_length f.payload w.tail,
  w.short,
)
