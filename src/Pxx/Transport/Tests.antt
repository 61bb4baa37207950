-- ===== src/Pxx/Transport/Tests.antt =====
-- The laws of the arm's transport, at one frame and one `open`.
use billee_software.Prelude.{◌≡◌, refl, false, some, [], ◌∷◌, arith}
use billee_software.Toy.{toy_opens}
use billee_software.Pxx.Can.{Frame}
use billee_software.Pxx.Transport.{Transport, Poll, Received, open_on, socket_frame, send, receive}
use billee_software.Pxx.Transport.Laws.{IsWire, Opened, owned, open_on-owned, receive-send}

abbrev opened : Transport
opened = record { fd = some 3; closed = [] }

abbrev sync : Frame
sync = record {
  arbitration_id = 0x80;
  extended = false;
  data_length = 0;
  payload = 0 ∷ 0 ∷ 0 ∷ 0 ∷ 0 ∷ 0 ∷ 0 ∷ 0 ∷ [];
}

sync-IsWire : IsWire sync
sync-IsWire = record {
  short = omega arith;
  standard = λ e. omega arith;
  long = λ e. cc;
  tail = refl;
}

receive-send_example : receive opened Poll.input (some (socket_frame sync)) ≡ Received.frame sync
unfolding send
receive-send_example = receive-send opened opened sync (socket_frame sync) sync-IsWire refl refl

open_on-owned_example :
    let (e, t) = open_on toy_opens opened in (owned t ≡ 3 ∷ 3 ∷ []) × Opened (some 3) e t
open_on-owned_example = open_on-owned toy_opens opened
