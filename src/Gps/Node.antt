-- ===== src/Gps/Node.antt =====
-- `Gps`, ros2_ws/src/comms/src/GpsNode.cpp. A time is a number of nanoseconds. What is published is
-- kept, oldest first. `tol_sec`, which the code never sets, is an argument of the callback.
pub mod Covariance
pub mod Frames
pub mod Received
pub mod Offered
pub mod Pairs
pub mod Owned
use Prim.Native.Nat.{bit_xor}
use billee_software.Prelude.{
  ℕ, ◌+◌, ◌-◌, ◌*◌, ◌/◌, ◌%◌, ◌^◌, Bool, true, false, ◌&&◌, ◌||◌, not, Option, none, some, List, [],
  ◌∷◌, ◌++◌, ◌==◌, leb, if◌then◌else◌, get_or, take, drop, replicate, bit_or, bit_and,
}
use billee_software.Prelude.Int.{ℤ, pos, negsuc}
use billee_software.Double.{Double, zero_d}
use billee_software.Gps.Device.{SerialDevice, fresh, destroy, open_device, read_msg as device_read}
use billee_software.Gps.Payload.{
  PosPayload, CovPayload, pos_of_fields, cov_of_fields, pos_of_bytes, cov_of_bytes,
}

abbrev pub valid_header : ℕ
valid_header = 0xb562

abbrev pub pos_id : ℕ
pos_id = 0x0136

abbrev pub cov_id : ℕ
cov_id = 0x2936

abbrev pub pos_size : ℕ
pos_size = 28

abbrev pub cov_size : ℕ
cov_size = 64

-- HEADER_SZ / 8.
abbrev pub header_bytes : ℕ
header_bytes = 4

pub data CovarianceType : Type 0 where
  unknown known : CovarianceType

pub record NavSatFix (D : Type 0) : Type 0 where
  pub longitude : D
  pub latitude : D
  pub altitude : D
  pub position_covariance : List D
  pub position_covariance_type : CovarianceType

pub record Gps (D : Type 0) : Type 0 where
  pub device : SerialDevice
  pub pending_pos : PosPayload
  pub pending_cov : CovPayload
  pub has_pos : Bool
  pub has_cov : Bool
  pub pos_ts : ℕ
  pub cov_ts : ℕ
  pub published : List (NavSatFix D)

-- What one callback of the timer is answered: by `open`, `tcsetattr` and `read`, by the clock when a
-- message is stored and at the end; and what its buffer holds before, which is not initialised.
pub record Answers : Type 0 where
  pub opened : Option ℕ
  pub configured : Bool
  pub bytes : Option (List ℕ)
  pub buffer : List ℕ
  pub stored_at : ℕ
  pub now : ℕ

-- The first four bytes.
unfoldable pub header_of : List ℕ → ℕ
header_of buffer =
    bit_or
      (bit_or (bit_or (get_or buffer 0 0 * 2 ^ 24) (get_or buffer 1 0 * 2 ^ 16))
        (get_or buffer 2 0 * 2 ^ 8))
      (get_or buffer 3 0)

-- The two tests of the header; `none` is -1.
unfoldable pub message_id : List ℕ → Option ℕ
unfolding header_of
message_id buffer =
    let header = header_of buffer in
    let msg_header = header / 2 ^ 16 in
    let msg_id = bit_and header 0xFFFF in
    if bit_xor msg_header valid_header == 0
    then (if (msg_id == cov_id) || (msg_id == pos_id) then some msg_id else none)
    else none

-- `readMsg`: the identifier, with the device and the buffer afterwards. A count of 0 is no message.
unfoldable pub read_msg : Answers → SerialDevice → Option ℕ × SerialDevice × List ℕ
unfolding message_id
read_msg a device =
    let (_, device') = open_device a.opened a.configured device in
    let (count, buffer) = device_read a.bytes device' a.buffer in
    (if count == 0 then none else message_id buffer, device', buffer)

-- `stamp - previous`, signed.
abbrev pub minus : ℕ → ℕ → ℤ
minus a b = if leb b a then pos (a - b) else negsuc (b - a - 1)

-- The constructor; the payloads are all 0, and the device's name is a literal, not from `new`.
abbrev pub fresh_gps : {D : Type 0} → Gps D
fresh_gps = record {
  device = fresh false;
  pending_pos = pos_of_fields [];
  pending_cov = cov_of_fields [];
  has_pos = false;
  has_cov = false;
  pos_ts = 0;
  cov_ts = 0;
  published = [];
}

-- The destructor, with that of the device; `none` is undefined behaviour.
unfoldable pub destroy_gps : {D : Type 0} → Gps D → Option (Gps D)
destroy_gps s = elim (destroy s.device) [ none ↦ none | some t ↦ some (record s { device = t }) ]

module _ {D : Type 0} ⦃d : Double D⦄ where
  open d use {decimal, of_int, mul, neg, lt, of_float_bits}

  abbrev signed_part : ℕ → D
  signed_part bits = neg (of_float_bits bits)

  -- The negation is that of a `float`, which widening does not change.
  unfoldable pub construct_gps_msg : PosPayload → CovPayload → NavSatFix D
  construct_gps_msg p c =
      let known = not (c.pos_cov_valid == 0) in
      record {
        longitude = mul (of_int p.longitude) (decimal (pos 1) 7);
        latitude = mul (of_int p.latitude) (decimal (pos 1) 7);
        altitude = mul (of_int p.height) (decimal (pos 1) 3);
        position_covariance =
            if known
            then of_float_bits c.pos_cov_ee
              ∷ of_float_bits c.pos_cov_ne
              ∷ signed_part c.pos_cov_ed
              ∷ of_float_bits c.pos_cov_ne
              ∷ of_float_bits c.pos_cov_nn
              ∷ signed_part c.pos_cov_nd
              ∷ signed_part c.pos_cov_ed
              ∷ signed_part c.pos_cov_nd
              ∷ signed_part c.pos_cov_dd
              ∷ []
            else replicate 9 zero_d;
        position_covariance_type = if known then CovarianceType.known else CovarianceType.unknown;
      }

  -- `memcpy` from the fifth byte on, the flag, and the time.
  abbrev pub store_pos : ℕ → List ℕ → Gps D → Gps D
  store_pos time buffer s = record s {
    pending_pos = pos_of_bytes (take pos_size (drop header_bytes buffer));
    has_pos = true;
    pos_ts = time;
  }

  abbrev pub store_cov : ℕ → List ℕ → Gps D → Gps D
  store_cov time buffer s = record s {
    pending_cov = cov_of_bytes (take cov_size (drop header_bytes buffer));
    has_cov = true;
    cov_ts = time;
  }

  -- The tests of `pollMsgs`.
  unfoldable pub store : ℕ → List ℕ → Option ℕ → Gps D → Gps D
  store time buffer none s = s
  store time buffer (some id) s =
      if id == pos_id
      then store_pos time buffer s
      else if id == cov_id
      then store_cov time buffer s
      else s

  unfoldable pub poll_msgs : Answers → Gps D → Gps D
  unfolding read_msg store
  poll_msgs a s =
      let (id, device, buffer) = read_msg a s.device in
      store a.stored_at buffer id (record s { device = device })

  -- A position and a covariance of one time are published together.
  abbrev pub may_publish : Gps D → Bool
  may_publish s = (s.has_pos && s.has_cov) && (s.pending_pos.i_tow == s.pending_cov.i_tow)

  abbrev pub sent : Gps D → Gps D
  sent s = record s {
    published = s.published ++ construct_gps_msg s.pending_pos s.pending_cov ∷ [];
    has_pos = false;
    has_cov = false;
  }

  unfoldable pub publish_pair : Gps D → Gps D
  publish_pair s = if may_publish s then sent s else s

  module _ (seconds : ℤ → D) (tol_sec : ℤ) where
    abbrev is_late : ℕ → ℕ → Bool
    is_late now stored = lt (of_int tol_sec) (seconds (minus now stored))

    abbrev pub must_forget : ℕ → Gps D → Bool
    must_forget now s = (s.has_pos && is_late now s.pos_ts) || (s.has_cov && is_late now s.cov_ts)

    -- The end of the callback: what has waited too long is forgotten.
    unfoldable pub forget_late : ℕ → Gps D → Gps D
    forget_late now s =
        if must_forget now s then record s { has_pos = false; has_cov = false } else s

    unfoldable pub timer_callback : Answers → Gps D → Gps D
    unfolding poll_msgs publish_pair forget_late
    timer_callback a s = forget_late a.now (publish_pair (poll_msgs a s))

    unfoldable pub run : List Answers → Gps D → Gps D
    unfolding timer_callback
    run [] s = s
    run (a ∷ answers) s = run answers (timer_callback a s)
