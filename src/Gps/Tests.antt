-- ===== src/Gps/Tests.antt =====
-- A position and a covariance of one time come in, and are published together.
use billee_software.Prelude.{
  zero, suc, false, ℕ, ◌≡◌, refl, ◌↔◌, ◌⊎◌, true, none, some, List, [], ◌∷◌, ◌++◌, arith, length,
  replicate,
}
use billee_software.Prelude.Int.{ℤ, pos, negsuc}
use billee_software.Whole.{whole_double, negative}
use billee_software.Gps.Node.Covariance.{Conversion, construct_gps_msg-Conversion}
use billee_software.Gps.Payload.{PosPayload, CovPayload, pos_of_bytes, cov_of_bytes}
use billee_software.Gps.Payload.Laws.{layout, pos_fields, cov_fields, payloads-layout}
use billee_software.Gps.Device.{open_device, read_msg as device_read}
use billee_software.Gps.Device.Laws.{IsOwned}
use billee_software.Gps.Node.{
  may_publish, destroy_gps, fresh_gps, Gps, Answers, message_id, pos_id, cov_id, run, read_msg,
  construct_gps_msg,
}
use billee_software.Gps.Node.Owned.{run-IsOwned}
use billee_software.Gps.Node.Frames.{message_id_lem}
use billee_software.Gps.Node.Received.{IsPairing, positions, covariances}
use billee_software.Gps.Node.Offered.{offered, waiting}
use billee_software.Gps.Node.Pairs.{run-IsPairing}

abbrev position : PosPayload
position = record {
  i_tow = 500;
  longitude = negsuc 809999999;
  latitude = pos 280000000;
  height = pos 30000;
  h_msl = 29000;
  h_acc = 14;
  v_acc = 20;
}

abbrev covariance : CovPayload
covariance = record {
  i_tow = 500;
  version = 0;
  pos_cov_valid = 1;
  vel_cov_valid = 0;
  padding_a = 0;
  padding_b = 0;
  pos_cov_nn = 1;
  pos_cov_ne = 2;
  pos_cov_nd = 3;
  pos_cov_ee = 4;
  pos_cov_ed = 5;
  pos_cov_dd = 6;
  vel_cov_nn = 0;
  vel_cov_ne = 0;
  vel_cov_nd = 0;
  vel_cov_ee = 0;
  vel_cov_ed = 0;
  vel_cov_dd = 0;
}

payloads-layout_example :
    (pos_of_bytes (layout (pos_fields position) ++ 7 ∷ []) ≡ position)
    × (cov_of_bytes (layout (cov_fields covariance) ++ 7 ∷ []) ≡ covariance)
    × (length (layout (pos_fields position)) ≡ 28)
    × (length (layout (cov_fields covariance)) ≡ 64)
payloads-layout_example =
    payloads-layout position covariance (7 ∷ []) (omega arith, omega arith)
      (omega arith, omega arith) (omega arith, omega arith) (ground arith) (ground arith)

abbrev sync : ℕ
sync = 0xb5

abbrev sync' : ℕ
sync' = 0x62

abbrev class : ℕ
class = 0x01

abbrev kind : ℕ
kind = 0x36

message_id_lem_example : (message_id (sync ∷ sync' ∷ class ∷ kind ∷ []) ≡ some pos_id) ↔ (
    (sync ≡ 0xb5)
    × (sync' ≡ 0x62)
    × (kind ≡ 0x36)
    × (((class ≡ 0x01) × (pos_id ≡ pos_id)) ⊎ ((class ≡ 0x29) × (pos_id ≡ cov_id))))
message_id_lem_example = message_id_lem sync sync' class kind [] (ground arith) pos_id

abbrev start : Gps ℤ
start = fresh_gps

abbrev answers : List Answers
answers =
    record {
      opened = some 3;
      configured = true;
      bytes = some (0xb5 ∷ 0x62 ∷ 0x01 ∷ 0x36 ∷ layout (pos_fields position));
      buffer = replicate 128 0;
      stored_at = 1;
      now = 2;
    }
    ∷ record {
      opened = some 3;
      configured = true;
      bytes = some (0xb5 ∷ 0x62 ∷ 0x29 ∷ 0x36 ∷ layout (cov_fields covariance));
      buffer = replicate 128 0;
      stored_at = 3;
      now = 4;
    }
    ∷ []

run-IsPairing_example :
    IsPairing start
      (run (λ x. x) (pos 60) answers start)
      (offered (λ x. x) (pos 60) answers (waiting start))
      (positions answers)
      (covariances answers)
    × (may_publish (run (λ x. x) (pos 60) answers start) ≡ false)
run-IsPairing_example = run-IsPairing (λ x. x) (pos 60) answers start refl

published_once : length (run (λ x. x) (pos 60) answers start).published ≡ 1
unfolding run read_msg device_read open_device pos_of_bytes cov_of_bytes
published_once = refl

run-IsOwned_example :
    IsOwned (run (λ x. x) (pos 60) answers start).device
    × (destroy_gps (run (λ x. x) (pos 60) answers start) ≡ none)
run-IsOwned_example = run-IsOwned (λ x. x) (pos 60) answers

neg-neg : (x : ℤ) → negative (negative x) ≡ x
neg-neg (pos zero) = refl
neg-neg (pos (suc n)) = refl
neg-neg (negsuc n) = refl

construct_gps_msg-Conversion_example :
    Conversion {D = ℤ} true covariance (construct_gps_msg position covariance)
construct_gps_msg-Conversion_example = construct_gps_msg-Conversion neg-neg position covariance
