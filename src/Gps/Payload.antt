-- ===== src/Gps/Payload.antt =====
-- The packed structs of ros2_ws/src/comms/include/comms/Gps.hpp, whose fields lie one after the other
-- with their lowest byte first. A `float` is its 32 bits.
pub mod Laws
use billee_software.Prelude.{
  ℕ, zero, suc, ◌+◌, ◌*◌, ◌/◌, ◌%◌, List, [], ◌∷◌, ◌++◌, get_or, drop, replicate,
}
use billee_software.Prelude.Int.{ℤ}
use billee_software.Words.{to_int32}

pub record PosPayload : Type 0 where
  pub i_tow : ℕ
  pub longitude : ℤ
  pub latitude : ℤ
  pub height : ℤ
  pub h_msl : ℕ
  pub h_acc : ℕ
  pub v_acc : ℕ

pub record CovPayload : Type 0 where
  pub i_tow : ℕ
  pub version : ℕ
  pub pos_cov_valid : ℕ
  pub vel_cov_valid : ℕ
  pub padding_a : ℕ
  pub padding_b : ℕ
  pub pos_cov_nn : ℕ
  pub pos_cov_ne : ℕ
  pub pos_cov_nd : ℕ
  pub pos_cov_ee : ℕ
  pub pos_cov_ed : ℕ
  pub pos_cov_dd : ℕ
  pub vel_cov_nn : ℕ
  pub vel_cov_ne : ℕ
  pub vel_cov_nd : ℕ
  pub vel_cov_ee : ℕ
  pub vel_cov_ed : ℕ
  pub vel_cov_dd : ℕ

-- The number in the first `width` bytes.
pub read_le : ℕ → List ℕ → ℕ
read_le zero bytes = 0
read_le (suc width) [] = 0
read_le (suc width) (b ∷ bytes) = b + 256 * read_le width bytes

-- The fields of the given widths.
pub fields : List ℕ → List ℕ → List ℕ
unfolding read_le
fields [] bytes = []
fields (width ∷ widths) bytes = read_le width bytes ∷ fields widths (drop width bytes)

abbrev pub pos_widths : List ℕ
pos_widths = replicate 7 4

abbrev pub cov_widths : List ℕ
cov_widths = 4 ∷ 1 ∷ 1 ∷ 1 ∷ 8 ∷ 1 ∷ replicate 12 4

abbrev pub pos_of_fields : List ℕ → PosPayload
pos_of_fields values = record {
  i_tow = get_or values 0 0;
  longitude = to_int32 (get_or values 1 0);
  latitude = to_int32 (get_or values 2 0);
  height = to_int32 (get_or values 3 0);
  h_msl = get_or values 4 0;
  h_acc = get_or values 5 0;
  v_acc = get_or values 6 0;
}

abbrev pub cov_of_fields : List ℕ → CovPayload
cov_of_fields values = record {
  i_tow = get_or values 0 0;
  version = get_or values 1 0;
  pos_cov_valid = get_or values 2 0;
  vel_cov_valid = get_or values 3 0;
  padding_a = get_or values 4 0;
  padding_b = get_or values 5 0;
  pos_cov_nn = get_or values 6 0;
  pos_cov_ne = get_or values 7 0;
  pos_cov_nd = get_or values 8 0;
  pos_cov_ee = get_or values 9 0;
  pos_cov_ed = get_or values 10 0;
  pos_cov_dd = get_or values 11 0;
  vel_cov_nn = get_or values 12 0;
  vel_cov_ne = get_or values 13 0;
  vel_cov_nd = get_or values 14 0;
  vel_cov_ee = get_or values 15 0;
  vel_cov_ed = get_or values 16 0;
  vel_cov_dd = get_or values 17 0;
}

-- `memcpy` of bytes over a payload.
unfoldable pub pos_of_bytes : List ℕ → PosPayload
unfolding fields
pos_of_bytes bytes = pos_of_fields (fields pos_widths bytes)

unfoldable pub cov_of_bytes : List ℕ → CovPayload
unfolding fields
cov_of_bytes bytes = cov_of_fields (fields cov_widths bytes)
