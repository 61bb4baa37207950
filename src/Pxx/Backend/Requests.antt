-- ===== src/Pxx/Backend/Requests.antt =====
-- What the host's frames carry, against the reading of a request in `sdo_transaction`
-- (ros2_ws/src/pxx/src/socketcan_motor_backend.cpp) and of an `int32_t` in
-- ros2_ws/src/pxx/include/pxx/can.hpp.
use billee_software.Prelude.{
  ℕ, suc, zero, ◌+◌, ◌*◌, ◌-◌, ◌/◌, ◌%◌, ◌^◌, ◌≤◌, ◌<◌, ◌≡◌, refl, bit_and, bit_or, arith, ◌∙◌, ap,
}
use billee_software.Prelude.Int.{ℤ, pos, negsuc, ◌≤ℤ◌}
use billee_software.Prelude.Bits.{or_low_high}
use billee_software.Words.{put_le, get_le, to_int32, to_uint32}
use billee_software.Words.Laws.{
  get_le_low, get_le_high, word_bytes, to_uint32-lt, to_int32-to_uint32,
}
use billee_software.Words.Masks.{and_node_mask}
use billee_software.Pxx.Can.{
  Frame, make_sdo_write_frame, make_sdo_read_frame, make_target_position_frame,
}
use billee_software.Pxx.Can.Cob
use billee_software.Pxx.Backend.{request_node, request_index, request_subindex}

index_bytes :
    (index : ℕ)
    → index < 2 ^ 16
    → bit_or (index / 2 ^ 0 % 2 ^ 8) ((index / 2 ^ 8 % 2 ^ 8) * 2 ^ 8) % 2 ^ 16 ≡ index
index_bytes index h =
    omega (arith, or_low_high 8 (index / 2 ^ 0 % 2 ^ 8) (index / 2 ^ 8 % 2 ^ 8) (omega arith))

node_bits : (node : ℕ) → node ≤ 127 → bit_and (Cob.rsdo + node) 0x7F % 2 ^ 8 ≡ node
node_bits node h = omega (arith, and_node_mask (Cob.rsdo + node))

-- The object that a frame names, as the transaction reads it back.
abbrev pub Names : Frame → ℕ → ℕ → ℕ → Type 0
Names f node index subindex =
    (request_node f ≡ node) × (request_index f ≡ index) × (request_subindex f ≡ subindex)

abbrev value_of : Frame → ℕ
value_of f = get_le f.payload 4 4

write_frame_value :
    (node index subindex value size : ℕ)
    → index < 2 ^ 16
    → subindex < 2 ^ 8
    → 1 ≤ size
    → size ≤ 4
    → value_of (make_sdo_write_frame node index subindex value size) ≡ value % 2 ^ (8 * size)
unfolding make_sdo_write_frame put_le
write_frame_value node index subindex value zero hi hs h1 h4 = absurd (omega arith)
write_frame_value node index subindex value (suc zero) hi hs h1 h4 =
    get_le_high _ _ _ _ _ _ _ _ (
      omega arith,
      (
        omega arith,
        (omega arith, (hs, (omega arith, (omega arith, (omega arith, (omega arith, tt)))))),
      ),
    )
    ∙ omega arith
write_frame_value node index subindex value (suc (suc zero)) hi hs h1 h4 =
    get_le_high _ _ _ _ _ _ _ _ (
      omega arith,
      (
        omega arith,
        (omega arith, (hs, (omega arith, (omega arith, (omega arith, (omega arith, tt)))))),
      ),
    )
    ∙ omega arith
write_frame_value node index subindex value (suc (suc (suc zero))) hi hs h1 h4 =
    get_le_high _ _ _ _ _ _ _ _ (
      omega arith,
      (
        omega arith,
        (omega arith, (hs, (omega arith, (omega arith, (omega arith, (omega arith, tt)))))),
      ),
    )
    ∙ omega arith
write_frame_value node index subindex value (suc (suc (suc (suc zero)))) hi hs h1 h4 =
    get_le_high _ _ _ _ _ _ _ _ (
      omega arith,
      (
        omega arith,
        (omega arith, (hs, (omega arith, (omega arith, (omega arith, (omega arith, tt)))))),
      ),
    )
    ∙ omega arith
write_frame_value node index subindex value (suc (suc (suc (suc (suc n))))) hi hs h1 h4 =
    absurd (omega arith)

write_frame-Names :
    (node index subindex value size : ℕ)
    → node ≤ 127
    → index < 2 ^ 16
    → 1 ≤ size
    → size ≤ 4
    → Names (make_sdo_write_frame node index subindex value size) node index subindex
unfolding make_sdo_write_frame put_le
write_frame-Names node index subindex value zero hn hi h1 h4 = absurd (omega arith)
write_frame-Names node index subindex value (suc zero) hn hi h1 h4 =
    (node_bits node hn, index_bytes index hi, refl)
write_frame-Names node index subindex value (suc (suc zero)) hn hi h1 h4 =
    (node_bits node hn, index_bytes index hi, refl)
write_frame-Names node index subindex value (suc (suc (suc zero))) hn hi h1 h4 =
    (node_bits node hn, index_bytes index hi, refl)
write_frame-Names node index subindex value (suc (suc (suc (suc zero)))) hn hi h1 h4 =
    (node_bits node hn, index_bytes index hi, refl)
write_frame-Names node index subindex value (suc (suc (suc (suc (suc n))))) hn hi h1 h4 =
    absurd (omega arith)

pub make_sdo_read_frame-Names :
    (node index subindex : ℕ)
    → node ≤ 127
    → index < 2 ^ 16
    → Names (make_sdo_read_frame node index subindex) node index subindex
unfolding make_sdo_read_frame put_le
make_sdo_read_frame-Names node index subindex hn hi =
    (node_bits node hn, index_bytes index hi, refl)

-- The drive reads the target position that the host wrote, if an `int32_t` holds it.
pub get_le-make_target_position_frame :
    (node : ℕ) (target : ℤ)
    → negsuc (2 ^ 31 - 1) ≤ℤ target
    → target ≤ℤ pos (2 ^ 31 - 1)
    → to_int32 (get_le (make_target_position_frame node target).payload 0 4) ≡ target
unfolding make_target_position_frame put_le
get_le-make_target_position_frame node target lo hi =
    let w = to_uint32 target in
    let bytes = get_le_low _ _ _ _ 0 0 0 0 (
      omega arith,
      (
        omega arith,
        (
          omega arith,
          (omega arith, (omega arith, (omega arith, (omega arith, (omega arith, tt))))),
        ),
      ),
    ) in
    ap to_int32 (bytes ∙ word_bytes w (to_uint32-lt target)) ∙ to_int32-to_uint32 target lo hi

-- An SDO write of 1 to 4 bytes to a node from 0 to 127 names its object: the transaction reads back
-- the node, the index and the subindex that the caller gave, and the data bytes hold the value,
-- cut to the size.
pub make_sdo_write_frame-Names :
    (node index subindex value size : ℕ)
    → node ≤ 127
    → index < 2 ^ 16
    → subindex < 2 ^ 8
    → 1 ≤ size
    → size ≤ 4
    → let f = make_sdo_write_frame node index subindex value size in
      Names f node index subindex × (get_le f.payload 4 4 ≡ value % 2 ^ (8 * size))
make_sdo_write_frame-Names node index subindex value size hn hi hs h1 h4 = (
  write_frame-Names node index subindex value size hn hi h1 h4,
  write_frame_value node index subindex value size hi hs h1 h4,
)
