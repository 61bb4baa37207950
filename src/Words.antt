-- ===== src/Words.antt =====
-- Little-endian words in a CAN payload: `detail::PutLe` and `detail::GetLe` of
-- ros2_ws/src/pxx/include/pxx/can.hpp, the casts between `int32_t` and `uint32_t`, and the masks.
-- The byte loops of ros2_ws/src/odesc/include/odesc/can.hpp are the same loops at offset 0 or 4.
pub mod Laws
pub mod Masks
use billee_software.Prelude.{
  ℕ, zero, suc, ◌+◌, ◌-◌, ◌*◌, ◌/◌, ◌%◌, ◌^◌, bit_or, List, ltb, if◌then◌else◌, get_or, set,
}
use billee_software.Prelude.Int.{ℤ, pos, negsuc}

-- Iterations `i`, `i + 1`, ... of the loop, `left` of them.
put_le_from : List ℕ → ℕ → ℕ → ℕ → ℕ → List ℕ
put_le_from bytes offset value i zero = bytes
put_le_from bytes offset value i (suc left) =
    put_le_from (set bytes (offset + i) (value / 2 ^ (i * 8) % 2 ^ 8)) offset value (i + 1) left

unfoldable pub put_le : List ℕ → ℕ → ℕ → ℕ → List ℕ
unfolding put_le_from
put_le bytes offset value count = put_le_from bytes offset value 0 count

get_le_from : List ℕ → ℕ → ℕ → ℕ → ℕ → ℕ
get_le_from bytes offset value i zero = value
get_le_from bytes offset value i (suc left) =
    get_le_from bytes offset (bit_or value ((get_or bytes (offset + i) 0 * 2 ^ (i * 8)) % 2 ^ 32))
      (i + 1) left

unfoldable pub get_le : List ℕ → ℕ → ℕ → ℕ
unfolding get_le_from
get_le bytes offset count = get_le_from bytes offset 0 0 count

-- `static_cast<std::int32_t>` of a `uint32_t`.
abbrev pub to_int32 : ℕ → ℤ
to_int32 w = if ltb w (2 ^ 31) then pos w else negsuc (2 ^ 32 - w - 1)

-- `static_cast<std::uint32_t>` of an `int32_t`.
abbrev pub to_uint32 : ℤ → ℕ
to_uint32 (pos n) = n % 2 ^ 32
to_uint32 (negsuc n) = 2 ^ 32 - 1 - n % 2 ^ 32
