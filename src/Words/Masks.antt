-- ===== src/Words/Masks.antt =====
-- The masks of the two CAN protocols and of SocketCAN, as arithmetic.
use billee_software.Prelude.{ℕ, ◌*◌, ◌/◌, ◌%◌, ◌^◌, ◌≡◌, bit_and, arith}
use billee_software.Prelude.Bits.{and_by_fields}

-- `cob::kNodeMask`.
pub and_node_mask : (a : ℕ) → bit_and a 0x7F ≡ a % 128
and_node_mask a =
    omega
      (arith, and_by_fields 0 7 a (a / 128) (a % 128) 0 (omega arith) (omega arith) (omega arith))

-- `cob::kFunctionMask`.
pub and_function_mask : (a : ℕ) → bit_and a 0x780 ≡ (a / 128 % 16) * 128
and_function_mask a = omega (
  arith,
  and_by_fields 7 4 a (a / 2048) (a / 128 % 16) (a % 128) (omega arith) (omega arith) (omega arith),
)

-- `CAN_SFF_MASK`.
pub and_sff_mask : (a : ℕ) → bit_and a 0x7FF ≡ a % 2048
and_sff_mask a =
    omega (
      arith,
      and_by_fields 0 11 a (a / 2048) (a % 2048) 0 (omega arith) (omega arith) (omega arith),
    )

-- `CAN_EFF_MASK`.
pub and_eff_mask : (a : ℕ) → bit_and a 0x1FFFFFFF ≡ a % 2 ^ 29
and_eff_mask a = omega (
  arith,
  and_by_fields 0 29 a (a / 2 ^ 29) (a % 2 ^ 29) 0 (omega arith) (omega arith) (omega arith),
)

-- `CAN_EFF_FLAG`.
pub and_eff_flag : (a : ℕ) → bit_and a 0x80000000 ≡ (a / 2 ^ 31 % 2) * 2 ^ 31
and_eff_flag a = omega (
  arith,
  and_by_fields 31 1 a (a / 2 ^ 32) (a / 2 ^ 31 % 2) (a % 2 ^ 31) (omega arith) (omega arith)
      (omega arith),
)

-- The command number and the node number of an ODrive identifier.
pub and_command_mask : (a : ℕ) → bit_and a 0x1F ≡ a % 32
and_command_mask a =
    omega (arith, and_by_fields 0 5 a (a / 32) (a % 32) 0 (omega arith) (omega arith) (omega arith))

pub and_max_node_id : (a : ℕ) → bit_and a 0x3F ≡ a % 64
and_max_node_id a =
    omega (arith, and_by_fields 0 6 a (a / 64) (a % 64) 0 (omega arith) (omega arith) (omega arith))
