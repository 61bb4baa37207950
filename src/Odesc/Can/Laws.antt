-- ===== src/Odesc/Can/Laws.antt =====
-- Round trips of the identifiers and of the data bytes.
use billee_software.Prelude.{
  ℕ, get_elem?, ap, List, length, zero, suc, ◌+◌, ◌*◌, ◌/◌, ◌%◌, ◌^◌, ◌<◌, ◌≡◌, ◌∙◌, some, [], ◌∷◌,
  arith, All, bit_and,
}
use billee_software.Prelude.Bits.{or_high_low}
use billee_software.Words.{put_le}
use billee_software.Words.Laws.{get_le_low, get_le_high, word_bytes}
use billee_software.Words.Masks.{and_command_mask, and_max_node_id}
use billee_software.Odesc.Can.Commands.{Command, command_code, commands, get_elem?-command_code}
use billee_software.Odesc.Can.{
  ArbitrationId, make_arbitration_id, parse_arbitration_id, make_input_velocity_frame,
  parse_encoder_estimate,
}

make_arbitration_id_lem :
    (node command : ℕ)
    → node < 64
    → command < 32
    → make_arbitration_id node command ≡ node * 2 ^ 5 + command
unfolding make_arbitration_id
make_arbitration_id_lem node command hn hc =
    let low : bit_and command 0x1F ≡ command = omega (arith, and_command_mask command) in
    rw low (omega (arith, or_high_low 5 node command hc))

parse_arbitration_id_lem :
    (id : ℕ) → parse_arbitration_id id ≡ record { node_id = id / 32 % 64; command_id = id % 32 }
unfolding parse_arbitration_id
parse_arbitration_id_lem id =
    rw (and_max_node_id (id / 2 ^ 5), and_command_mask id) (cong2 (omega arith) (omega arith))
  where
    cong2 :
        {a b c d : ℕ}
        → a ≡ c
        → b ≡ d
        → ◌≡◌ {A = ArbitrationId}
            (record { node_id = a; command_id = b })
            (record { node_id = c; command_id = d })
    cong2 p q = cc

-- Every identifier names one of 64 nodes and one of 32 commands.
pub parse_arbitration_id-bounds :
    (id : ℕ) → let p = parse_arbitration_id id in (p.node_id < 64) × (p.command_id < 32)
parse_arbitration_id-bounds id = rw (parse_arbitration_id_lem id) (omega arith)

-- A node number and a command survive the identifier, which fits 11 bits.
parse-make_arbitration_id :
    (node command : ℕ)
    → node < 64
    → command < 32
    → (parse_arbitration_id (make_arbitration_id node command)
        ≡ record { node_id = node; command_id = command })
      × (make_arbitration_id node command < 2 ^ 11)
parse-make_arbitration_id node command hn hc =
    let it = make_arbitration_id_lem node command hn hc in
    (
      ground (arith, parse_arbitration_id_lem (make_arbitration_id node command), it),
      omega (arith, it),
    )

within : {A : Type 0} (xs : List A) (i : ℕ) (x : A) → get_elem? xs i ≡ some x → i < length xs
within [] i x e = cc e
within (y ∷ ys) zero x e = omega arith
within (y ∷ ys) (suc i) x e = omega (arith, within ys i x e)

command_code-lt : (c : Command) → command_code c < 32
command_code-lt c =
    let inside = within commands (command_code c) c (get_elem?-command_code c) in
    omega (arith, inside)

-- A node number below 64 and a command of the enumeration survive the identifier, which fits 11
-- bits: both are parsed back, and the parsed command is the code of no other one.
pub make_arbitration_id-Command :
    (node : ℕ) (command : Command)
    → node < 64
    → let id = make_arbitration_id node (command_code command) in
      let parsed = parse_arbitration_id id in
      (parsed.node_id ≡ node)
      × (get_elem? commands parsed.command_id ≡ some command)
      × (id < 2 ^ 11)
make_arbitration_id-Command node command h =
    let (same, fits) =
      parse-make_arbitration_id node (command_code command) h (command_code-lt command) in
    (
      ap (λ p. p.node_id) same,
      ap (λ p. get_elem? commands p.command_id) same ∙ get_elem?-command_code command,
      fits,
    )

-- An identifier of 11 bits is made again from what it is parsed to.
make-parse_arbitration_id :
    (id : ℕ)
    → id < 2 ^ 11
    → let p = parse_arbitration_id id in make_arbitration_id p.node_id p.command_id ≡ id
make-parse_arbitration_id id h =
    rw (parse_arbitration_id_lem id)
      (omega (arith, make_arbitration_id_lem (id / 32 % 64) (id % 32) (omega arith) (omega arith)))

-- The drive reads the velocity's bits that the host wrote, and a torque of zero.
pub parse-make_input_velocity_frame :
    (node bits : ℕ)
    → bits < 2 ^ 32
    → parse_encoder_estimate (make_input_velocity_frame node bits)
      ≡ some (record { position_turns = bits; velocity_turns_s = 0 })
unfolding parse_encoder_estimate make_input_velocity_frame put_le
parse-make_input_velocity_frame node bits h =
    let small : All (λ x. x < 256)
        ((bits / 2 ^ 0 % 2 ^ 8)
          ∷ (bits / 2 ^ 8 % 2 ^ 8)
          ∷ (bits / 2 ^ 16 % 2 ^ 8)
          ∷ (bits / 2 ^ 24 % 2 ^ 8)
          ∷ 0
          ∷ 0
          ∷ 0
          ∷ 0
          ∷ []) =
      (
        omega arith,
        (
          omega arith,
          (
            omega arith,
            (omega arith, (omega arith, (omega arith, (omega arith, (omega arith, tt))))),
          ),
        ),
      ) in
    let low = get_le_low _ _ _ _ 0 0 0 0 small ∙ word_bytes bits h in
    let high = get_le_high _ _ _ _ 0 0 0 0 small in ground (arith, low, high)
