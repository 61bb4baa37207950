-- ===== src/Vio/Seed.antt =====
-- The seeds of the random streams: `fnv1a` and `stream_seed` of
-- ros2_ws/src/perception/zed2i/src/synthetic_vio_node.cpp. A `std::string` is its bytes.
pub mod Laws
use Prim.Native.Nat.{bit_xor}
use billee_software.Prelude.{ℕ, ◌+◌, ◌*◌, ◌/◌, ◌%◌, ◌^◌, List, [], ◌∷◌}

-- The loop over the characters, from `value`.
pub fnv1a_from : ℕ → List ℕ → ℕ
fnv1a_from value [] = value
fnv1a_from value (character ∷ text) =
    fnv1a_from (bit_xor value character * 1099511628211 % 2 ^ 64) text

unfoldable pub fnv1a : List ℕ → ℕ
unfolding fnv1a_from
fnv1a text = fnv1a_from 14695981039346656037 text

-- One round of the finalizer: `(value ^ (value >> shift)) * factor`.
abbrev pub finalizer_round : ℕ → ℕ → ℕ → ℕ
finalizer_round shift factor value = bit_xor value (value / 2 ^ shift) * factor % 2 ^ 64

unfoldable pub stream_seed : ℕ → List ℕ → ℕ
stream_seed seed name =
    let start = bit_xor seed ((fnv1a name + 0x9e3779b97f4a7c15) % 2 ^ 64) in
    let first = finalizer_round 30 0xbf58476d1ce4e5b9 start in
    let second = finalizer_round 27 0x94d049bb133111eb first in bit_xor second (second / 2 ^ 31)

-- The names that the node gives its streams.
abbrev pub white_noise_name : List ℕ
white_noise_name = b'w' ∷ b'h' ∷ b'i' ∷ b't' ∷ b'e' ∷ b'_' ∷ b'n' ∷ b'o' ∷ b'i' ∷ b's' ∷ b'e' ∷ []

abbrev pub drift_name : List ℕ
drift_name = b'd' ∷ b'r' ∷ b'i' ∷ b'f' ∷ b't' ∷ []

abbrev pub faults_name : List ℕ
faults_name = b'f' ∷ b'a' ∷ b'u' ∷ b'l' ∷ b't' ∷ b's' ∷ []

abbrev pub profile_name : List ℕ
profile_name = b'p' ∷ b'r' ∷ b'o' ∷ b'f' ∷ b'i' ∷ b'l' ∷ b'e' ∷ []
