-- ===== src/Vio/Seed/Laws.antt =====
-- The seeds of the streams, by the name and by the seed of the run.
use Prim.Native.Nat.{bit_xor}
use native.Mathlib.Nat.{div-le_self}
use billee_software.Prelude.{
  ℕ, ◌+◌, ◌*◌, ◌/◌, ◌%◌, ◌^◌, ◌<◌, ◌≡◌, ◌≢◌, sym, ap, ◌∙◌, List, [], ◌∷◌, arith,
}
use billee_software.Prelude.Xor.{xor_cancel, xor-lt, xor-injective, xor_shift, xor_shift-injective}
use billee_software.Vio.Seed.{
  fnv1a_from, fnv1a, finalizer_round, stream_seed, white_noise_name, drift_name, faults_name,
  profile_name,
}

-- A 64-bit shift and exclusive or keeps 64 bits.
xor_shift-lt : (k x : ℕ) → x < 2 ^ 64 → xor_shift k x < 2 ^ 64
xor_shift-lt k x h = xor-lt 64 x (x / 2 ^ k) h (omega (arith, div-le_self x (2 ^ k)))

-- The two factors are odd, so no two values have the same product.
first_round :
    (x y : ℕ)
    → x < 2 ^ 64
    → y < 2 ^ 64
    → finalizer_round 30 0xbf58476d1ce4e5b9 x ≡ finalizer_round 30 0xbf58476d1ce4e5b9 y
    → x ≡ y
first_round x y hx hy e =
    xor_shift-injective 64 30 x y hx hy (omega arith)
      (omega (arith, xor_shift-lt 30 x hx, xor_shift-lt 30 y hy))

second_round :
    (x y : ℕ)
    → x < 2 ^ 64
    → y < 2 ^ 64
    → finalizer_round 27 0x94d049bb133111eb x ≡ finalizer_round 27 0x94d049bb133111eb y
    → x ≡ y
second_round x y hx hy e =
    xor_shift-injective 64 27 x y hx hy (omega arith)
      (omega (arith, xor_shift-lt 27 x hx, xor_shift-lt 27 y hy))

-- What the name adds to the seed.
abbrev key : List ℕ → ℕ
key name = (fnv1a name + 0x9e3779b97f4a7c15) % 2 ^ 64

finalizer-injective :
    (s t : ℕ) (a b : List ℕ)
    → s < 2 ^ 64
    → t < 2 ^ 64
    → stream_seed s a ≡ stream_seed t b
    → bit_xor s (key a) ≡ bit_xor t (key b)
unfolding stream_seed
finalizer-injective s t a b hs ht e =
    let start_a = xor-lt 64 s (key a) hs (omega arith) in
    let start_b = xor-lt 64 t (key b) ht (omega arith) in
    first_round (bit_xor s (key a)) (bit_xor t (key b)) start_a start_b (
      second_round _ _ (omega arith) (omega arith)
        (xor_shift-injective 64 31 _ _ (omega arith) (omega arith) (omega arith) e))

fnv1a_from-lt : (value : ℕ) (text : List ℕ) → value < 2 ^ 64 → fnv1a_from value text < 2 ^ 64
unfolding fnv1a_from
fnv1a_from-lt value [] h = h
fnv1a_from-lt value (c ∷ text) h =
    fnv1a_from-lt (bit_xor value c * 1099511628211 % 2 ^ 64) text (omega arith)

fnv1a-lt : (text : List ℕ) → fnv1a text < 2 ^ 64
unfolding fnv1a
fnv1a-lt text = fnv1a_from-lt 14695981039346656037 text (omega arith)

-- With one name, two seeds of 64 bits give the same stream seed only if they are the same.
stream_seed-injective :
    (s t : ℕ) (name : List ℕ)
    → s < 2 ^ 64
    → t < 2 ^ 64
    → stream_seed s name ≡ stream_seed t name
    → s ≡ t
stream_seed-injective s t name hs ht e =
    sym (xor_cancel s (key name))
    ∙ ap (λ x. bit_xor x (key name)) (finalizer-injective s t name name hs ht e)
    ∙ xor_cancel t (key name)

-- With one seed, two names give the same stream seed only if their hashes are the same.
pub stream_seed-hash :
    (s : ℕ) (a b : List ℕ) → s < 2 ^ 64 → stream_seed s a ≡ stream_seed s b → fnv1a a ≡ fnv1a b
stream_seed-hash s a b hs e =
    let same : key a ≡ key b =
      xor-injective s (key a) (key b) (finalizer-injective s s a b hs hs e) in
    omega (arith, same, fnv1a-lt a, fnv1a-lt b)

-- The four streams of the node are seeded differently, whatever the seed of the run.
pub streams_differ :
    (s : ℕ)
    → s < 2 ^ 64
    → (stream_seed s white_noise_name ≢ stream_seed s drift_name)
      × (stream_seed s white_noise_name ≢ stream_seed s faults_name)
      × (stream_seed s white_noise_name ≢ stream_seed s profile_name)
      × (stream_seed s drift_name ≢ stream_seed s faults_name)
      × (stream_seed s drift_name ≢ stream_seed s profile_name)
      × (stream_seed s faults_name ≢ stream_seed s profile_name)
unfolding fnv1a
streams_differ s h = (
  λ e. omega (arith, stream_seed-hash s white_noise_name drift_name h e),
  λ e. omega (arith, stream_seed-hash s white_noise_name faults_name h e),
  λ e. omega (arith, stream_seed-hash s white_noise_name profile_name h e),
  λ e. omega (arith, stream_seed-hash s drift_name faults_name h e),
  λ e. omega (arith, stream_seed-hash s drift_name profile_name h e),
  λ e. omega (arith, stream_seed-hash s faults_name profile_name h e),
)
