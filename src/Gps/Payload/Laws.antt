-- ===== src/Gps/Payload/Laws.antt =====
-- The memory layout of the payloads, whose sizes ros2_ws/src/comms/test/TestGpsMsgPayloads.cpp tests.
use native.Mathlib.Nat.{pow-suc}
use mathlib.Core.List.{append_assoc}
use billee_software.Prelude.{
  ℕ, zero, suc, ◌-◌, ◌/◌, ◌%◌, ◌^◌, ◌<◌, ◌≡◌, refl, ap, ◌∙◌, List, [], ◌∷◌, ◌++◌, map, All, arith,
  length, drop,
}
use billee_software.Prelude.Int.{ℤ, pos, negsuc, ◌≤ℤ◌}
use billee_software.Words.{to_uint32}
use billee_software.Words.Laws.{to_int32-to_uint32}
use billee_software.Gps.Payload.{
  PosPayload, CovPayload, read_le, fields, pos_of_fields, cov_of_fields, pos_of_bytes, cov_of_bytes,
}

-- The bytes of a field.
abbrev pub le_bytes : ℕ → ℕ → List ℕ
le_bytes zero value = []
le_bytes (suc width) value = value % 256 ∷ le_bytes width (value / 256)

-- A struct in memory: its fields, with their widths.
abbrev pub layout : List (ℕ × ℕ) → List ℕ
layout [] = []
layout ((width, value) ∷ rest) = le_bytes width value ++ layout rest

abbrev pub IsWide : ℕ × ℕ → Type 0
IsWide (width, value) = value < 256 ^ width

read_le-le_bytes :
    (width value : ℕ) (rest : List ℕ)
    → value < 256 ^ width
    → read_le width (le_bytes width value ++ rest) ≡ value
unfolding read_le
read_le-le_bytes zero value rest h = omega arith
read_le-le_bytes (suc width) value rest h = omega (
  arith,
  pow-suc 256 width,
  read_le-le_bytes width (value / 256) rest (omega (arith, pow-suc 256 width)),
)

drop-le_bytes : (width value : ℕ) (rest : List ℕ) → drop width (le_bytes width value ++ rest) ≡ rest
drop-le_bytes zero value rest = refl
drop-le_bytes (suc width) value rest = drop-le_bytes width (value / 256) rest

fields-layout :
    (fs : List (ℕ × ℕ)) (rest : List ℕ)
    → All IsWide fs
    → fields (map (λ f. f.0) fs) (layout fs ++ rest) ≡ map (λ f. f.1) fs
unfolding fields
fields-layout [] rest h = refl
fields-layout ((width, value) ∷ fs) rest (w, h) = rw (
  append_assoc,
  read_le-le_bytes width value (layout fs ++ rest) w,
  drop-le_bytes width value (layout fs ++ rest),
  fields-layout fs rest h,
)

abbrev pub pos_fields : PosPayload → List (ℕ × ℕ)
pos_fields p =
    (4, p.i_tow)
    ∷ (4, to_uint32 p.longitude)
    ∷ (4, to_uint32 p.latitude)
    ∷ (4, to_uint32 p.height)
    ∷ (4, p.h_msl)
    ∷ (4, p.h_acc)
    ∷ (4, p.v_acc)
    ∷ []

abbrev pub cov_fields : CovPayload → List (ℕ × ℕ)
cov_fields c =
    (4, c.i_tow)
    ∷ (1, c.version)
    ∷ (1, c.pos_cov_valid)
    ∷ (1, c.vel_cov_valid)
    ∷ (8, c.padding_a)
    ∷ (1, c.padding_b)
    ∷ (4, c.pos_cov_nn)
    ∷ (4, c.pos_cov_ne)
    ∷ (4, c.pos_cov_nd)
    ∷ (4, c.pos_cov_ee)
    ∷ (4, c.pos_cov_ed)
    ∷ (4, c.pos_cov_dd)
    ∷ (4, c.vel_cov_nn)
    ∷ (4, c.vel_cov_ne)
    ∷ (4, c.vel_cov_nd)
    ∷ (4, c.vel_cov_ee)
    ∷ (4, c.vel_cov_ed)
    ∷ (4, c.vel_cov_dd)
    ∷ []

abbrev pub IsInt32 : ℤ → Type 0
IsInt32 z = (negsuc (2 ^ 31 - 1) ≤ℤ z) × (z ≤ℤ pos (2 ^ 31 - 1))

-- A position and a covariance whose fields fit their types are read back unchanged from the bytes of
-- their structs, whatever follows them; the structs have 28 and 64 bytes.
pub payloads-layout :
    (p : PosPayload) (c : CovPayload) (rest : List ℕ)
    → IsInt32 p.longitude
    → IsInt32 p.latitude
    → IsInt32 p.height
    → All IsWide (pos_fields p)
    → All IsWide (cov_fields c)
    → (pos_of_bytes (layout (pos_fields p) ++ rest) ≡ p)
      × (cov_of_bytes (layout (cov_fields c) ++ rest) ≡ c)
      × (length (layout (pos_fields p)) ≡ 28)
      × (length (layout (cov_fields c)) ≡ 64)
unfolding pos_of_bytes cov_of_bytes
payloads-layout p c rest (lo, hi) (la, ha) (lh, hh) hp hc = (
  ap pos_of_fields (fields-layout (pos_fields p) rest hp)
      ∙ rw (to_int32-to_uint32 _ lo hi, to_int32-to_uint32 _ la ha, to_int32-to_uint32 _ lh hh),
  ap cov_of_fields (fields-layout (cov_fields c) rest hc),
  refl,
  refl,
)
