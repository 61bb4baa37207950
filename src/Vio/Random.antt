-- ===== src/Vio/Random.antt =====
-- What the node uses of <random>: the engine `std::mt19937_64` and the two distributions, which may
-- keep a state from one draw to the next.
use billee_software.Prelude.{ℕ}

-- `G` is the engine, `N` a normal and `U` a uniform distribution.
pub record Random (D G N U : Type 0) : Type 0 where
  pub seeded : ℕ → G
  pub normal : D → D → N
  pub draw_normal : N → G → D × N × G
  pub uniform : D → D → U
  pub draw_uniform : U → G → D × U × G
