-- ===== src/Pxx/Mock/Laws.antt =====
-- The mock keeps its joint count, and follows commands.
use billee_software.Prelude.{ℕ, ◌≡◌, refl, List, [], ◌∷◌, arith, length, length-map}
use billee_software.Double.{Double}
use billee_software.Pxx.Backend.Motion.{JointState}
use billee_software.Pxx.Mock.{
  MockBackend, mock_activate, mock_deactivate, servo_all, mock_read, mock_write,
}

module _ {D : Type 0} ⦃d : Double D⦄ where
  -- `n` joints on both sides.
  abbrev pub MockFits : ℕ → MockBackend D → Type 0
  MockFits n m = (length m.commands_rad ≡ n) × (length m.states ≡ n)

  pub length-servo_all :
      (period : D) (commands : List D) (states : List (JointState D))
      → length (servo_all period commands states) ≡ length states
  unfolding servo_all
  length-servo_all period [] states = refl
  length-servo_all period (command ∷ commands) [] = refl
  length-servo_all period (command ∷ commands) (state ∷ states) =
      omega (arith, length-servo_all period commands states)

  pub mock_activate-Fits : (n : ℕ) (m : MockBackend D) → MockFits n m → MockFits n (mock_activate m)
  unfolding mock_activate
  mock_activate-Fits n m f = grind (arith, length-map)

  pub mock_deactivate-Fits :
      (n : ℕ) (m : MockBackend D) → MockFits n m → MockFits n (mock_deactivate m)
  unfolding mock_deactivate
  mock_deactivate-Fits n m f = grind (arith, length-map)

  pub mock_read-Fits :
      (n : ℕ) (period : D) (states : List (JointState D)) (m : MockBackend D)
      → MockFits n m
      → length states ≡ n
      → let (ok, states', m') = mock_read period states m in MockFits n m' × (length states' ≡ n)
  unfolding mock_read
  mock_read-Fits n period states m f h =
      ground (arith, length-servo_all period m.commands_rad m.states)

  pub mock_write-Fits :
      (n : ℕ) (commands : List D) (m : MockBackend D)
      → MockFits n m
      → MockFits n (mock_write commands m).1
  unfolding mock_write
  mock_write-Fits n commands m f = ground arith
