-- ===== src/Pxx/Backend/Motion.antt =====
-- `read` and `write` of `SocketCanMotorBackend`, and the conversions of
-- ros2_ws/src/pxx/include/pxx/can.hpp.
pub mod Laws
pub mod Runs
use billee_software.Prelude.{
  ℕ, suc, ◌*◌, ◌^◌, ◌%◌, bit_and, Bool, true, false, not, ◌&&◌, Option, none, some, List, [], ◌∷◌,
  ◌==◌, if◌then◌else◌, length, take, drop, replicate, ◌++◌, ◌-◌, get_or,
}
use billee_software.Prelude.Int.{ℤ, pos}
use billee_software.Double.{Double, zero_d}
use billee_software.Words.{to_int32, to_uint32}
use billee_software.Pxx.Can.{make_target_position_frame, make_sync_frame, error_code_text}
use billee_software.Pxx.Can.StatusWord
use billee_software.Pxx.Transport.{is_open}
use billee_software.Pxx.Backend.{
  Backend, Bus, BackendError, MotorFeedback, no_feedback, in_fault, not_active, count_mismatch,
  set_error, send_frame, is_done,
}

pub record JointState (D : Type 0) : Type 0 where
  pub position_rad : D
  pub velocity_rad_s : D

-- `std::vector::resize`.
pub resize {ℓ} : {A : Type ℓ} → ℕ → A → List A → List A
resize n a xs = take n xs ++ replicate (n - length xs) a

abbrev pub in_fault_state : MotorFeedback → Bool
in_fault_state f = not (bit_and f.status_word StatusWord.fault == 0)

abbrev pub failed_with : BackendError → Bool → Backend → Bool × Backend
failed_with e sink s = (false, set_error sink e s)

module _ {D : Type 0} ⦃d : Double D⦄ where
  open d use {decimal, of_int, mul, div, is_nan, lround}

  abbrev pub position_counts_per_rev : D
  position_counts_per_rev = decimal (pos 7929856) 0

  abbrev pub velocity_counts_per_rev_per_sec : D
  velocity_counts_per_rev_per_sec = decimal (pos 7929856) 0

  abbrev pub two_pi : D
  two_pi = decimal (pos 6283185307179586) 15

  pub counts_to_rad : ℤ → D
  counts_to_rad counts = div (mul (of_int counts) two_pi) position_counts_per_rev

  -- `lround` gives a `long`, which the cast wraps to 32 bits.
  pub rad_to_counts : D → ℤ
  rad_to_counts rad = to_int32 (to_uint32 (lround (div (mul rad position_counts_per_rev) two_pi)))

  pub velocity_to_rad_s : ℤ → D
  velocity_to_rad_s raw = div (mul (of_int raw) two_pi) velocity_counts_per_rev_per_sec

  abbrev pub zero_joint : JointState D
  zero_joint = record { position_rad = zero_d; velocity_rad_s = zero_d }

  abbrev pub joint_of : MotorFeedback → D → JointState D
  joint_of f ratio = record {
    position_rad = div (counts_to_rad f.position_counts) ratio;
    velocity_rad_s = div (velocity_to_rad_s f.velocity_raw) ratio;
  }

  -- The loop of `read` over nodes, gear ratios and the caller's states, which have one length. It
  -- stops at a fault, and leaves the states from there on as they were.
  pub read_joints :
      List MotorFeedback
      → List ℕ
      → List D
      → List (JointState D)
      → Option BackendError × List (JointState D)
  read_joints feedback (node ∷ nodes) (ratio ∷ ratios) (old ∷ states) =
      let f = get_or feedback node no_feedback in
      let (e, rest) = read_joints feedback nodes ratios states in
      if in_fault_state f
      then (
        some (in_fault node f.status_word f.error_code (error_code_text f.error_code)),
        old ∷ states,
      )
      else (e, joint_of f ratio ∷ rest)
  read_joints feedback nodes ratios states = (none, states)

  unfoldable pub read :
      Bool → List D → List (JointState D) → Backend → Bool × List (JointState D) × Backend
  read sink gear_ratios states s =
      if is_open s.can_transport
      then (let sized = resize (length s.node_ids) zero_joint states in
          let (e, states') = read_joints s.feedback s.node_ids gear_ratios sized in
          elim e [
            | none ↦ (true, states', s)
            | some reason ↦ (false, states', set_error sink reason s)
          ])
      else (false, states, set_error sink not_active s)

  -- The loop of `write`: a joint with no command is passed over.
  unfoldable pub send_targets :
      Bus → Bool → List ℕ → List D → List D → Bool → Backend → Bool × Backend
  send_targets bus sink (node ∷ nodes) (ratio ∷ ratios) (command ∷ commands) success s =
      let frame = make_target_position_frame node (rad_to_counts (mul command ratio)) in
      let (r, t) = send_frame bus sink frame s in
      let skipped = send_targets bus sink nodes ratios commands success s in
      let sent = send_targets bus sink nodes ratios commands (success && is_done r) t in
      if is_nan command then skipped else sent
  send_targets bus sink nodes ratios commands success s = (success, s)

  unfoldable pub write : Bus → Bool → List D → List D → Backend → Bool × Backend
  write bus sink gear_ratios commands s =
      if is_open s.can_transport
      then if length commands == length s.node_ids
        then (let (success, t) = send_targets bus sink s.node_ids gear_ratios commands true s in
            let (r, u) = send_frame bus sink make_sync_frame t in (success && is_done r, u))
        else failed_with count_mismatch sink s
      else failed_with not_active sink s
