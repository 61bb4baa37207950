-- ===== src/Pxx/Backend/Errors.antt =====
-- The error string of `SocketCanMotorBackend`: a call that fails has set it.
pub mod Calls
use billee_software.Prelude.{
  ℕ, suc, ◌≡◌, refl, sym, ap, ◌∙◌, Bool, true, false, ◌&&◌, ◌||◌, Option, none, some, List, [], ◌∷◌,
  arith, if◌then◌else◌, Bool-cases, Option-cases, inl, inr,
}
use billee_software.Double.{Double}
use billee_software.Pxx.Can.{
  Frame, NmtCommand, make_nmt_frame, make_sync_frame, make_target_position_frame,
}
use billee_software.Pxx.Can.Od
use billee_software.Pxx.Transport.{open_on, send, is_open}
use billee_software.Pxx.Backend.{
  Backend, Bus, M, pure, then_run, ◌>>=◌, ◌>>◌, send_frame, conclude, await, prepare,
  sdo_transaction, sdo_write, sdo_read, wait_for, rx_loop, is_done,
}
use billee_software.Pxx.Backend.Receiver.{rx_loop-Untouched}
use billee_software.Pxx.Backend.Transaction.{Answered, wait_for-Answered}
use billee_software.Pxx.Backend.Configure.{
  Entry, mapping, enabling, write_all, seed_position, locate, enable_at, check_enabled, fail_enable,
  is_refused, configure_node,
}
use billee_software.Pxx.Backend.Lifecycle.{
  shutdown_frame, standby_frame, release_nodes, stop, deactivate, configure_all, activate,
}
use billee_software.Pxx.Backend.Motion.{rad_to_counts, JointState, read, write, send_targets}

abbrev pub has_error : Backend → Bool
has_error s = is_done s.error

-- It worked, or there is an error.
abbrev pub Reports : {A : Type 0} → Option A × Backend → Type 0
Reports r = (is_done r.0 || has_error r.1) ≡ true

then_run-Reports :
    {A B : Type 0} (r : Option A × Backend) (k : A → M B)
    → Reports r
    → ((a : A) (t : Backend) → Reports (k a t))
    → Reports (then_run r k)
then_run-Reports (none, t) k p q = p
then_run-Reports (some a, t) k p q = q a t

pub send_frame-Reports : (bus : Bus) (f : Frame) (s : Backend) → Reports (send_frame bus true f s)
unfolding send_frame
send_frame-Reports bus f s = ground arith

-- An error stays.
pub send_frame-keeps :
    (bus : Bus) (f : Frame) (s : Backend)
    → has_error s ≡ true
    → has_error (send_frame bus true f s).1 ≡ true
unfolding send_frame
send_frame-keeps bus f s h = ground arith

-- With no string, nothing is reported.
pub send_frame-silent :
    (bus : Bus) (f : Frame) (s : Backend) → (send_frame bus false f s).1.error ≡ s.error
unfolding send_frame
send_frame-silent bus f s = ground arith

conclude-Reports :
    (bus : Bus) (request : Frame) (w : Bool × Backend)
    → (w.0 ≡ true → is_done w.1.sdo_response ≡ true)
    → Reports (conclude bus true request w)
unfolding conclude
conclude-Reports bus request (false, t) h = refl
conclude-Reports bus request (true, t) h = ground (arith, h refl)

await-Reports : (bus : Bus) (request : Frame) (s : Backend) → Reports (await bus true request s)
await-Reports bus request s =
    let es = bus.during s.waits in
    let started = record s { waits = suc s.waits } in
    conclude-Reports bus request (wait_for request es started)
      (λ e. ap is_done (wait_for-Answered request es started e).stored)

seed_position-Reports : (node position : ℕ) (s : Backend) → Reports (seed_position node position s)
unfolding seed_position
seed_position-Reports node position s = refl

module _ (bus : Bus) where
  sdo_transaction-Reports :
      (request : Frame) (s : Backend) → Reports (sdo_transaction bus true request s)
  unfolding sdo_transaction
  sdo_transaction-Reports request s =
      then_run-Reports (send_frame bus true request (prepare bus s)) _
        (send_frame-Reports bus request (prepare bus s)) (λ _. await-Reports bus request)

  sdo_write-Reports :
      (node index subindex value size : ℕ) (s : Backend)
      → Reports (sdo_write bus true node index subindex value size s)
  unfolding sdo_write
  sdo_write-Reports node index subindex value size s =
      then_run-Reports (sdo_transaction bus true _ s) _ (sdo_transaction-Reports _ s) (λ _ _. refl)

  sdo_read-Reports :
      (node index subindex : ℕ) (s : Backend) → Reports (sdo_read bus true node index subindex s)
  unfolding sdo_read
  sdo_read-Reports node index subindex s = sdo_transaction-Reports _ s

  write_all-Reports :
      (node : ℕ) (es : List Entry) (s : Backend) → Reports (write_all bus true node es s)
  unfolding write_all
  write_all-Reports node [] s = refl
  write_all-Reports node (e ∷ es) s =
      then_run-Reports (sdo_write bus true node e.index e.subindex e.value e.size s) _
        (sdo_write-Reports node e.index e.subindex e.value e.size s)
        (λ _. write_all-Reports node es)

  locate-Reports : (node : ℕ) (s : Backend) → Reports (locate bus true node s)
  unfolding locate
  locate-Reports node s =
      then_run-Reports (send_frame bus true _ s) _ (send_frame-Reports bus _ s) λ _ t.
        then_run-Reports (write_all bus true node (mapping node) t) _
          (write_all-Reports node (mapping node) t) (λ _. sdo_read-Reports node _ 0)

  enable_at-Reports :
      (node position : ℕ) (s : Backend) → Reports (enable_at bus true node position s)
  unfolding enable_at
  enable_at-Reports node position s =
      let start = make_nmt_frame NmtCommand.start node in
      let rest : M (Unit {0}) = write_all bus true node enabling in
      let go : M (Unit {0}) = send_frame bus true start >> rest in
      then_run-Reports (sdo_write bus true node Od.target_position 0 position 4 s)
        (λ _. seed_position node position >> go)
        (sdo_write-Reports node Od.target_position 0 position 4 s)
        λ _ t.
          then_run-Reports (seed_position node position t) (λ _. go)
            (seed_position-Reports node position t)
            λ _ u.
              then_run-Reports (send_frame bus true start u) (λ _. rest)
                (send_frame-Reports bus start u) (λ _. write_all-Reports node enabling)

  check_enabled-Reports : (node : ℕ) (s : Backend) → Reports (check_enabled bus true node s)
  unfolding check_enabled fail_enable
  check_enabled-Reports node s =
      then_run-Reports (sdo_read bus true node _ 0 s) _ (sdo_read-Reports node _ 0 s)
        λ status t. elim (Bool-cases (is_refused status)) [ inl e ↦ rw e refl | inr e ↦ rw e refl ]

  pub configure_node-Reports : (node : ℕ) (s : Backend) → Reports (configure_node bus true node s)
  unfolding configure_node
  configure_node-Reports node s =
      then_run-Reports (locate bus true node s) _ (locate-Reports node s) λ position t.
        then_run-Reports (enable_at bus true node position t) _ (enable_at-Reports node position t)
          (λ _. check_enabled-Reports node)
