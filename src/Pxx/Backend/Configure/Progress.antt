-- ===== src/Pxx/Backend/Configure/Progress.antt =====
-- `configure_node` (ros2_ws/src/pxx/src/socketcan_motor_backend.cpp) with a drive that answers.
use billee_software.Prelude.{
  ℕ, suc, ◌+◌, ◌^◌, ◌≤◌, ◌<◌, ◌≡◌, refl, subst, Bool, true, false, Option, List, [], ◌∷◌, arith,
  length, All,
}
use billee_software.Pxx.Can.{NmtCommand, make_nmt_frame}
use billee_software.Pxx.Can.Od
use billee_software.Pxx.Backend.{Backend, Bus, send_frame, sdo_write, sdo_read}
use billee_software.Pxx.Backend.Serving.{
  Serves, IsReady, Returns, pure-Returns, then_run-Returns, send_frame-Returns, sdo_write-Returns,
  sdo_read-Returns,
}
use billee_software.Pxx.Backend.Configure.{
  Entry, mapping, enabling, write_all, seed_position, locate, enable_at, check_enabled, is_refused,
  configure_node,
}

-- One wait for each write, in their order.
abbrev pub ServesAll : Bus → ℕ → ℕ → List Entry → Type 0
ServesAll bus n node [] = Unit {0}
ServesAll bus n node (e ∷ es) = Serves bus n node e.index e.subindex × ServesAll bus (suc n) node es

-- From the wait `n` on, the drive acknowledges all that `configure_node` asks, and reports at last a
-- status word that is enabled and has no fault.
pub record Cooperates (bus : Bus) (n node : ℕ) : Type 0 where
  pub mapped : ServesAll bus n node (mapping node)
  pub located : Serves bus (n + 21) node Od.position_actual 0
  pub targeted : Serves bus (n + 22) node Od.target_position 0
  pub enabled : ServesAll bus (n + 23) node enabling
  pub reported : Serves bus (n + 26) node Od.status_word 0
  pub healthy : is_refused reported.response.value ≡ false

-- What fits the fields of an SDO write.
abbrev IsWritable : Entry → Type 0
IsWritable e = (e.index < 2 ^ 16) × (e.subindex < 2 ^ 8) × (1 ≤ e.size) × (e.size ≤ 4)

mapping-Writable : (node : ℕ) → All IsWritable (mapping node)
mapping-Writable node = omega arith

enabling-Writable : All IsWritable enabling
enabling-Writable = omega arith

Returns-at :
    {A : Type 0} (n m : ℕ) (a : A) (r : Option A × Backend) → n ≡ m → Returns n a r → Returns m a r
Returns-at n m a r same p = subst (λ k. Returns k a r) same p

short_nmt : (command : NmtCommand) (node : ℕ) → (make_nmt_frame command node).data_length ≤ 8
unfolding make_nmt_frame
short_nmt command node = omega arith

seed_position-Returns :
    (n node position : ℕ) (s : Backend) → IsReady n s → Returns n tt (seed_position node position s)
unfolding seed_position
seed_position-Returns n node position s h = record {
  value = refl;
  ready = record { opened = h.opened; running = h.running; counted = h.counted };
}

module _ (bus : Bus) (sink : Bool) (all_written : (k : ℕ) → bus.written k ≡ true) where
  write_all-Returns :
      (n m node : ℕ) (es : List Entry) (s : Backend)
      → IsReady n s
      → node ≤ 127
      → All IsWritable es
      → ServesAll bus n node es
      → m ≡ n + length es
      → Returns m tt (write_all bus sink node es s)
  unfolding write_all
  write_all-Returns n m node [] s h hn w v e =
      pure-Returns m tt s (subst (λ k. IsReady k s) (omega (arith, e)) h)
  write_all-Returns n m node (e ∷ es) s h hn ((hi, hs, h1, h4), ws) (v, vs) same =
      then_run-Returns (suc n) m tt tt (sdo_write bus sink node e.index e.subindex e.value e.size s)
        _
        (sdo_write-Returns bus sink all_written n node e.index e.subindex e.value e.size s h hn hi
          hs h1 h4 v)
        (λ t ready. write_all-Returns (suc n) m node es t ready hn ws vs (omega (arith, same)))

  module _ (n node : ℕ) (hn : node ≤ 127) (drive : Cooperates bus n node) where
    locate-Returns :
        (s : Backend)
        → IsReady n s
        → Returns (n + 22) drive.located.response.value (locate bus sink node s)
    unfolding locate
    locate-Returns s h =
        let boot = make_nmt_frame NmtCommand.enter_pre_operational node in
        let position = drive.located.response.value in
        then_run-Returns n (n + 22) tt position (send_frame bus sink boot s) _
          (send_frame-Returns bus sink all_written n boot s h
            (short_nmt NmtCommand.enter_pre_operational node))
          λ t sent.
            then_run-Returns (n + 21) (n + 22) tt position
              (write_all bus sink node (mapping node) t) _
              (write_all-Returns n (n + 21) node (mapping node) t sent hn (mapping-Writable node)
                drive.mapped (omega arith))
              λ u written. Returns-at (suc (n + 21)) (n + 22) position _ (omega arith) (
                sdo_read-Returns bus sink all_written (n + 21) node Od.position_actual 0 u written
                  hn (omega arith) drive.located)

    enable_at-Returns :
        (position : ℕ) (s : Backend)
        → IsReady (n + 22) s
        → Returns (n + 26) tt (enable_at bus sink node position s)
    unfolding enable_at
    enable_at-Returns position s h =
        let start = make_nmt_frame NmtCommand.start node in
        then_run-Returns (n + 23) (n + 26) tt tt
          (sdo_write bus sink node Od.target_position 0 position 4 s) _
          (Returns-at (suc (n + 22)) (n + 23) tt _ (omega arith) (
            sdo_write-Returns bus sink all_written (n + 22) node Od.target_position 0 position 4 s h
              hn (omega arith) (omega arith) (omega arith) (omega arith) drive.targeted))
          λ t targeted.
            then_run-Returns (n + 23) (n + 26) tt tt (seed_position node position t) _
              (seed_position-Returns (n + 23) node position t targeted)
              λ u seeded.
                then_run-Returns (n + 23) (n + 26) tt tt (send_frame bus sink start u) _
                  (send_frame-Returns bus sink all_written (n + 23) start u seeded
                    (short_nmt NmtCommand.start node))
                  λ v started.
                    write_all-Returns (n + 23) (n + 26) node enabling v started hn enabling-Writable
                      drive.enabled (omega arith)

    check_enabled-Returns :
        (s : Backend) → IsReady (n + 26) s → Returns (n + 27) tt (check_enabled bus sink node s)
    unfolding check_enabled
    check_enabled-Returns s h =
        then_run-Returns (n + 27) (n + 27) drive.reported.response.value tt
          (sdo_read bus sink node Od.status_word 0 s) _
          (Returns-at (suc (n + 26)) (n + 27) drive.reported.response.value _ (omega arith) (
            sdo_read-Returns bus sink all_written (n + 26) node Od.status_word 0 s h hn
              (omega arith) drive.reported))
          λ t told. rw drive.healthy (pure-Returns (n + 27) tt t told)

    pub configure_node-Returns :
        (s : Backend) → IsReady n s → Returns (n + 27) tt (configure_node bus sink node s)
    unfolding configure_node
    configure_node-Returns s h =
        then_run-Returns (n + 22) (n + 27) drive.located.response.value tt (locate bus sink node s)
          _ (locate-Returns s h)
          λ t located.
            then_run-Returns (n + 26) (n + 27) tt tt
              (enable_at bus sink node drive.located.response.value t) _
              (enable_at-Returns drive.located.response.value t located) check_enabled-Returns
