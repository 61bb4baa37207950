-- ===== src/Pxx/Backend/Configure/Frames.antt =====
-- The frames of `configure_node`, and what each part of it puts on the bus.
use billee_software.Prelude.{ℕ, ◌≡◌, refl, Bool, some, List, [], ◌∷◌, ◌++◌, arith, map, length-set}
use billee_software.Pxx.Can.{NmtCommand, make_nmt_frame, make_sdo_write_frame, make_sdo_read_frame}
use billee_software.Pxx.Can.Od
use billee_software.Pxx.Transport.{CanFrame, socket_frame}
use billee_software.Pxx.Backend.{Backend, Bus, send_frame, sdo_write, sdo_read}
use billee_software.Pxx.Backend.Transaction.{Answer, sdo_transaction-Answer}
use billee_software.Pxx.Backend.Emits.{
  Emits, bind-Emits, silent-Trace, send_frame-Emits, sdo_write-Emits, sdo_read-Emits,
}
use billee_software.Pxx.Backend.Configure.{
  Entry, mapping, enabling, write_all, seed_position, locate, enable_at,
}

abbrev pub entry_frame : ℕ → Entry → CanFrame
entry_frame node e = socket_frame (make_sdo_write_frame node e.index e.subindex e.value e.size)

abbrev pub nmt : NmtCommand → ℕ → CanFrame
nmt command node = socket_frame (make_nmt_frame command node)

abbrev pub read_frame : ℕ → ℕ → CanFrame
read_frame node index = socket_frame (make_sdo_read_frame node index 0)

-- The frames up to the question for the position.
abbrev pub locating : ℕ → List CanFrame
locating node =
    (nmt NmtCommand.enter_pre_operational node ∷ [])
    ++ (map (entry_frame node) (mapping node) ++ read_frame node Od.position_actual ∷ [])

-- The frames that enable the drive: the target position stands before "start" and "enable".
abbrev pub enabling_at : ℕ → ℕ → List CanFrame
enabling_at node position =
    (socket_frame (make_sdo_write_frame node Od.target_position 0 position 4) ∷ [])
    ++ (nmt NmtCommand.start node ∷ [])
    ++ map (entry_frame node) enabling

write_all-Emits :
    (bus : Bus) (sink : Bool) (node : ℕ) (es : List Entry)
    → Emits (map (entry_frame node) es) (write_all bus sink node es)
unfolding write_all
write_all-Emits bus sink node [] s = silent-Trace s (some tt, s) refl (ground arith)
write_all-Emits bus sink node (e ∷ es) s =
    bind-Emits (entry_frame node e ∷ []) (map (entry_frame node) es)
      (sdo_write bus sink node e.index e.subindex e.value e.size) (λ _. write_all bus sink node es)
      (sdo_write-Emits bus sink node e.index e.subindex e.value e.size)
      (λ _. write_all-Emits bus sink node es) s

pub locate-Emits :
    (bus : Bus) (sink : Bool) (node : ℕ) → Emits (locating node) (locate bus sink node)
unfolding locate
locate-Emits bus sink node =
    bind-Emits _ _ (send_frame bus sink (make_nmt_frame NmtCommand.enter_pre_operational node)) _
      (send_frame-Emits bus sink (make_nmt_frame NmtCommand.enter_pre_operational node))
      λ _.
        bind-Emits _ _ (write_all bus sink node (mapping node)) _
          (write_all-Emits bus sink node (mapping node))
          λ _. sdo_read-Emits bus sink node Od.position_actual 0

seed_position-Emits : (node position : ℕ) → Emits [] (seed_position node position)
unfolding seed_position
seed_position-Emits node position s =
    silent-Trace s (seed_position node position s) refl (grind (arith, length-set))

pub enable_at-Emits :
    (bus : Bus) (sink : Bool) (node position : ℕ)
    → Emits (enabling_at node position) (enable_at bus sink node position)
unfolding enable_at
enable_at-Emits bus sink node position =
    let start = make_nmt_frame NmtCommand.start node in
    bind-Emits _ _ (sdo_write bus sink node Od.target_position 0 position 4) _
      (sdo_write-Emits bus sink node Od.target_position 0 position 4)
      λ _. bind-Emits [] _ (seed_position node position) _ (seed_position-Emits node position) λ _.
        bind-Emits _ _ (send_frame bus sink start) _ (send_frame-Emits bus sink start)
          λ _. write_all-Emits bus sink node enabling

-- A value that the drive gave for an object of its dictionary, in some wait.
pub record Told (bus : Bus) (node index value : ℕ) : Type 0 where
  pub wait : ℕ
  pub answer : Answer (make_sdo_read_frame node index 0) (bus.during wait) value

pub sdo_read-Told :
    (bus : Bus) (sink : Bool) (node index value : ℕ) (s : Backend)
    → (sdo_read bus sink node index 0 s).0 ≡ some value
    → Told bus node index value
unfolding sdo_read
sdo_read-Told bus sink node index value s e = record {
  wait = s.waits;
  answer = sdo_transaction-Answer bus sink (make_sdo_read_frame node index 0) s value e;
}
