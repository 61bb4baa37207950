-- ===== src/Pxx/Backend/Configure/Order.antt =====
-- What `configure_node` puts on the bus, in which order, and on which answers.
use mathlib.Core.List.{append_assoc, append-nil}
use billee_software.Prelude.{
  ℕ, ◌≡◌, refl, sym, ap, ◌∙◌, Bool, true, false, Option, none, some, List, [], ◌∷◌, ◌++◌,
}
use billee_software.Pxx.Can.{NmtCommand, make_nmt_frame}
use billee_software.Pxx.Can.Od
use billee_software.Pxx.Transport.{CanFrame}
use billee_software.Pxx.Backend.{Backend, Bus, M, then_run, ◌>>◌, send_frame, sdo_read, is_done}
use billee_software.Pxx.Backend.Emits.{Trace, IsSteady, IsSteady-trans, then_run-done}
use billee_software.Pxx.Backend.Configure.{
  mapping, write_all, locate, enable_at, check_enabled, configure_node,
}
use billee_software.Pxx.Backend.Configure.Frames.{
  read_frame, locating, enabling_at, locate-Emits, enable_at-Emits, Told, sdo_read-Told,
}
use billee_software.Pxx.Backend.Configure.Judged.{judging, ToldEnabled, check_enabled-Judged}

-- `cut`: the configuration stopped before the drive gave its position. `held`: it gave `position`,
-- and what followed is a beginning of the frames that hold this position and enable the drive, all
-- of them on success.
pub data Fate (bus : Bus) (node : ℕ) (s : Backend) (r : Option (Unit {0}) × Backend) : Type 0 where
  cut :
      (out rest : List CanFrame)
      → locating node ≡ out ++ rest
      → r.1.wire ≡ s.wire ++ out
      → is_done r.0 ≡ false
      → IsSteady s r.1
      → Fate bus node s r
  held :
      (position : ℕ) (out rest : List CanFrame)
      → Told bus node Od.position_actual position
      → enabling_at node position ++ judging node ≡ out ++ rest
      → r.1.wire ≡ s.wire ++ (locating node ++ out)
      → (is_done r.0 ≡ true
          → (out ≡ enabling_at node position ++ read_frame node Od.status_word ∷ [])
            × ToldEnabled bus node)
      → IsSteady s r.1
      → Fate bus node s r

enabled-Fate :
    (bus : Bus) (sink : Bool) (node position : ℕ) (s t : Backend) (r : Option (Unit {0}) × Backend)
    → Told bus node Od.position_actual position
    → t.wire ≡ s.wire ++ locating node
    → IsSteady s t
    → Trace (enabling_at node position) t r
    → Fate bus node s (then_run r (λ _. check_enabled bus sink node))
enabled-Fate bus sink node position s t (none, u) told w k p =
    held position p.out (p.rest ++ judging node) told
      (ap (λ x. x ++ judging node) p.splits ∙ append_assoc p.out p.rest (judging node))
      (p.grows ∙ ap (λ x. x ++ p.out) w ∙ append_assoc s.wire (locating node) p.out) (λ e. cc e)
      (IsSteady-trans s t u k p.steady)
enabled-Fate bus sink node position s t (some _, u) told w k p =
    let j = check_enabled-Judged bus sink node u in
    let whole : enabling_at node position ≡ p.out =
      p.splits ∙ ap (λ x. p.out ++ x) (p.complete refl) ∙ append-nil p.out in
    held position (enabling_at node position ++ j.out) j.rest told
      (ap (λ x. enabling_at node position ++ x) j.splits
        ∙ sym (append_assoc (enabling_at node position) j.out j.rest))
      (j.grows
        ∙ ap (λ x. x ++ j.out)
            (p.grows
              ∙ ap (λ x. x ++ p.out) w
              ∙ ap (λ x. (s.wire ++ locating node) ++ x) (sym whole))
        ∙ append_assoc (s.wire ++ locating node) (enabling_at node position) j.out
        ∙ append_assoc s.wire (locating node) (enabling_at node position ++ j.out))
      (λ e.
        let (one, status) = j.passed e in (ap (λ x. enabling_at node position ++ x) one, status))
      (IsSteady-trans s t _ k (IsSteady-trans t u _ p.steady j.steady))

located-Fate :
    (bus : Bus) (sink : Bool) (node : ℕ) (s : Backend) (r : Option ℕ × Backend)
    → ((position : ℕ) → r.0 ≡ some position → Told bus node Od.position_actual position)
    → Trace (locating node) s r
    → Fate bus node s
        (then_run r (λ position. enable_at bus sink node position >> check_enabled bus sink node))
located-Fate bus sink node s (none, t) told p = cut p.out p.rest p.splits p.grows refl p.steady
located-Fate bus sink node s (some position, t) told p =
    let whole : locating node ≡ p.out =
      p.splits ∙ ap (λ x. p.out ++ x) (p.complete refl) ∙ append-nil p.out in
    enabled-Fate bus sink node position s t (enable_at bus sink node position t)
      (told position refl) (p.grows ∙ ap (λ x. s.wire ++ x) (sym whole)) p.steady
      (enable_at-Emits bus sink node position t)

locate-Told :
    (bus : Bus) (sink : Bool) (node position : ℕ) (s : Backend)
    → (locate bus sink node s).0 ≡ some position
    → Told bus node Od.position_actual position
unfolding locate
locate-Told bus sink node position s e =
    let ask : M ℕ = sdo_read bus sink node Od.position_actual 0 in
    let writes : M (Unit {0}) = write_all bus sink node (mapping node) in
    let sent = send_frame bus sink (make_nmt_frame NmtCommand.enter_pre_operational node) s in
    let (_, _, later) = then_run-done sent (λ _. writes >> ask) position e in
    let (_, _, last) = then_run-done (writes sent.1) (λ _. ask) position later in
    sdo_read-Told bus sink node Od.position_actual position (writes sent.1).1 last

-- Whatever the bus does, `configure_node` sends a beginning of one script: pre-operational, the PDO
-- mapping, the question for the position; then, only if the drive gave a position, that position as
-- the target, "start", and the commands that enable the drive; then the question for the status,
-- and for the error code. It succeeds only after all but the last, and only if the drive told a
-- status word that is enabled and has no fault. The socket and the configuration stay as they were.
pub configure_node-Fate :
    (bus : Bus) (sink : Bool) (node : ℕ) (s : Backend)
    → Fate bus node s (configure_node bus sink node s)
unfolding configure_node
configure_node-Fate bus sink node s =
    located-Fate bus sink node s (locate bus sink node s)
      (λ position. locate-Told bus sink node position s) (locate-Emits bus sink node s)

pub Fate-Steady :
    {bus : Bus} {node : ℕ} {s : Backend} {r : Option (Unit {0}) × Backend}
    → Fate bus node s r
    → IsSteady s r.1
Fate-Steady (cut out rest e w d k) = k
Fate-Steady (held position out rest told e w d k) = k
