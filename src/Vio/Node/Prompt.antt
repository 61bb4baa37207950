-- ===== src/Vio/Node/Prompt.antt =====
-- With no latency no message waits.
use billee_software.Prelude.{ℕ, ◌≡◌, refl, ap, ◌∙◌, true, [], leb, arith}
use billee_software.Prelude.Int.{pos}
use billee_software.Vio.State.{VioNode, Odometry, publish_due_messages, enqueue, take_due, release}

-- With no latency nothing is left waiting.
abbrev pub IsPrompt : {D G : Type 0} → VioNode D G → VioNode D G → Type 0
IsPrompt s t = s.model.latency_ms ≡ pos 0 → s.pending_messages ≡ [] → t.pending_messages ≡ []

pub IsPrompt-trans :
    {D G : Type 0} (s t u : VioNode D G)
    → t.model ≡ s.model
    → IsPrompt s t
    → IsPrompt t u
    → IsPrompt s u
IsPrompt-trans s t u k p q latency idle = q (ap (λ m. m.latency_ms) k ∙ latency) (p latency idle)

pub publish-IsPrompt :
    {D G : Type 0} (time : ℕ) (s : VioNode D G) → IsPrompt s (publish_due_messages time s)
unfolding publish_due_messages take_due
publish-IsPrompt time s latency idle = rw (publish_due_messages, idle) refl

-- A message of a pose is due when it is made.
pub enqueue-IsPrompt :
    {D G : Type 0} (time : ℕ) (vio : Odometry D) (s : VioNode D G)
    → vio.stamp ≡ time
    → IsPrompt s (publish_due_messages time (enqueue vio s))
unfolding publish_due_messages take_due enqueue
enqueue-IsPrompt time vio s e latency idle =
    let due : leb (release vio.stamp (pos 0)) time ≡ true = ground (arith, e) in
    rw (idle, latency, take_due, due) refl
