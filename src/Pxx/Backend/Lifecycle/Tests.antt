-- ===== src/Pxx/Backend/Lifecycle/Tests.antt =====
-- An arm whose drive acknowledges all that `configure_node` asks.
use billee_software.Prelude.{
  ◌++◌, none, Option, get_or, ℕ, suc, ◌+◌, ◌*◌, ◌≡◌, refl, ap, true, false, some, List, [], ◌∷◌,
  get_elem?, length, arith,
}
use billee_software.Words.{get_le}
use billee_software.Pxx.Can.Od
use billee_software.Pxx.Can.Parse.{SdoResponse, parse_sdo_response}
use billee_software.Pxx.Transport.{is_open, open_on, close}
use billee_software.Pxx.Backend.{rx_loop, no_feedback, Backend, new_backend}
use billee_software.Pxx.Backend.Serving.{Serves}
use billee_software.Pxx.Backend.Configure.{Entry, mapping, enabling}
use billee_software.Pxx.Backend.Configure.Progress.{Cooperates, ServesAll}
use billee_software.Pxx.Backend.Lifecycle.{activate}
use billee_software.Pxx.Backend.Lifecycle.Laws.{IsActive}
use billee_software.Pxx.Backend.Lifecycle.Progress.{activate_succeeds}
use billee_software.Toy.{Toy, toy_double}
use billee_software.Pxx.Backend.Attempts.{taken}
use billee_software.Pxx.Backend.Motion.{read, write}
use billee_software.Pxx.Backend.Motion.Runs.{
  Turn, reading, writing, schedule, take_turns, take_turns-schedule,
}
use billee_software.Pxx.Backend.Errors.Calls.{IsReported, IsReportedUnless, failures-Reported}
use billee_software.Pxx.Can.{Frame}
use billee_software.Pxx.Backend.Feedback.{learned, rx_loop-learned}
use billee_software.Pxx.Backend.Tests.{
  active_arm, active_arm-IsActive, object, script, asked, acknowledgement, answering, idle_arm,
  idle_arm-IsIdle,
}

abbrev said : Entry → SdoResponse
said e = record {
  node_id = 1;
  index = e.index;
  subindex = e.subindex;
  aborted = false;
  value = 0x27;
}

acknowledged :
    (n : ℕ) (e : Entry)
    → get_elem? asked n ≡ some e
    → parse_sdo_response (acknowledgement e) ≡ some (said e)
    → Serves answering n 1 e.index e.subindex
acknowledged n e here parsed = record {
  quiet = [];
  rest = [];
  answer = acknowledgement e;
  response = said e;
  script = ap script here;
  silent = tt;
  parsed = parsed;
  same_node = refl;
  same_index = refl;
  same_subindex = refl;
  accepted = refl;
}

-- The next entries that are asked, and acknowledged.
Acknowledged : ℕ → List Entry → Type 0
Acknowledged n [] = Unit {0}
Acknowledged n (e ∷ es) =
    (get_elem? asked n ≡ some e)
    × (parse_sdo_response (acknowledgement e) ≡ some (said e))
    × Acknowledged (suc n) es

serves_all : (n : ℕ) (es : List Entry) → Acknowledged n es → ServesAll answering n 1 es
unfolding Acknowledged
serves_all n [] h = tt
serves_all n (e ∷ es) (here, parsed, rest) =
    (acknowledged n e here parsed, serves_all (suc n) es rest)

mapping-Acknowledged : Acknowledged 0 (mapping 1)
unfolding Acknowledged parse_sdo_response get_le
mapping-Acknowledged = ground arith

enabling-Acknowledged : Acknowledged 23 enabling
unfolding Acknowledged parse_sdo_response get_le
enabling-Acknowledged = ground arith

pub drive-Cooperates : Cooperates answering 0 1
unfolding parse_sdo_response get_le acknowledged
drive-Cooperates = record {
  mapped = serves_all 0 (mapping 1) mapping-Acknowledged;
  located = acknowledged 21 (object Od.position_actual 0) refl refl;
  targeted = acknowledged 22 (object Od.target_position 0) refl refl;
  enabled = serves_all 23 enabling enabling-Acknowledged;
  reported = acknowledged 26 (object Od.status_word 0) refl refl;
  healthy = refl;
}

activate_succeeds_example :
    (t : Backend) × (activate answering true idle_arm ≡ some (true, t))
    × IsActive t
    × (t.waits ≡ idle_arm.waits + 27 * length idle_arm.node_ids)
unfolding open_on close new_backend
activate_succeeds_example =
    activate_succeeds answering true (λ _. refl) idle_arm idle_arm-IsIdle refl (omega arith, tt)
      (drive-Cooperates, tt)

-- The backend was never activated, so `read` and `write` fail.
failures-Reported_example :
    let ratios : List Toy = some 2 ∷ [] in
    let (ok, _, t) = read true ratios [] idle_arm in
    IsReportedUnless answering (activate answering true idle_arm)
    × IsReported answering (ok, t)
    × IsReported answering (write answering true ratios (some 5 ∷ []) idle_arm)
failures-Reported_example = failures-Reported answering (some 2 ∷ []) (some 5 ∷ []) [] idle_arm

-- A position of node 3 and a status of node 1.
abbrev pub heard : List (Option Frame)
heard =
    some (record {
      arbitration_id = 0x183;
      extended = false;
      data_length = 8;
      payload = 5 ∷ 0 ∷ 0 ∷ 0 ∷ 6 ∷ 0 ∷ 0 ∷ 0 ∷ [];
    })
    ∷ none
    ∷ some (record {
      arbitration_id = 0x281;
      extended = false;
      data_length = 2;
      payload = 0x27 ∷ 0 ∷ [];
    })
    ∷ []

rx_loop-learned_example :
    get_or (rx_loop heard active_arm).feedback 3 no_feedback
    ≡ learned 3 heard (get_or active_arm.feedback 3 no_feedback)
rx_loop-learned_example =
    rx_loop-learned heard active_arm 3 active_arm-IsActive.running active_arm-IsActive.sized

abbrev turns : List (Turn Toy)
turns = writing (some 5 ∷ []) ∷ Turn.heard none ∷ reading [] ∷ writing (none ∷ []) ∷ []

take_turns-schedule_example :
    let ratios : List Toy = some 2 ∷ [] in
    let t = take_turns answering true ratios turns active_arm in
    (t.wire
      ≡ active_arm.wire
        ++ taken answering.written active_arm.writes (schedule ratios active_arm.node_ids turns))
    × (is_open t.can_transport ≡ true)
take_turns-schedule_example =
    take_turns-schedule answering true (some 2 ∷ []) turns active_arm active_arm-IsActive.opened
