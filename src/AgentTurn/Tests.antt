-- ===== src/AgentTurn/Tests.antt =====
-- Runs of host/src/runtime/agent-turn-tracker.ts on short streams of events.
use ontheia.Prelude.{
  ℕ, String, ◌-◌, Bool, true, false, Option, none, some, [], ◌∷◌, ◌≡◌, refl, arith, Text, All,
  codes, text_eq,
}
use ontheia.AgentTurn.{
  State, EventType, run_token, step_start, tool_call, complete, Event, feed_agent_turn_event,
  create_agent_turn_state, start_turn,
}
use ontheia.AgentTurn.Run.{History, run_events}
use ontheia.AgentTurn.Rows.{InTurns, run-InTurns}
use ontheia.AgentTurn.Content.{Carries, streamed, said, feed-said, start-flushes, late_text-dropped}

abbrev Meta : Type 0
Meta = ℕ × Text × Bool

abbrev build : ℕ → Text → Bool → Meta
build n status streaming = (n, status, streaming)

abbrev same : Unit {0} → Meta → Meta
same _ m = m

abbrev event : EventType → Option Text → Event (Unit {0})
event type text = record {
  type = type;
  step = some (codes "dispatch_provider_request");
  text = text;
  output = some (codes "out");
  status = none;
  tool_calls = none;
}

abbrev token : String → Event (Unit {0})
token s = event run_token (some (codes s))

-- Two turns; the newest event stands first.
abbrev two_turns : History (Unit {0})
two_turns =
    (token "c", true)
    ∷ (event step_start none, false)
    ∷ (event tool_call none, false)
    ∷ (token "b", false)
    ∷ (token "a", false)
    ∷ (event step_start none, false)
    ∷ []

two_turns_writes :
    (run_events build same two_turns).1
    ≡ record {
      row_ref = 0;
      turn_index = 0;
      content = codes "ab";
      metadata = (0, codes "running", false);
    }
      ∷ record {
        row_ref = 1;
        turn_index = 1;
        content = codes "c";
        metadata = (1, codes "running", true);
      }
      ∷ []
unfolding run_events feed_agent_turn_event create_agent_turn_state text_eq
two_turns_writes = refl

run-InTurns_example :
    InTurns 0 (run_events build same two_turns).0.turns (run_events build same two_turns).1
run-InTurns_example = run-InTurns build same two_turns

feed-said_example :
    All
      (Carries (said two_turns (event complete none)))
      (feed_agent_turn_event build same
        (run_events build same two_turns).0
        (event complete none)
        false).1
feed-said_example = feed-said build same two_turns (event complete none) false

start-flushes_example :
    let s = (run_events build same two_turns).0 in
    feed_agent_turn_event build same s (event step_start none) true ≡ (
      start_turn s,
      record {
        row_ref = s.turns - 1;
        turn_index = s.turns - 1;
        content = streamed two_turns;
        metadata = build (s.turns - 1) (codes "running") false;
      }
          ∷ [],
    )
unfolding run_events feed_agent_turn_event create_agent_turn_state text_eq streamed
start-flushes_example =
    start-flushes build same two_turns (event step_start none) true refl refl (λ e. cc e)

-- A turn that `tool_call` has finished.
abbrev finished : State
finished = record {
  text = codes "ab";
  turns = 1;
  row_ref = some 0;
  turn_finalized = true;
  next_ref = 1;
}

late_text-dropped_example :
    let (s₁, ws₁) = feed_agent_turn_event build same finished (token "d") true in
    let (s₂, ws₂) = feed_agent_turn_event build same s₁ (event step_start none) true in
    (ws₁ ≡ []) × (ws₂ ≡ []) × (s₂.text ≡ [])
unfolding text_eq
late_text-dropped_example =
    late_text-dropped build same finished (token "d") (event step_start none) true true
      (omega arith) refl refl refl
