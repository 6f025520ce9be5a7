-- ===== src/AgentTurn/Run.antt =====
-- A whole run: the events of host/src/runtime/agent-turn-tracker.ts fed in order, each with the
-- caller's throttle decision, and the writes in the order in which they are returned.
use ontheia.Prelude.{ℕ, Bool, List, [], ◌∷◌, ◌++◌, Text}
use ontheia.AgentTurn.{State, create_agent_turn_state, Event, Write, feed_agent_turn_event}

-- The newest event stands first.
abbrev pub History : Type 0 → Type 0
History C = List (Event C × Bool)

module _ {C D : Type 0} (build_metadata : ℕ → Text → Bool → D) (with_tool_calls : C → D → D) where
  unfoldable pub run_events : History C → State × List (Write D)
  run_events [] = (create_agent_turn_state, [])
  run_events ((e, tick) ∷ earlier) =
      let (s, written) = run_events earlier in
      let (s', new) = feed_agent_turn_event build_metadata with_tool_calls s e tick in
      (s', written ++ new)
