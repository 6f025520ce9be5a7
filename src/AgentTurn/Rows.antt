-- ===== src/AgentTurn/Rows.antt =====
-- The rows of host/src/runtime/agent-turn-tracker.ts: which object each write addresses.
use ontheia.Prelude.{
  ℕ, ◌+◌, ◌≤◌, Bool, true, Option, none, some, List, [], ◌∷◌, ◌++◌, ◌≡◌, arith, Text,
}
use ontheia.AgentTurn.{State, create_agent_turn_state, Event, Write, feed_agent_turn_event}
use ontheia.AgentTurn.Run.{History, run_events}

-- The row of the current turn is the object that was allocated with it.
abbrev RowOf : ℕ → Option ℕ → Type 0
RowOf turns none = turns ≡ 0
RowOf turns (some r) = r + 1 ≡ turns

pub record IsValid (s : State) : Type 0 where
  pub fresh : s.next_ref ≡ s.turns
  pub row : RowOf s.turns s.row_ref
  pub idle : s.turns ≡ 0 → s.turn_finalized ≡ true

-- Each write addresses the row of its own turn, and the turns only go up: from `lo` to `hi`, both
-- counted from 1.
abbrev pub InTurns : {D : Type 0} → ℕ → ℕ → List (Write D) → Type 0
InTurns lo hi [] = lo ≤ hi
InTurns lo hi (w ∷ ws) =
    (w.row_ref ≡ w.turn_index) × (lo ≤ w.turn_index + 1) × InTurns (w.turn_index + 1) hi ws

InTurns-lower :
    {D : Type 0} (a b c : ℕ) (ws : List (Write D)) → a ≤ b → InTurns b c ws → InTurns a c ws
InTurns-lower a b c [] p q = omega arith
InTurns-lower a b c (w ∷ ws) p q = (q.0, omega arith, q.2)

InTurns-append :
    {D : Type 0} (lo mid hi : ℕ) (xs ys : List (Write D))
    → InTurns lo mid xs
    → InTurns mid hi ys
    → InTurns lo hi (xs ++ ys)
InTurns-append lo mid hi [] ys h k = InTurns-lower lo mid hi ys h k
InTurns-append lo mid hi (x ∷ xs) ys h k =
    (h.0, h.1, InTurns-append (x.turn_index + 1) mid hi xs ys h.2 k)

module _ {C D : Type 0} (build_metadata : ℕ → Text → Bool → D) (with_tool_calls : C → D → D) where
  feed-IsValid :
      (s : State) (e : Event C) (tick : Bool)
      → IsValid s
      → IsValid (feed_agent_turn_event build_metadata with_tool_calls s e tick).0
  unfolding feed_agent_turn_event
  feed-IsValid s e tick v = ground arith

  feed-InTurns :
      (s : State) (e : Event C) (tick : Bool)
      → IsValid s
      → InTurns s.turns
          (feed_agent_turn_event build_metadata with_tool_calls s e tick).0.turns
          (feed_agent_turn_event build_metadata with_tool_calls s e tick).1
  unfolding feed_agent_turn_event
  feed-InTurns s e tick v = ground arith

  pub run-IsValid : (h : History C) → IsValid (run_events build_metadata with_tool_calls h).0
  unfolding run_events create_agent_turn_state
  run-IsValid [] = ground arith
  run-IsValid ((e, tick) ∷ h) =
      feed-IsValid (run_events build_metadata with_tool_calls h).0 e tick (run-IsValid h)

  -- Over every run: each write addresses the row that was allocated for its own turn, so no write
  -- reaches the row of another turn; the turn indices of the writes never go down; and all of them
  -- belong to a turn that has begun.
  pub run-InTurns :
      (h : History C)
      → InTurns 0
          (run_events build_metadata with_tool_calls h).0.turns
          (run_events build_metadata with_tool_calls h).1
  unfolding run_events create_agent_turn_state
  run-InTurns [] = omega arith
  run-InTurns ((e, tick) ∷ h) =
      let s = (run_events build_metadata with_tool_calls h).0 in
      InTurns-append 0 s.turns
        (feed_agent_turn_event build_metadata with_tool_calls s e tick).0.turns
        (run_events build_metadata with_tool_calls h).1 _ (run-InTurns h)
        (feed-InTurns s e tick (run-IsValid h))
