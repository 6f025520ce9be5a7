-- ===== src/AgentTurn.antt =====
-- host/src/runtime/agent-turn-tracker.ts: the state machine that turns the events of a run into
-- rows of the chat, one row for each completion turn.
-- `AgentTurnState` is the record `State`. Its field `turnIndex`, which starts at -1, is kept as its
-- successor `turns`; a write carries the index itself. The objects `{ messageId: null }` are told
-- apart by identity alone here, so `row_ref` holds a number, and `next_ref` is the next fresh one.
-- The metadata are what the caller's builder returns, so their type, the builder and the one
-- assignment to `metadata.tool_calls` are parameters.
pub mod Run
pub mod Rows
pub mod Content
mod Tests
use ontheia.Prelude.{
  ℕ, ◌+◌, ◌-◌, ◌==◌, ltb, Bool, true, false, not, ◌&&◌, Option, none, some, List, [], ◌∷◌, ◌++◌,
  if◌then◌else◌, Text, codes, text_eq,
}

-- The values of `event.type` that the tracker looks at; `other` stands for all the rest.
pub data EventType : Type 0 where
  run_token step_start tool_call error complete other : EventType

pub record State : Type 0 where
  pub text : Text
  pub turns : ℕ
  pub row_ref : Option ℕ
  pub turn_finalized : Bool
  pub next_ref : ℕ

pub create_agent_turn_state : State
create_agent_turn_state = record {
  text = [];
  turns = 0;
  row_ref = none;
  turn_finalized = true;
  next_ref = 0;
}

-- An optional field that is absent, or whose value is not a string, is `none`. `tool_calls` holds
-- the truthy values of that field.
pub record Event (C : Type 0) : Type 0 where
  pub type : EventType
  pub step : Option Text
  pub text : Option Text
  pub output : Option Text
  pub status : Option Text
  pub tool_calls : Option C

pub record Write (D : Type 0) : Type 0 where
  pub row_ref : ℕ
  pub turn_index : ℕ
  pub content : Text
  pub metadata : D

abbrev pub turn_start_step : Text
turn_start_step = codes "dispatch_provider_request"

-- `x !== ''`, and the truth value of a string.
abbrev pub is_full : Text → Bool
is_full [] = false
is_full (_ ∷ _) = true

abbrev pub or_empty : Option Text → Text
or_empty none = []
or_empty (some s) = s

-- `a || b` on strings.
abbrev pub or_else : Text → Text → Text
or_else [] t = t
or_else (c ∷ s) t = c ∷ s

abbrev pub is_start : Option Text → Bool
is_start none = false
is_start (some s) = text_eq s turn_start_step

abbrev has_row : Option ℕ → Bool
has_row none = false
has_row (some r) = true

pub ensure_turn : State → State
ensure_turn s =
    if s.turns == 0
    then record s {
      turns = 1;
      row_ref = some s.next_ref;
      next_ref = s.next_ref + 1;
      turn_finalized = false;
    }
    else s

is_flushable : State → Bool
is_flushable s = ltb 0 s.turns && (has_row s.row_ref && (not s.turn_finalized && is_full s.text))

-- The body of `step_start`, after the flush: a new turn with a row of its own.
pub start_turn : State → State
start_turn s = record s {
  turns = s.turns + 1;
  text = [];
  row_ref = some s.next_ref;
  next_ref = s.next_ref + 1;
  turn_finalized = false;
}

-- The event `run_token`.
accumulate : Option Text → State → State
accumulate none s = s
accumulate (some []) s = s
accumulate (some (c ∷ t)) s = let s' = ensure_turn s in record s' { text = s'.text ++ c ∷ t }

module _ {C D : Type 0} (build_metadata : ℕ → Text → Bool → D) (with_tool_calls : C → D → D) where
  -- A write of the current turn, for the object that `row_ref` holds.
  write_at : Option ℕ → State → Text → D → List (Write D)
  write_at none s content metadata = []
  write_at (some r) s content metadata =
      record { row_ref = r; turn_index = s.turns - 1; content = content; metadata = metadata } ∷ []

  flush : Text → State → State × List (Write D)
  flush status s =
      if is_flushable s
      then (
        record s { turn_finalized = true },
        write_at s.row_ref s s.text (build_metadata (s.turns - 1) status false),
      )
      else (s, [])

  persist_tick : Bool → State → List (Write D)
  persist_tick throttled_persist s =
      if throttled_persist && is_flushable s
      then write_at s.row_ref s s.text (build_metadata (s.turns - 1) (codes "running") true)
      else []

  pub attach : Option C → D → D
  attach none metadata = metadata
  attach (some calls) metadata = with_tool_calls calls metadata

  finish : Event C → State → State × List (Write D)
  finish e s =
      let s' = ensure_turn s in
      let content = or_else s'.text (or_empty e.output) in
      let status = or_else (or_empty e.status) (codes "success") in
      let metadata = attach e.tool_calls (build_metadata (s'.turns - 1) status false) in
      if is_full content
      then (record s' { turn_finalized = true }, write_at s'.row_ref s' content metadata)
      else (s', [])

  -- What the event does before the throttled write.
  react : EventType → Event C → State → State × List (Write D)
  react run_token e s = (accumulate e.text s, [])
  react step_start e s =
      let (s', flushed) = flush (codes "running") s in
      if is_start e.step then (start_turn s', flushed) else (s, [])
  react tool_call e s = flush (codes "running") s
  react error e s = flush (codes "error") s
  react complete e s = (s, [])
  react other e s = (s, [])

  -- What the event does after it.
  close : EventType → Event C → State → State × List (Write D)
  close complete e s = finish e s
  close _ e s = (s, [])

  pub feed_agent_turn_event : State → Event C → Bool → State × List (Write D)
  unfolding ensure_turn is_flushable start_turn accumulate write_at flush persist_tick attach finish
      react close
  feed_agent_turn_event s e throttled_persist =
      let (s₁, before) = react e.type e s in
      let (s₂, last) = close e.type e s₁ in
      (s₂, before ++ (persist_tick throttled_persist s₁ ++ last))
