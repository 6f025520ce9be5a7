-- ===== src/AgentTurn/Content.antt =====
-- The texts of host/src/runtime/agent-turn-tracker.ts: what each write carries, and what is lost.
use ontheia.Prelude.{
  ℕ, ◌-◌, ◌<◌, Bool, true, false, Option, List, [], ◌∷◌, ◌++◌, ◌≡◌, refl, arith, Text, All,
  append-nil, sym, codes, ◌≢◌, ◌∙◌, if◌then◌else◌, Has,
}
use ontheia.AgentTurn.{
  State, create_agent_turn_state, EventType, run_token, step_start, complete, Event, Write,
  feed_agent_turn_event, is_start, ensure_turn, start_turn, attach, or_else, or_empty,
}
use ontheia.AgentTurn.Run.{History, run_events}
use ontheia.AgentTurn.Rows.{IsValid, run-IsValid}

-- The text that an event streams, and the text that completes a turn which streamed none.
abbrev pub token_of : EventType → Option Text → Text
token_of run_token text = or_empty text
token_of _ text = []

abbrev pub output_of : EventType → Option Text → Text
output_of complete output = or_empty output
output_of _ output = []

abbrev pub starts_turn : EventType → Option Text → Bool
starts_turn step_start step = is_start step
starts_turn _ step = false

-- The text streamed since the last turn began, read off the events alone.
unfoldable pub streamed : {C : Type 0} → History C → Text
streamed [] = []
streamed ((e, tick) ∷ earlier) =
    if starts_turn e.type e.step then [] else streamed earlier ++ token_of e.type e.text

-- The text of the current turn when an event is handled: what was streamed, with the event's own
-- token; a turn that streamed nothing takes the output of `complete`.
pub said : {C : Type 0} → History C → Event C → Text
said earlier e = or_else (streamed earlier ++ token_of e.type e.text) (output_of e.type e.output)

abbrev pub Carries : {D : Type 0} → Text → Write D → Type 0
Carries t w = w.content ≡ t

All-append :
    {D : Type 0} (P : Write D → Type 0) (xs ys : List (Write D))
    → All P xs
    → All P ys
    → All P (xs ++ ys)
All-append P [] ys h k = k
All-append P (x ∷ xs) ys h k = (h.0, All-append P xs ys h.1 k)

module _ {C D : Type 0} (build_metadata : ℕ → Text → Bool → D) (with_tool_calls : C → D → D) where
  feed-text :
      (s : State) (e : Event C) (tick : Bool)
      → (feed_agent_turn_event build_metadata with_tool_calls s e tick).0.text
        ≡ (if starts_turn e.type e.step then [] else s.text ++ token_of e.type e.text)
  unfolding feed_agent_turn_event
  feed-text s e tick = ground (arith, append-nil s.text)

  run-text : (h : History C) → (run_events build_metadata with_tool_calls h).0.text ≡ streamed h
  unfolding run_events streamed create_agent_turn_state
  run-text [] = refl
  run-text ((e, tick) ∷ h) =
      rw (feed-text (run_events build_metadata with_tool_calls h).0 e tick, run-text h) refl

  feed-Carries :
      (s : State) (e : Event C) (tick : Bool)
      → IsValid s
      → All
          (Carries (or_else (s.text ++ token_of e.type e.text) (output_of e.type e.output)))
          (feed_agent_turn_event build_metadata with_tool_calls s e tick).1
  unfolding feed_agent_turn_event
  feed-Carries s e tick v = ground (arith, append-nil s.text)

  -- Over every run, whatever event comes next: each write that it causes carries the text streamed
  -- since the last turn began, the event's own token included, or the output of `complete` where
  -- that text is empty. No text of another turn reaches it.
  pub feed-said :
      (h : History C) (e : Event C) (tick : Bool)
      → All
          (Carries (said h e))
          (feed_agent_turn_event build_metadata with_tool_calls
            (run_events build_metadata with_tool_calls h).0
            e
            tick).1
  unfolding said
  feed-said h e tick = rw (← run-text h) (
      feed-Carries (run_events build_metadata with_tool_calls h).0 e tick
        (run-IsValid build_metadata with_tool_calls h))

  flush-start :
      (s : State) (e : Event C) (tick : Bool)
      → IsValid s
      → starts_turn e.type e.step ≡ true
      → s.turn_finalized ≡ false
      → s.text ≢ []
      → feed_agent_turn_event build_metadata with_tool_calls s e tick ≡ (
        start_turn s,
        record {
          row_ref = s.turns - 1;
          turn_index = s.turns - 1;
          content = s.text;
          metadata = build_metadata (s.turns - 1) (codes "running") false;
        }
            ∷ [],
      )
  unfolding feed_agent_turn_event
  flush-start s e tick v st open_turn full = ground arith

  -- A finished turn takes no more text into its row: what is streamed to it before the next turn
  -- starts is in no write of the two events, and the new turn begins empty.
  pub late_text-dropped :
      (s : State) (e₁ e₂ : Event C) (tick₁ tick₂ : Bool)
      → 0 < s.turns
      → s.turn_finalized ≡ true
      → e₁.type ≡ run_token
      → starts_turn e₂.type e₂.step ≡ true
      → let (s₁, ws₁) = feed_agent_turn_event build_metadata with_tool_calls s e₁ tick₁ in
        let (s₂, ws₂) = feed_agent_turn_event build_metadata with_tool_calls s₁ e₂ tick₂ in
        (ws₁ ≡ []) × (ws₂ ≡ []) × (s₂.text ≡ [])
  unfolding feed_agent_turn_event
  late_text-dropped s e₁ e₂ tick₁ tick₂ pos fin tok st = ground arith

  -- Over every run: when the next turn starts and the current one is not finished and has streamed
  -- text, the only write is the closing one of the current turn, to its own row, with all of that
  -- text and the metadata of a running, no longer streaming turn; the state is that of a new turn.
  pub start-flushes :
      (h : History C) (e : Event C) (tick : Bool)
      → starts_turn e.type e.step ≡ true
      → (run_events build_metadata with_tool_calls h).0.turn_finalized ≡ false
      → streamed h ≢ []
      → let s = (run_events build_metadata with_tool_calls h).0 in
        feed_agent_turn_event build_metadata with_tool_calls s e tick ≡ (
          start_turn s,
          record {
            row_ref = s.turns - 1;
            turn_index = s.turns - 1;
            content = streamed h;
            metadata = build_metadata (s.turns - 1) (codes "running") false;
          }
              ∷ [],
        )
  start-flushes h e tick st open_turn full = rw (← run-text h) (
      flush-start (run_events build_metadata with_tool_calls h).0 e tick
        (run-IsValid build_metadata with_tool_calls h) st open_turn
        (λ (none_left : (run_events build_metadata with_tool_calls h).0.text ≡ []).
          full (sym (run-text h) ∙ none_left)))

  complete-last :
      (s : State) (e : Event C) (tick : Bool)
      → IsValid s
      → e.type ≡ complete
      → or_else s.text (or_empty e.output) ≢ []
      → Has
          (record {
            row_ref = (ensure_turn s).turns - 1;
            turn_index = (ensure_turn s).turns - 1;
            content = or_else s.text (or_empty e.output);
            metadata = attach build_metadata with_tool_calls e.tool_calls (
                build_metadata
                  ((ensure_turn s).turns - 1)
                  (or_else (or_empty e.status) (codes "success"))
                  false);
          })
          (feed_agent_turn_event build_metadata with_tool_calls s e tick).1
        × ((feed_agent_turn_event build_metadata with_tool_calls s e tick).0.turn_finalized ≡ true)
  unfolding feed_agent_turn_event
  complete-last s e tick v c full = ground arith

  -- Over every run: `complete` with any text to show causes a write, to the current turn's row and
  -- also where the turn was finished before, of the streamed text or else of the event's output,
  -- with the event's status or else "success" and with its tool calls; the turn is then finished.
  complete-writes :
      (h : History C) (e : Event C) (tick : Bool)
      → e.type ≡ complete
      → or_else (streamed h) (or_empty e.output) ≢ []
      → let s = (run_events build_metadata with_tool_calls h).0 in
        let s' = ensure_turn s in
        let status = or_else (or_empty e.status) (codes "success") in
        Has
          (record {
            row_ref = s'.turns - 1;
            turn_index = s'.turns - 1;
            content = or_else (streamed h) (or_empty e.output);
            metadata =
                attach build_metadata with_tool_calls e.tool_calls
                  (build_metadata (s'.turns - 1) status false);
          })
          (feed_agent_turn_event build_metadata with_tool_calls s e tick).1
        × ((feed_agent_turn_event build_metadata with_tool_calls s e tick).0.turn_finalized ≡ true)
  complete-writes h e tick c full = rw (← run-text h) (
      complete-last (run_events build_metadata with_tool_calls h).0 e tick
        (run-IsValid build_metadata with_tool_calls h) c (rw (run-text h) full))
