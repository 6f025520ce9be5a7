-- ===== src/ChainRunner.antt =====
-- host/src/runtime/chain-runner.ts: `runStep` and its handlers, over the parts in the children.
pub mod Values
pub mod Assigned
pub mod Templates
pub mod Engine
mod Calm
mod Handlers
pub mod Contained
pub mod Stale
mod Tests
pub mod Environment
use ontheia.Prelude.{
  ℕ, zero, suc, ◌+◌, ◌-◌, ◌==◌, leb, ltb, Bool, true, false, not, ◌&&◌, ◌||◌, Option, none, some,
  List, [], ◌∷◌, ◌++◌, if◌then◌else◌, Text, codes, text_eq, trim, any,
}
use ontheia.ChainRunner.Values.{
  Value, undefined, null, bool, number, text, array, object, Fields, no_fields, field, Found,
  absent, present, own_field, put_field, get_deep, found_or, is_falsy,
}
use ontheia.ChainRunner.Templates.{
  is_blank, js_string, resolve_text, resolve_all, evaluate_condition,
}
use ontheia.ChainRunner.Engine.{
  Header, Setting, Step, leaf, transform, delay, branch, loop, retry, Steps, no_steps, step, Cases,
  case, no_default, default, Parsed, positive, negative, nan, parse_int, or_number, rounds, at_most,
  Event, step_start, run_token, State, Outcome, returned, thrown, Performed, Waited, Edge,
  abort_message, fields_of, spread_result, emit, ◌>>=◌, check_abort, repeat_rounds, settle,
}
use ontheia.ChainRunner.Environment.{
  Runner, condition, show_parsed, read_setting, take_entries, with_inputs, take_edge, take_edges,
}

module _ {W : Type 0} (r : Runner W) where
  unfoldable pub handle_performed : Header → Performed W → State W → Outcome W
  unfolding spread_result
  handle_performed h p st =
      let st' = record (spread_result h.id p.updates st) {
        aborted = st.aborted || p.now_aborted;
        world = p.world_after;
      } in
      elim p.failure [ none ↦ returned st' | some message ↦ thrown message st' ]

  abbrev pub output_text : Value → Text
  output_text (text t) = t
  output_text v = r.stringify v

  abbrev pub transformed : Text → Option Value → Value × Value
  transformed resolved none = (text resolved, null)
  transformed resolved (some v) = (v, v)

  -- `handleTransformStep`
  unfoldable pub handle_transform : Header → Text → Bool → State W → Outcome W
  unfolding resolve_text trim spread_result
  handle_transform h template silent st =
      let resolved =
        resolve_text r.builtin r.string_of r.stringify r.js_number r.fold st.steps r.context
          template in
      let trimmed = trim resolved in
      let (output, parsed) =
        transformed resolved
          (if any (λ c. c == 123 || c == b'[') trimmed then r.parse_json trimmed else none) in
      let st' =
        spread_result h.id (field (codes "output") output (field (codes "data") parsed no_fields))
          st in
      returned (if silent then st' else emit (run_token (output_text output)) st')

  abbrev pub result_data : Text → Text → Value → Fields
  result_data status key v =
      field (codes "data") (object (field (codes "status") (text status) (field key v no_fields)))
        no_fields

  unfoldable pub delayed : Header → Parsed → State W → Outcome W
  unfolding spread_result
  delayed h ms st =
      returned
        (spread_result h.id (result_data (codes "delayed") (codes "ms") (show_parsed r ms)) st)

  abbrev pub after_sleep : Waited W → State W → State W
  after_sleep w st = record st {
    aborted = st.aborted || (w.noticed || w.abort_set);
    world = w.after_wait;
  }

  -- The sleeps of a delay, between which the signal is checked.
  unfoldable pub sleep : Header → Parsed → State W → Outcome W
  unfolding delayed
  sleep h ms st =
      let w = r.wait h ms st.world in
      if w.noticed then thrown abort_message (after_sleep w st) else delayed h ms (after_sleep w st)

  -- `handleDelayStep`
  unfoldable pub handle_delay : Header → Setting → State W → Outcome W
  unfolding read_setting check_abort delayed sleep
  handle_delay h s st =
      let ms = read_setting r (codes "1000") 1000 s st in
      if rounds ms == 0 then delayed h ms st else check_abort st >>= sleep h ms

  -- The end of an attempt that threw: the error is kept for the end, and a wait follows unless it was the last.
  unfoldable pub pause_after : Header → Parsed → ℕ → State W → State W
  pause_after h ms left st =
      if left == 0 || rounds ms == 0 then st else after_sleep (r.wait h ms st.world) st

  -- `success_when`, once the steps of an attempt are through.
  unfoldable pub check_success : Value → State W → Outcome W
  unfolding is_falsy condition
  check_success v st =
      if is_falsy v || condition r st v
      then returned st
      else thrown
          (codes "Success condition r '"
            ++ (js_string r.builtin r.string_of r.stringify r.js_number r.fold v
                ++ codes "' not met"))
          st

  -- The attempts of `handleRetryStep`, with those left and the last error; `some` error at the end means
  -- that none succeeded.
  unfoldable pub attempts : Header → Parsed → (State W → Outcome W) → ℕ → Text → State W → Outcome W
  unfolding check_abort pause_after
  attempts h ms body zero last st = thrown last st
  attempts h ms body (suc left) last st = check_abort st >>= λ st. elim (body st) [
    | returned st' ↦ returned st'
    | thrown message st' ↦ elim (st'.aborted) [
      | true ↦ thrown message st'
      | false ↦ attempts h ms body left message (pause_after h ms left st')
    ]
  ]

  abbrev pub parsed_text : Parsed → Text
  parsed_text (positive n) = r.show_number n
  parsed_text (negative n) = b'-' ∷ r.show_number n
  parsed_text nan = codes "NaN"

  abbrev pub restore : Bool → State W → State W
  restore b st = record st { inside_retry = b }

  abbrev pub attempts_failed : Header → Parsed → Text
  attempts_failed h n =
      codes "Retry block "
      ++ (h.id ++ (codes " failed after " ++ (parsed_text n ++ codes " attempts")))

  -- What follows the attempts: the flag `isInsideRetry` as it was, unless an abort left the loop.
  unfoldable pub after_attempts : Header → Parsed → Bool → Outcome W → Outcome W
  unfolding spread_result
  after_attempts h n was_inside (returned st) = returned (
      spread_result h.id
        (result_data (codes "retry_completed") (codes "attempts") (show_parsed r n))
        (restore was_inside st))
  after_attempts h n was_inside (thrown message st) =
      thrown message (if st.aborted then st else restore was_inside st)

  -- `handleRetryStep`, given how its steps run.
  unfoldable pub handle_retry :
      Header → Setting → Setting → Value → (State W → Outcome W) → State W → Outcome W
  unfolding read_setting check_success attempts after_attempts
  handle_retry h count pause success_when body st =
      let n = read_setting r (codes "3") 3 count st in
      after_attempts h n st.inside_retry (
        attempts h (read_setting r (codes "1000") 1000 pause st)
          (λ st. body st >>= check_success success_when) (rounds n) (attempts_failed h n)
          (restore true st))

  -- `handleLoopStep`
  unfoldable pub handle_loop : Header → Setting → (State W → Outcome W) → State W → Outcome W
  unfolding read_setting repeat_rounds spread_result
  handle_loop h count body st =
      let n = at_most 50 (read_setting r (codes "1") 1 count st) in
      repeat_rounds (rounds n) body st >>= λ st. returned (
        spread_result h.id
          (result_data (codes "loop_completed") (codes "iterations") (show_parsed r n)) st)

  abbrev pub branch_data : Text → Fields
  branch_data index =
      field (codes "data") (object (field (codes "executedBranchIndex") (number index) no_fields))
        no_fields

  -- `runStep` around the handler of a step.
  unfoldable pub run_with : Header → (State W → Outcome W) → State W → Outcome W
  unfolding check_abort condition take_edges settle
  run_with h handler st = check_abort st >>= λ st.
      if is_blank h.id || not (condition r st h.when)
      then returned st
      else settle h (
          handler
            (emit (step_start h.id) (record st { steps = take_edges r h.id r.edges st.steps })))

  unfoldable mutual
    unfolding run_with handle_performed handle_transform handle_delay handle_loop handle_retry
        spread_result condition

    pub run_step : Step → State W → Outcome W
    run_step (leaf h fields) st =
        run_with h (λ st. handle_performed h (r.perform h fields st.steps st.world) st) st
    run_step (transform h template silent) st = run_with h (handle_transform h template silent) st
    run_step (delay h s) st = run_with h (handle_delay h s) st
    run_step (branch h cases) st = run_with h (λ st. run_cases h 0 cases st) st
    run_step (loop h count steps) st =
        run_with h (handle_loop h count (λ st. run_steps steps st)) st
    run_step (retry h count pause success_when steps) st =
        run_with h (handle_retry h count pause success_when (λ st. run_steps steps st)) st

    pub run_steps : Steps → State W → Outcome W
    run_steps no_steps st = returned st
    run_steps (step s steps) st = run_step s st >>= λ st. run_steps steps st

    -- `handleBranchStep`, from a case on.
    pub run_cases : Header → ℕ → Cases → State W → Outcome W
    run_cases h i no_default st = returned (spread_result h.id (branch_data (codes "-1")) st)
    run_cases h i (default steps) st =
        run_steps steps st >>= λ st. returned (spread_result h.id (branch_data (codes "999")) st)
    run_cases h i (case when steps cases) st =
        let taken = run_steps steps st >>= λ st.
        returned (spread_result h.id (branch_data (r.show_number i)) st) in
        let later = run_cases h (i + 1) cases st in if condition r st when then taken else later

  -- `run`
  unfoldable pub run : Steps → Bool → W → Outcome W
  unfolding run_steps
  run steps aborted world = run_steps steps (record {
    steps = no_fields;
    inside_retry = false;
    aborted = aborted;
    events = [];
    world = world;
  })
