-- ===== src/ChainRunner/Tests.antt =====
-- Tests of the chain runner of host/src/runtime/chain-runner.ts, and examples of the theorems on it.
use ontheia.Prelude.{
  ℕ, zero, suc, ◌+◌, ◌≡◌, refl, Bool, true, false, Option, none, some, List, [], ◌∷◌, Text, String,
  codes,
}
use ontheia.ChainRunner.Values.{Value, undefined, number, text, Fields, no_fields, field}
use ontheia.ChainRunner.Templates.{apply_template, resolve_all, evaluate_condition}
use ontheia.ChainRunner.Engine.{
  Header, Setting, leaf, transform, retry, Steps, no_steps, step, Parsed, parse_int, negative,
  Event, step_start, step_complete, step_failed, run_token, State, Outcome, returned, thrown,
  Performed, Waited,
}
use ontheia.ChainRunner.Environment.{Runner, condition}
use ontheia.ChainRunner.{run, run_step}
use ontheia.ChainRunner.Calm.{NeverAborts}
use ontheia.ChainRunner.Contained.{run-Returns}
use ontheia.ChainRunner.Stale.{retried-HasFailed, HasFailed}

abbrev no_builtin : Value → Text → Value
no_builtin v key = undefined

abbrev json : Value → Text
json v = codes "{}"

abbrev no_number : Text → Option Bool
no_number t = none

abbrev ascii_only : ℕ → Text
ascii_only c = []

abbrev digit : ℕ → Text
digit n = (48 + n) ∷ []

abbrev unparsed : Text → Option Value
unparsed t = none

-- Fails at its first call.
abbrev fails_once : Header → Fields → Fields → ℕ → Performed ℕ
fails_once h fs steps zero = record {
  updates = no_fields;
  failure = some (codes "timeout");
  now_aborted = false;
  world_after = 1;
}
fails_once h fs steps (suc n) = record {
  updates = field (codes "output") (text (codes "ok")) no_fields;
  failure = none;
  now_aborted = false;
  world_after = suc (suc n);
}

abbrev quiet_wait : Header → Parsed → ℕ → Waited ℕ
quiet_wait h ms w = record { noticed = false; abort_set = false; after_wait = w }

abbrev runner : Runner ℕ
runner = record {
  builtin = no_builtin;
  string_of = json;
  stringify = json;
  js_number = no_number;
  fold = ascii_only;
  show_number = digit;
  parse_json = unparsed;
  perform = fails_once;
  wait = quiet_wait;
  context = field (codes "name") (text (codes "Ann")) no_fields;
  edges = [];
}

abbrev header : String → Header
header s = record { id = codes s; type = codes "tool"; when = undefined }

abbrev setting : Value → Setting
setting v = record { own = v; in_params = undefined }

abbrev chain : Steps
chain =
    step
      (retry (header "r") (setting (number (codes "2"))) (setting undefined) undefined
        (step (leaf (header "a") no_fields) no_steps))
      (step (transform (header "t") (codes "${steps.a.output}/${steps.a.status}") false) no_steps)

abbrev results : Outcome ℕ → Fields
results (returned st) = st.steps
results (thrown message st) = no_fields

abbrev events_of : Outcome ℕ → List Event
events_of (returned st) = st.events
events_of (thrown message st) = []

template_test :
    apply_template no_builtin json json no_number ascii_only
      (field (codes "name") (text (codes "Ann")) no_fields)
      (codes "${name} ${x} $")
    ≡ codes "Ann ${x} $"
unfolding apply_template
template_test = refl

equal_test :
    evaluate_condition no_builtin json json no_number ascii_only no_fields no_fields
      (text (codes "a b == 'a b'"))
    ≡ true
unfolding evaluate_condition
equal_test = refl

strict_equal_test :
    evaluate_condition no_builtin json json no_number ascii_only no_fields no_fields
      (text (codes "a === a"))
    ≡ false
unfolding evaluate_condition
strict_equal_test = refl

unequal_test :
    evaluate_condition no_builtin json json no_number ascii_only no_fields no_fields
      (text (codes "a != b"))
    ≡ true
unfolding evaluate_condition
unequal_test = refl

parse_test : parse_int (codes " -12px") ≡ negative 12
unfolding parse_int
parse_test = refl

-- The tool fails once and succeeds once, and its result still says that it failed.
retried_test :
    events_of (run runner chain false 0)
    ≡ step_start (codes "r")
      ∷ step_start (codes "a")
      ∷ step_failed (codes "a") (codes "timeout")
      ∷ step_start (codes "a")
      ∷ step_complete (codes "a")
      ∷ step_complete (codes "r")
      ∷ step_start (codes "t")
      ∷ run_token (codes "ok/failed")
      ∷ step_complete (codes "t")
      ∷ []
unfolding run evaluate_condition resolve_all
retried_test = refl

never_aborts : NeverAborts runner
never_aborts = (perform_quiet, λ h ms w. (refl, refl))
  where
    perform_quiet :
        (h : Header) (fs steps : Fields) (w : ℕ) → (fails_once h fs steps w).now_aborted ≡ false
    perform_quiet h fs steps zero = refl
    perform_quiet h fs steps (suc w) = refl

run-Returns_example : (st : State ℕ) × (run runner chain false 0 ≡ returned st)
run-Returns_example = run-Returns runner never_aborts chain 0

abbrev in_retry : State ℕ
in_retry = record {
  steps = no_fields;
  inside_retry = true;
  aborted = false;
  events = [];
  world = 0;
}

abbrev state_after : Outcome ℕ → State ℕ
state_after (returned st) = st
state_after (thrown message st) = st

abbrev after_failure : State ℕ
after_failure = state_after (run_step runner (leaf (header "a") no_fields) in_retry)

retried-HasFailed_example :
    (st : State ℕ) × (run_step runner (leaf (header "a") no_fields) after_failure ≡ returned st)
    × HasFailed (codes "a") (codes "timeout") st
unfolding run_step condition evaluate_condition
retried-HasFailed_example =
    retried-HasFailed runner (header "a") no_fields in_retry after_failure after_failure
      (codes "timeout") true true (refl, refl) refl refl refl (refl, refl) refl refl refl (refl, tt)
      (refl, tt)
