-- ===== src/ChainRunner/Engine.antt =====
-- host/src/runtime/chain-runner.ts: the control flow of `ChainRunner`: `run`, `runStep` and the handlers of
-- `branch`, `loop`, `retry`, `delay` and `transform`. What the handlers of the other steps (`llm`, `tool`,
-- `memory_search`, `memory_write`, `rest_call`, `agent`) do is the parameter `perform`; `parallel` is left out.
-- Parameters beside those of `ChainRunner.Templates`: `wait`, what happens while the runner sleeps; `parse_json`,
-- `tryParseJson`; `show_number`, `String` on a natural number. The signal of an abort is a field of the
-- state, which `perform` and `wait` may set. Events for debugging and those of `perform` are left out.
use ontheia.Prelude.{
  ℕ, zero, suc, ◌+◌, ◌-◌, ◌*◌, ◌==◌, leb, Bool, false, ◌&&◌, ◌||◌, Option, List, [], ◌∷◌, ◌++◌,
  if◌then◌else◌, Text, codes, trim_start,
}
use Prim.Native.Nat.{min}
use ontheia.ChainRunner.Values.{
  Value, text, object, Fields, no_fields, field, Found, present, own_field, put_field, put_fields,
}

pub record Header : Type 0 where
  pub id : Text
  pub type : Text
  pub when : Value

-- A field of the step itself, and the one in its `params`.
pub record Setting : Type 0 where
  pub own : Value
  pub in_params : Value

mutual
  pub data Step : Type 0 where
    leaf : Header → Fields → Step
    transform : Header → Text → Bool → Step
    delay : Header → Setting → Step
    branch : Header → Cases → Step
    loop : Header → Setting → Steps → Step
    retry : Header → Setting → Setting → Value → Steps → Step

  pub data Steps : Type 0 where
    no_steps : Steps
    step : Step → Steps → Steps

  -- The cases of a branch, with its `default` at the end if there is one.
  pub data Cases : Type 0 where
    no_default : Cases
    default : Steps → Cases
    case : Value → Steps → Cases → Cases

-- An integer as `parseInt` gives it.
pub data Parsed : Type 0 where
  nan : Parsed
  positive : ℕ → Parsed
  negative : ℕ → Parsed

abbrev pub is_digit : ℕ → Bool
is_digit c = leb b'0' c && leb c b'9'

unfoldable pub read_digits : ℕ → Text → ℕ
read_digits n [] = n
read_digits n (c ∷ s) =
    let rest = read_digits (10 * n + (c - b'0')) s in if is_digit c then rest else n

abbrev pub begins_digit : Text → Bool
begins_digit [] = false
begins_digit (c ∷ s) = is_digit c

abbrev pub unsigned : (ℕ → Parsed) → Text → Parsed
unsigned sign s = if begins_digit s then sign (read_digits 0 s) else nan

abbrev pub signed : Text → Parsed
signed [] = nan
signed (c ∷ s) =
    if c == b'-'
    then unsigned negative s
    else if c == b'+'
    then unsigned positive s
    else unsigned positive (c ∷ s)

-- `parseInt(s, 10)`
unfoldable pub parse_int : Text → Parsed
unfolding trim_start read_digits
parse_int s = signed (trim_start s)

-- `n || d`, for a `d` over 0.
unfoldable pub or_number : ℕ → Parsed → Parsed
or_number d nan = positive d
or_number d (positive zero) = positive d
or_number d (positive (suc n)) = positive (suc n)
or_number d (negative zero) = positive d
or_number d (negative (suc n)) = negative (suc n)

-- How often a loop up to the number runs, and `Math.min(n, 50)`.
abbrev pub rounds : Parsed → ℕ
rounds (positive n) = n
rounds _ = 0

abbrev pub at_most : ℕ → Parsed → Parsed
at_most m (positive n) = positive (min n m)
at_most m p = p

pub data Event : Type 0 where
  step_start : Text → Event
  step_complete : Text → Event
  step_failed : Text → Text → Event
  run_token : Text → Event

pub record State (W : Type 0) : Type 0 where
  pub steps : Fields
  pub inside_retry : Bool
  pub aborted : Bool
  pub events : List Event
  pub world : W

-- An exception carries its message.
pub data Outcome (W : Type 0) : Type 0 where
  returned : State W → Outcome W
  thrown : Text → State W → Outcome W

-- What a step that is not modelled does: the fields that it spreads into its result, the error if it
-- throws, and whether the run is aborted meanwhile.
pub record Performed (W : Type 0) : Type 0 where
  pub updates : Fields
  pub failure : Option Text
  pub now_aborted : Bool
  pub world_after : W

-- A wait: whether one of the checks during it sees the abort, whether it is set at the end.
pub record Waited (W : Type 0) : Type 0 where
  pub noticed : Bool
  pub abort_set : Bool
  pub after_wait : W

pub record Edge : Type 0 where
  pub from : Text
  pub to : Text
  pub map_entries : List (Text × Text)

abbrev pub abort_message : Text
abort_message = codes "Run was aborted by user."

-- The fields of `steps[id]`; spreading a missing one gives none.
abbrev pub fields_of : Found → Fields
fields_of (present (object fs)) = fs
fields_of _ = no_fields

module _ {W : Type 0} where
  -- `steps[id] = { ...steps[id], ...updates }`
  unfoldable pub spread_result : Text → Fields → State W → State W
  unfolding own_field put_field put_fields
  spread_result id updates st = record st {
    steps = put_field id (object (put_fields updates (fields_of (own_field id st.steps)))) st.steps;
  }

  abbrev pub emit : Event → State W → State W
  emit e st = record st { events = st.events ++ e ∷ [] }

  infixl 5 ◌>>=◌
  abbrev pub ◌>>=◌ : Outcome W → (State W → Outcome W) → Outcome W
  returned st >>= f = f st
  thrown m st >>= f = thrown m st

  unfoldable pub check_abort : State W → Outcome W
  check_abort st = if st.aborted then thrown abort_message st else returned st

  -- The rounds of a loop.
  unfoldable pub repeat_rounds : ℕ → (State W → Outcome W) → State W → Outcome W
  unfolding check_abort
  repeat_rounds zero body st = returned st
  repeat_rounds (suc n) body st = check_abort st >>= λ st'. body st' >>= repeat_rounds n body

  -- What `runStep` does with an error of a handler.
  unfoldable pub record_failure : Header → Text → State W → State W
  unfolding spread_result
  record_failure h message st =
      spread_result h.id
        (field (codes "error") (text message)
          (field (codes "status") (text (codes "failed")) no_fields))
        (emit (step_failed h.id message) st)

  unfoldable pub settle : Header → Outcome W → Outcome W
  unfolding record_failure
  settle h (returned st) = returned (emit (step_complete h.id) st)
  settle h (thrown message st) =
      let st' = record_failure h message st in
      if st'.inside_retry || st'.aborted
      then thrown message st'
      else returned (emit (step_complete h.id) st')
