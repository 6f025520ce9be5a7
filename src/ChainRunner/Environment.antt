-- ===== src/ChainRunner/Environment.antt =====
-- host/src/runtime/chain-runner.ts: the environment of a run, conditions, settings and edges.
use ontheia.Prelude.{ℕ, Bool, not, Option, List, [], ◌∷◌, if◌then◌else◌, Text, codes, text_eq}
use ontheia.ChainRunner.Values.{
  Value, undefined, number, text, object, Fields, no_fields, own_field, put_field, get_deep,
  found_or, is_falsy,
}
use ontheia.ChainRunner.Templates.{js_string, resolve_all, evaluate_condition}
use ontheia.ChainRunner.Engine.{
  Header, Setting, Parsed, positive, negative, nan, parse_int, or_number, State, Performed, Waited,
  Edge, fields_of,
}

-- The environment of a runner, with the parts that it calls.
pub record Runner (W : Type 0) : Type 0 where
  pub builtin : Value → Text → Value
  pub string_of : Value → Text
  pub stringify : Value → Text
  pub js_number : Text → Option Bool
  pub fold : ℕ → Text
  pub show_number : ℕ → Text
  pub parse_json : Text → Option Value
  pub perform : Header → Fields → Fields → W → Performed W
  pub wait : Header → Parsed → W → Waited W
  pub context : Fields
  pub edges : List Edge

module _ {W : Type 0} (r : Runner W) where
  unfoldable pub condition : State W → Value → Bool
  condition st v =
      evaluate_condition r.builtin r.string_of r.stringify r.js_number r.fold st.steps r.context v

  abbrev pub show_parsed : Parsed → Value
  show_parsed (positive n) = number (r.show_number n)
  show_parsed (negative n) = number (b'-' ∷ r.show_number n)
  show_parsed nan = number (codes "NaN")

  -- `parseInt(this.resolveAll(step.x || step.params?.x || d), 10) || d`
  unfoldable pub read_setting : Text → ℕ → Setting → State W → Parsed
  unfolding is_falsy parse_int or_number
  read_setting literal d s st =
      let chosen =
        if not (is_falsy s.own)
        then s.own
        else if not (is_falsy s.in_params)
        then s.in_params
        else text literal in
      or_number d (
        parse_int (
          js_string r.builtin r.string_of r.stringify r.js_number r.fold (
            resolve_all r.builtin r.string_of r.stringify r.js_number r.fold st.steps r.context
              chosen)))

  -- What an edge moves into the inputs of its target.
  unfoldable pub take_entries : Text → Value → List (Text × Text) → Fields → Fields
  unfolding get_deep own_field put_field
  take_entries id source [] steps = steps
  take_entries id source ((path, key) ∷ entries) steps =
      let target = fields_of (own_field id steps) in
      let inputs = fields_of (own_field (codes "inputs") target) in
      take_entries id source entries (
        put_field id
          (object (
            put_field (codes "inputs")
              (object (put_field key (get_deep r.builtin source path) inputs)) target))
          steps)

  -- A target without a result, or without inputs, gets empty ones.
  unfoldable pub with_inputs : Text → Fields → Fields
  unfolding own_field put_field is_falsy
  with_inputs id steps =
      let target = fields_of (own_field id steps) in
      if is_falsy (found_or undefined (own_field (codes "inputs") target))
      then put_field id (object (put_field (codes "inputs") (object no_fields) target)) steps
      else steps

  unfoldable pub take_edge : Text → Edge → Fields → Fields
  unfolding own_field is_falsy with_inputs take_entries
  take_edge id e steps =
      let source = found_or undefined (own_field e.from steps) in
      if is_falsy source then steps else take_entries id source e.map_entries (with_inputs id steps)

  unfoldable pub take_edges : Text → List Edge → Fields → Fields
  unfolding take_edge text_eq
  take_edges id [] steps = steps
  take_edges id (e ∷ edges) steps =
      take_edges id edges (if text_eq e.to id then take_edge id e steps else steps)
