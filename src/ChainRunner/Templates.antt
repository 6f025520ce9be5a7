-- ===== src/ChainRunner/Templates.antt =====
-- host/src/runtime/chain-runner.ts: the placeholders of templates, and the conditions of steps.
-- Parameters: `builtin` as in `ChainRunner.Values`; `string_of` and `stringify`, what `String` and
-- `JSON.stringify(…, null, 2)` make of an array or an object; `js_number`, whether the number that `Number`
-- reads in a text is other than 0, and `none` for NaN; `fold`, `toLowerCase` outside ASCII.
-- The object that `chainContext.steps` holds is the first argument of what reads it.
use ontheia.Prelude.{
  ℕ, zero, suc, ◌+◌, ◌==◌, leb, Bool, true, false, not, ◌&&◌, ◌||◌, Option, none, some, [], ◌∷◌,
  ◌++◌, if◌then◌else◌, Text, codes, text_eq, starts_with, trim, trim_start, to_lower, length, drop,
  key_until_brace, before, after, any, ends_with,
}
use ontheia.ChainRunner.Values.{
  Value, undefined, null, bool, number, text, array, object, Values, no_values, value, Fields,
  no_fields, field, get_deep, property, is_falsy,
}
use mathlib.Core.List.{reverse}

abbrev pub is_blank : Text → Bool
is_blank [] = true
is_blank (_ ∷ _) = false

-- `s.replace(pattern, f)` for a global pattern: `find` gives, at the front of a text, the length of the
-- match less one and what replaces it; `skip` counts the characters of the last match still to pass.
unfoldable pub replace_matches : (Text → Option (ℕ × Text)) → ℕ → Text → Text
replace_matches find skip [] = []
replace_matches find (suc skip) (c ∷ s) = replace_matches find skip s
replace_matches find zero (c ∷ s) = elim (find (c ∷ s)) [
  | none ↦ c ∷ replace_matches find 0 s
  | some m ↦ m.1 ++ replace_matches find m.0 s
]

-- The text between `${` at the front and the next `}`, whose characters are all of the kind.
unfoldable pub braced_key : (ℕ → Bool) → Text → Option Text
unfolding key_until_brace
braced_key is_key (c ∷ d ∷ s) = if c == b'$' && d == 123 then key_until_brace is_key s else none
braced_key is_key _ = none

abbrev pub is_template_char : ℕ → Bool
is_template_char c =
    (leb b'a' c && leb c b'z')
    || ((leb b'A' c && leb c b'Z') || ((leb b'0' c && leb c b'9') || (c == b'_' || c == b'.')))

abbrev pub is_not_brace : ℕ → Bool
is_not_brace c = not (c == 125)

abbrev pub enclosed : Text → Text
enclosed key = b'$' ∷ (123 ∷ (key ++ 125 ∷ []))

-- The step and the path of a key `steps.<id>.<path>`.
unfoldable pub step_key : Text → Option (Text × Text)
unfolding starts_with before after
step_key key =
    let rest = drop 6 key in
    let id = before b'.' rest in
    let path = after b'.' rest in
    if starts_with (codes "steps.") key && (not (is_blank id) && not (is_blank path))
    then some (id, path)
    else none

abbrev pub is_line_end : ℕ → Bool
is_line_end c = c == 10 || (c == 13 || (c == 0x2028 || c == 0x2029))

abbrev pub drop_last : Text → Text
drop_last s = reverse (drop 1 (reverse s))

abbrev pub on_one_line : Text → Option Text
on_one_line s = if any is_line_end s then none else some s

-- What `(['"]?)(.*?)\2$` captures second: the text between two equal quotes, or all of it.
unfoldable pub right_side : Text → Option Text
unfolding ends_with
right_side [] = some []
right_side (q ∷ s) =
    if (q == 39 || q == 34) && ends_with (q ∷ []) s
    then on_one_line (drop_last s)
    else on_one_line (q ∷ s)

-- What stands behind `\s*==\s*` at the front, with the first character of the operator given.
unfoldable pub behind_operator : ℕ → Text → Option Text
unfolding trim_start right_side
behind_operator op s = elim (trim_start s) [
  | [] ↦ none
  | c ∷ rest ↦ elim rest [
    | [] ↦ none
    | d ∷ rest' ↦ if c == op && d == b'=' then right_side (trim_start rest') else none
  ]
]

-- `^(.+?)\s*==\s*(['"]?)(.*?)\2$` and the same with `!=`: both sides, trimmed. `left` is what the first
-- group has so far, last character first.
unfoldable pub comparison : ℕ → Text → Text → Option (Text × Text)
unfolding behind_operator
comparison op left [] = none
comparison op left (c ∷ s) =
    let longer = comparison op (c ∷ left) s in
    elim (is_line_end c) [
      | true ↦ none
      | false ↦ elim (behind_operator op s) [
        | some r ↦ some (trim (reverse (c ∷ left)), trim r)
        | none ↦ longer
      ]
    ]

module _ (builtin : Value → Text → Value) (string_of stringify : Value → Text)
    (js_number : Text → Option Bool) (fold : ℕ → Text) where
  abbrev pub js_string : Value → Text
  js_string undefined = codes "undefined"
  js_string null = codes "null"
  js_string (bool true) = codes "true"
  js_string (bool false) = codes "false"
  js_string (number t) = t
  js_string (text t) = t
  js_string (array vs) = string_of (array vs)
  js_string (object fs) = string_of (object fs)

  abbrev pub template_text : Text → Value → Text
  template_text key undefined = enclosed key
  template_text key v = js_string v

  abbrev pub find_variable : Fields → Option Text → Option (ℕ × Text)
  find_variable context none = none
  find_variable context (some []) = none
  find_variable context (some (c ∷ key)) =
      some (length key + 3, template_text (c ∷ key) (get_deep builtin (object context) (c ∷ key)))

  unfoldable pub apply_template : Fields → Text → Text
  unfolding replace_matches braced_key get_deep
  apply_template context s =
      replace_matches (λ rest. find_variable context (braced_key is_template_char rest)) 0 s

  -- What a placeholder of a step is replaced by.
  abbrev pub step_text : Value → Text
  step_text undefined = []
  step_text null = []
  step_text (text t) = t
  step_text (number t) = t
  step_text (bool true) = codes "true"
  step_text (bool false) = codes "false"
  step_text (array vs) = stringify (array vs)
  step_text (object fs) = stringify (object fs)

  unfoldable pub step_value : Text → Text → Value → Text
  unfolding is_falsy get_deep
  step_value key path step =
      if is_falsy step then enclosed key else step_text (get_deep builtin step path)

  abbrev pub find_step_value : Fields → Text → Option (Text × Text) → Option (ℕ × Text)
  find_step_value steps key none = none
  find_step_value steps key (some (id, path)) =
      some (length key + 2, step_value key path (property builtin (object steps) id))

  abbrev pub find_step : Fields → Option Text → Option (ℕ × Text)
  find_step steps none = none
  find_step steps (some key) = find_step_value steps key (step_key key)

  unfoldable pub resolve_step_placeholders : Fields → Text → Text
  unfolding replace_matches braced_key step_key property step_value
  resolve_step_placeholders steps s =
      replace_matches (λ rest. find_step steps (braced_key is_not_brace rest)) 0 s

  unfoldable pub resolve_text : Fields → Fields → Text → Text
  unfolding apply_template resolve_step_placeholders
  resolve_text steps context s = resolve_step_placeholders steps (apply_template context s)

  unfoldable mutual
    unfolding resolve_text

    pub resolve_all : Fields → Fields → Value → Value
    resolve_all steps context (text s) = text (resolve_text steps context s)
    resolve_all steps context (array vs) = array (resolve_values steps context vs)
    resolve_all steps context (object fs) = object (resolve_fields steps context fs)
    resolve_all steps context undefined = undefined
    resolve_all steps context null = null
    resolve_all steps context (bool b) = bool b
    resolve_all steps context (number t) = number t

    pub resolve_values : Fields → Fields → Values → Values
    resolve_values steps context no_values = no_values
    resolve_values steps context (value v vs) =
        value (resolve_all steps context v) (resolve_values steps context vs)

    pub resolve_fields : Fields → Fields → Fields → Fields
    resolve_fields steps context no_fields = no_fields
    resolve_fields steps context (field k v fs) =
        field k (resolve_all steps context v) (resolve_fields steps context fs)

  unfoldable pub unquoted_condition : Text → Bool
  unfolding to_lower text_eq
  unquoted_condition s =
      let lower = to_lower fold s in
      if text_eq lower (codes "true")
      then true
      else if text_eq lower (codes "false")
      then false
      else elim (js_number s) [ some nonzero ↦ nonzero | none ↦ not (is_blank s) ]

  unfoldable pub text_condition : Text → Bool
  unfolding comparison unquoted_condition text_eq trim
  text_condition s = elim (comparison b'=' [] s) [
    | some p ↦ text_eq p.0 p.1
    | none ↦ elim (comparison b'!' [] s) [
      | some p ↦ not (text_eq p.0 p.1)
      | none ↦ unquoted_condition s
    ]
  ]

  unfoldable pub evaluate_condition : Fields → Fields → Value → Bool
  unfolding resolve_text text_condition trim text_eq
  evaluate_condition steps context undefined = true
  evaluate_condition steps context (bool b) = b
  evaluate_condition steps context (number t) = not (text_eq t (codes "0"))
  evaluate_condition steps context (text s) = text_condition (trim (resolve_text steps context s))
  evaluate_condition steps context null = true
  evaluate_condition steps context (array vs) = true
  evaluate_condition steps context (object fs) = true
