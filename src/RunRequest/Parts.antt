-- ===== src/RunRequest/Parts.antt =====
-- host/src/routes/run-utils.ts: the parts of a request for a run, and the readers that need no parameter.
use ontheia.Prelude.{
  Bool, true, false, ◌&&◌, Option, none, some, List, [], ◌∷◌, if◌then◌else◌, Text, codes, text_eq,
  trim, includes, has_text,
}
use ontheia.ChainRunner.Values.{
  Value, undefined, bool, text, array, object, Values, no_values, value, Fields, no_fields, field,
  own_field, put_field, found_or,
}
use ontheia.Policy.{unless_blank, texts_of}

pub record ToolCall : Type 0 where
  pub id : Text
  pub name : Text
  pub arguments : Text

pub data Body : Type 0 where
  plain : Text → Body
  text_parts : List Text → Body

pub record ChatMessage : Type 0 where
  pub id : Option Text
  pub role : Text
  pub content : Body
  pub name : Option Text
  pub tool_call_id : Option Text
  pub tool_calls : Option (List ToolCall)

pub record MemoryOptions : Type 0 where
  pub enabled : Bool
  pub top_k : Option Text
  pub namespaces : Option (List Text)
  pub allow_write : Option Bool

pub record Request : Type 0 where
  pub provider_id : Text
  pub model_id : Text
  pub messages : List ChatMessage
  pub agent_id : Option Text
  pub task_id : Option Text
  pub chain_id : Option Text
  pub chain_version_id : Option Text
  pub options : Option Fields
  pub memory : Option MemoryOptions
  pub tool_approval : Option Text
  pub tool_permissions : Option Fields

abbrev pub roles : List Text
roles = codes "system" ∷ codes "user" ∷ codes "assistant" ∷ codes "tool" ∷ []

abbrev pub tool_approval_modes : List Text
tool_approval_modes = codes "prompt" ∷ codes "granted" ∷ codes "denied" ∷ []

abbrev pub permission_modes : List Text
permission_modes = codes "once" ∷ codes "always" ∷ []

-- `fs.key`
abbrev pub get_field : Text → Fields → Value
get_field key fs = found_or undefined (own_field key fs)

abbrev pub text_or_blank : Value → Text
text_or_blank (text t) = t
text_or_blank v = []

-- The text without the white space round it, if it is a text and not blank.
unfoldable pub given_text : Value → Option Text
unfolding trim
given_text v = unless_blank (trim (text_or_blank v))

abbrev pub is_text_value : Text → Value → Bool
is_text_value t (text u) = text_eq u t
is_text_value t v = false

abbrev pub text_part : Value → Option Text
text_part (object fs) = elim (is_text_value (codes "text") (get_field (codes "type") fs)) [
  | false ↦ none
  | true ↦ elim (get_field (codes "text") fs) [ text t ↦ some t | _ ↦ none ]
]
text_part v = none

abbrev pub onto_if_some : {A : Type 0} → Option A → List A → List A
onto_if_some none rest = rest
onto_if_some (some a) rest = a ∷ rest

unfoldable pub text_parts_of : Values → List Text
unfolding own_field text_eq
text_parts_of no_values = []
text_parts_of (value v vs) = onto_if_some (text_part v) (text_parts_of vs)

abbrev pub body_of : List Text → Option Body
body_of [] = none
body_of (t ∷ ts) = some (text_parts (t ∷ ts))

unfoldable pub parse_content : Value → Option Body
unfolding text_parts_of
parse_content (text t) = some (plain t)
parse_content (array vs) = body_of (text_parts_of vs)
parse_content v = none

unfoldable pub parse_tool_approval_mode : Value → Option Text
unfolding has_text
parse_tool_approval_mode (text t) = if has_text t tool_approval_modes then some t else none
parse_tool_approval_mode v = none

abbrev pub put_permission : Text → Value → Fields → Fields
put_permission key (text mode) out =
    if includes (codes "::") key && has_text mode permission_modes
    then put_field key (text mode) out
    else out
put_permission key v out = out

unfoldable pub put_permissions : Fields → Fields → Fields
unfolding put_field trim includes has_text
put_permissions no_fields out = out
put_permissions (field key mode fs) out = put_permissions fs (put_permission (trim key) mode out)

unfoldable pub parse_tool_permissions : Value → Option Fields
unfolding put_permissions
parse_tool_permissions (object fs) = some (put_permissions fs no_fields)
parse_tool_permissions v = none

abbrev pub flag_or : Bool → Value → Bool
flag_or b (bool c) = c
flag_or b v = b

abbrev pub flag : Value → Option Bool
flag (bool b) = some b
flag v = none

abbrev pub namespaces_of : Value → Option (List Text)
namespaces_of (array vs) = some (texts_of vs)
namespaces_of v = none

abbrev pub object_fields : Value → Option Fields
object_fields (object fs) = some fs
object_fields v = none

abbrev pub fields_or_empty : Option Fields → Fields
fields_or_empty none = no_fields
fields_or_empty (some fs) = fs
