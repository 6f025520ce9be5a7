-- ===== src/RunRequest.antt =====
-- host/src/routes/run-utils.ts: `parseRunRequest`, which reads the body of a request for a run. Values are those of
-- `ChainRunner.Values`, and numbers their texts. Parameters: `string_of`, what `String` makes of a value, `floor` of
-- `Math`, and `is_top_k`, whether a number is neither below 1 nor above 50.
mod Messages
pub mod Sound
mod Tests
pub mod Parts
use ontheia.Prelude.{
  Bool, true, false, not, ◌&&◌, ◌||◌, Option, none, some, List, [], ◌∷◌, if◌then◌else◌, Text, codes,
  text_eq, trim, includes, has_text,
}
use ontheia.ChainRunner.Values.{
  Value, undefined, null, bool, number, text, array, object, Values, no_values, value, Fields,
  no_fields, field, Found, absent, present, own_field, put_field, found_or,
}
use ontheia.Policy.{unless_blank, texts_of, or_unset}
use ontheia.RunRequest.Parts.{
  ToolCall, Body, ChatMessage, MemoryOptions, Request, roles, tool_approval_modes, permission_modes,
  get_field, text_or_blank, given_text, is_text_value, text_part, onto_if_some, text_parts_of,
  body_of, parse_content, parse_tool_approval_mode, put_permission, put_permissions,
  parse_tool_permissions, flag_or, flag, namespaces_of, object_fields, fields_or_empty, plain,
  text_parts,
}

abbrev pub is_named : Option Text → Bool
is_named none = false
is_named (some t) = true

abbrev pub has_units : Text → Bool
has_units [] = false
has_units (c ∷ t) = true

module _ (string_of : Value → Text) (floor : Text → Text) (is_top_k : Text → Bool) where
  abbrev pub named_call : Value → Value → Option ToolCall
  named_call (text id) (object function) = some (record {
    id = trim id;
    name = trim (string_of (get_field (codes "name") function));
    arguments = string_of (get_field (codes "arguments") function);
  })
  named_call id function = none

  abbrev pub parse_call : Value → Option ToolCall
  parse_call (object call) =
      if is_text_value (codes "function") (get_field (codes "type") call)
      then named_call (get_field (codes "id") call) (get_field (codes "function") call)
      else none
  parse_call v = none

  unfoldable pub parse_calls : Values → List ToolCall
  unfolding own_field text_eq trim
  parse_calls no_values = []
  parse_calls (value v vs) = onto_if_some (parse_call v) (parse_calls vs)

  abbrev pub tool_calls_of : Value → Option (List ToolCall)
  tool_calls_of (array vs) = some (parse_calls vs)
  tool_calls_of v = none

  abbrev pub message_of : Fields → Text → Body → ChatMessage
  message_of entry role content = record {
    id = given_text (get_field (codes "id") entry);
    role = role;
    content = content;
    name = given_text (get_field (codes "name") entry);
    tool_call_id = given_text (get_field (codes "tool_call_id") entry);
    tool_calls = tool_calls_of (get_field (codes "tool_calls") entry);
  }

  unfoldable pub parse_entry : Value → Option ChatMessage
  unfolding own_field given_text parse_calls parse_content has_text
  parse_entry (object entry) =
      let role = text_or_blank (get_field (codes "role") entry) in
      elim (has_text role roles) [
        | false ↦ none
        | true ↦ elim (parse_content (get_field (codes "content") entry)) [
          | none ↦ none
          | some content ↦ some (message_of entry role content)
        ]
      ]
  parse_entry v = none

  unfoldable pub parse_entries : Values → Option (List ChatMessage)
  unfolding parse_entry
  parse_entries no_values = some []
  parse_entries (value v vs) =
      let rest = parse_entries vs in
      elim (parse_entry v) [
        | none ↦ none
        | some m ↦ elim rest [ none ↦ none | some ms ↦ some (m ∷ ms) ]
      ]

  unfoldable pub parse_messages : Value → Option (List ChatMessage)
  unfolding parse_entries
  parse_messages (array (value v vs)) = parse_entries (value v vs)
  parse_messages v = none

  abbrev pub clamped_top_k : Value → Option Text
  clamped_top_k (number n) = if is_top_k (floor n) then some (floor n) else some (codes "5")
  clamped_top_k v = none

  unfoldable pub parse_memory_options_payload : Value → Option MemoryOptions
  unfolding own_field texts_of
  parse_memory_options_payload (object raw) = some (record {
    enabled = flag_or true (get_field (codes "enabled") raw);
    top_k = clamped_top_k (get_field (codes "top_k") raw);
    namespaces = namespaces_of (get_field (codes "namespaces") raw);
    allow_write = flag (get_field (codes "allow_write") raw);
  })
  parse_memory_options_payload v = none

  abbrev pub options_of : Fields → Option Fields
  options_of b = object_fields (get_field (codes "options") b)

  abbrev pub metadata_of : Fields → Fields
  metadata_of b =
      fields_or_empty
        (object_fields (get_field (codes "metadata") (fields_or_empty (options_of b))))

  -- A field of the body, or else the one of its metadata.
  abbrev pub named_in : Text → Fields → Option Text
  named_in key b =
      or_unset (given_text (get_field key b)) (given_text (get_field key (metadata_of b)))

  abbrev pub request_of : Fields → List ChatMessage → Request
  request_of b messages = record {
    provider_id = trim (text_or_blank (get_field (codes "provider_id") b));
    model_id = trim (text_or_blank (get_field (codes "model_id") b));
    messages = messages;
    agent_id = named_in (codes "agent_id") b;
    task_id = named_in (codes "task_id") b;
    chain_id = named_in (codes "chain_id") b;
    chain_version_id = named_in (codes "chain_version_id") b;
    options = options_of b;
    memory = parse_memory_options_payload (get_field (codes "memory") b);
    tool_approval =
        or_unset (parse_tool_approval_mode (get_field (codes "tool_approval") b))
          (parse_tool_approval_mode (get_field (codes "tool_approval") (metadata_of b)));
    tool_permissions =
        or_unset (parse_tool_permissions (get_field (codes "tool_permissions") b))
          (parse_tool_permissions (get_field (codes "tool_permissions") (metadata_of b)));
  }

  -- `chainId || (providerId && modelId)`
  abbrev pub is_complete : Request → Bool
  is_complete r = is_named r.chain_id || (has_units r.provider_id && has_units r.model_id)

  unfoldable pub parse_run_request : Value → Option Request
  unfolding own_field given_text parse_messages parse_memory_options_payload
      parse_tool_approval_mode parse_tool_permissions trim
  parse_run_request (object b) = elim (parse_messages (get_field (codes "messages") b)) [
    | none ↦ none
    | some messages ↦
        if is_complete (request_of b messages) then some (request_of b messages) else none
  ]
  parse_run_request v = none
