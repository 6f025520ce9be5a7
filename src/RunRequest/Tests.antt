-- ===== src/RunRequest/Tests.antt =====
-- A request at concrete values.
use ontheia.Prelude.{
  ◌≡◌, refl, Bool, true, none, some, [], ◌∷◌, Text, codes, text_eq, trim, includes, has_text,
}
use ontheia.ChainRunner.Values.{
  Value, text, array, object, no_values, value, no_fields, field, own_field, put_field,
}
use ontheia.RunRequest.Parts.{
  plain, Request, given_text, parse_content, parse_tool_approval_mode, put_permissions,
  parse_tool_permissions,
}
use ontheia.RunRequest.{
  parse_calls, parse_entry, parse_entries, parse_messages, parse_memory_options_payload,
  parse_run_request,
}
use ontheia.RunRequest.Sound.{IsSound, parse_run_request-IsSound}

abbrev word : Value → Text
word (text t) = t
word v = codes "undefined"

abbrev whole : Text → Text
whole t = t

abbrev few : Text → Bool
few t = true

abbrev body : Value
body = object (
    field (codes "provider_id") (text (codes " openai ")) (
      field (codes "model_id") (text (codes "m")) (
        field (codes "messages")
          (array (
            value
              (object (
                field (codes "role") (text (codes "user"))
                  (field (codes "content") (text (codes "hi")) no_fields)))
              no_values))
          (field (codes "tool_permissions")
            (object (
              field (codes "fs::read") (text (codes "once"))
                (field (codes "fs") (text (codes "always")) no_fields)))
            no_fields))))

abbrev request : Request
request = record {
  provider_id = codes "openai";
  model_id = codes "m";
  messages =
      record {
        id = none;
        role = codes "user";
        content = plain (codes "hi");
        name = none;
        tool_call_id = none;
        tool_calls = none;
      }
      ∷ [];
  agent_id = none;
  task_id = none;
  chain_id = none;
  chain_version_id = none;
  options = none;
  memory = none;
  tool_approval = none;
  tool_permissions = some (field (codes "fs::read") (text (codes "once")) no_fields);
}

parsed : parse_run_request word whole few body ≡ some request
unfolding parse_run_request parse_messages parse_entries parse_entry parse_content parse_calls
    parse_memory_options_payload parse_tool_approval_mode parse_tool_permissions put_permissions
    given_text own_field put_field text_eq trim includes has_text
parsed = refl

parse_run_request-IsSound_example : IsSound word whole few request
parse_run_request-IsSound_example = parse_run_request-IsSound word whole few body request parsed
