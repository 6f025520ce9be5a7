-- ===== src/History/Tests.antt =====
-- Tests of `sanitizeHistory` of host/src/runtime/chain-runner.ts, and an example of the theorem on it.
use ontheia.Prelude.{
  ℕ, ◌≡◌, refl, inl, inr, none, some, List, [], ◌∷◌, Text, String, codes, starts_with, before,
  after, Option, none,
}
use ontheia.History.{
  has_no_text, extract_text, Part, plain_text, Role, assistant, tool, other_role, Call, Message,
  sanitize_history,
}
use ontheia.History.Images.{data_uri, base64_length, strip_from_string}
use ontheia.ChainRunner.Values.{Value}
use ontheia.ChainRunner.Templates.{replace_matches}
use ontheia.History.Valid.{IsPaired, sanitize_history-IsPaired}
use ontheia.Prelude.{Has}
use ontheia.History.Kept.{sanitize_history-keeps}

abbrev image : Part ℕ
image = record { kind = codes "text"; part_text = some (codes "[image]"); more = 0 }

abbrev keep_text : Text → Text
keep_text t = t

abbrev said : Role → String → Message ℕ ℕ
said r t = record { role = r; content = plain_text (codes t); tool_calls = []; tool_call_id = none }

abbrev asked : String → List String → Message ℕ ℕ
asked t [] = said assistant t
asked t (i ∷ ids) = record {
  role = assistant;
  content = plain_text (codes t);
  tool_calls = call i ∷ calls ids;
  tool_call_id = none;
}
  where
    call : String → Call ℕ
    call i = record { id = codes i; payload = 0 }

    calls : List String → List (Call ℕ)
    calls [] = []
    calls (i ∷ ids) = call i ∷ calls ids

abbrev answered : String → Message ℕ ℕ
answered i = record {
  role = tool;
  content = plain_text (codes "ok");
  tool_calls = [];
  tool_call_id = some (codes i);
}

abbrev history : List (Message ℕ ℕ)
history =
    said other_role "hi"
    ∷ asked "" ("a" ∷ "b" ∷ [])
    ∷ answered "b"
    ∷ answered "x"
    ∷ answered "a"
    ∷ asked "so" ("c" ∷ [])
    ∷ answered "d"
    ∷ said assistant "bye"
    ∷ []

sanitized_test :
    sanitize_history has_no_text keep_text image 0 history
    ≡ said other_role "hi"
      ∷ asked "" ("a" ∷ "b" ∷ [])
      ∷ answered "b"
      ∷ answered "a"
      ∷ said assistant "so"
      ∷ said assistant "bye"
      ∷ []
unfolding sanitize_history has_no_text extract_text
sanitized_test = refl

sanitize_history-IsPaired_example :
    IsPaired (sanitize_history has_no_text keep_text image 0 history)
sanitize_history-IsPaired_example = sanitize_history-IsPaired has_no_text keep_text image 0 history

sanitize_history-keeps_example :
    Has (said assistant "bye") (sanitize_history has_no_text keep_text image 0 history)
sanitize_history-keeps_example =
    sanitize_history-keeps has_no_text keep_text image (said assistant "bye") history refl
      (λ a. refl) (inr (inr (inr (inr (inr (inr (inr (inl refl))))))))

abbrev no_json : Text → Option Value
no_json t = none

abbrev no_text : Value → Text
no_text v = []

stripped_test :
    strip_from_string no_json no_text (codes "a data:image/png;base64,iVB= b") ≡ codes "a [image] b"
unfolding strip_from_string replace_matches data_uri base64_length starts_with before after
stripped_test = refl
