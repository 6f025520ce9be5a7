-- ===== src/History/Images.antt =====
-- host/src/runtime/chain-runner.ts and host/src/runtime/provider-run.ts: how images are taken out of a text, and the two
-- functions `sanitizeHistory`. Parameters: `parse_json`, what `JSON.parse` gives, `none` where it throws, and `stringify` of
-- JSON.
use ontheia.Prelude.{
  ℕ, ◌+◌, ◌==◌, leb, Bool, true, false, not, ◌&&◌, ◌||◌, Option, none, some, List, [], ◌∷◌,
  if◌then◌else◌, length, drop, Text, codes, text_eq, starts_with, before, after,
}
use ontheia.ChainRunner.Values.{
  Value, undefined, text, array, object, Values, no_values, value, no_fields, field, own_field,
  put_field, found_or,
}
use ontheia.ChainRunner.Templates.{replace_matches}
use ontheia.History.{Part, Message, has_no_text, is_void, sanitize_history}

abbrev pub is_base64 : ℕ → Bool
is_base64 c =
    (leb b'a' c && leb c b'z')
    || ((leb b'A' c && leb c b'Z')
        || ((leb b'0' c && leb c b'9') || (c == b'+' || (c == b'/' || c == b'='))))

-- The number of characters at the front that are of base64.
unfoldable pub base64_length : Text → ℕ
base64_length [] = 0
base64_length (c ∷ s) = if is_base64 c then base64_length s + 1 else 0

abbrev pub is_no_text : Text → Bool
is_no_text [] = true
is_no_text (c ∷ t) = false

-- What matches `data:image\/[^;]+;base64,[A-Za-z0-9+/=]+` at the front: the length less one, and the replacement. The type
-- of the image ends at the first `;`.
unfoldable pub data_uri : Text → Option (ℕ × Text)
unfolding starts_with before after base64_length
data_uri s =
    let kind = before b';' (drop 11 s) in
    let encoded = drop (12 + length kind) s in
    let size = base64_length (drop 7 encoded) in
    if starts_with (codes "data:image/") s
      && (not (is_no_text kind) && (starts_with (codes "base64,") encoded && leb 1 size))
    then some (length kind + size + 18, codes "[image]")
    else none

abbrev pub image_item : Value
image_item = object (
    field (codes "type") (text (codes "text"))
      (field (codes "text") (text (codes "[image]")) no_fields))

abbrev pub is_image : Value → Bool
is_image (text t) = text_eq t (codes "image")
is_image v = false

abbrev pub clean_item : Value → Value
clean_item (object fs) =
    if is_image (found_or undefined (own_field (codes "type") fs)) then image_item else object fs
clean_item v = v

unfoldable pub clean_items : Values → Values
unfolding own_field text_eq
clean_items no_values = no_values
clean_items (value v vs) = value (clean_item v) (clean_items vs)

-- The text of a result whose items are cleaned; `none` where it has no items.
unfoldable pub clean_result : Value → Option Value
unfolding clean_items put_field
clean_result (array vs) = some (array (clean_items vs))
clean_result (object fs) = elim (found_or undefined (own_field (codes "content") fs)) [
  | array vs ↦ some (object (put_field (codes "content") (array (clean_items vs)) fs))
  | _ ↦ none
]
clean_result v = none

module _ (parse_json : Text → Option Value) (stringify : Value → Text) where
  abbrev pub clean_parsed : Option Value → Option Value
  clean_parsed none = none
  clean_parsed (some v) = clean_result v

  -- `stripFromString`
  unfoldable pub strip_from_string : Text → Text
  unfolding clean_result replace_matches data_uri
  strip_from_string s = elim (clean_parsed (parse_json s)) [
    | some v ↦ stringify v
    | none ↦ replace_matches data_uri 0 s
  ]

  -- `sanitizeHistory` of the chain runner, and of the loop of a provider.
  unfoldable pub sanitize_chain_history :
      {P C : Type 0} → Part P → List (Message P C) → List (Message P C)
  unfolding sanitize_history has_no_text strip_from_string
  sanitize_chain_history image history =
      sanitize_history has_no_text strip_from_string image 0 history

  unfoldable pub sanitize_provider_history :
      {P C : Type 0} → Part P → List (Message P C) → List (Message P C)
  unfolding sanitize_history is_void strip_from_string
  sanitize_provider_history image history =
      sanitize_history is_void strip_from_string image 0 history
