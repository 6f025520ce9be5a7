-- ===== src/Metadata.antt =====
-- host/src/memory/metadata.ts: the metadata of documents in the memory, as they come from callers and as they are
-- written. Values are those of `ChainRunner.Values`. Parameters: `is_finite` and `is_negative`, on the text of a
-- number, and `string_of`, what `String` makes of an array or an object. What is dropped is only logged, and the log is
-- left out.
pub mod Judged
pub mod Shape
mod Tests
use ontheia.Prelude.{
  ℕ, ◌≤◌, leb, length, Bool, true, false, not, ◌&&◌, ◌||◌, Option, none, some, List, [], ◌∷◌, ◌++◌,
  map, if◌then◌else◌, Text, String, codes, text_eq, trim, has_text,
}
use ontheia.ChainRunner.Values.{
  Value, undefined, null, bool, number, text, array, object, Values, no_values, value, Fields,
  no_fields, field, Found, absent, present, own_field, put_field,
}

abbrev pub id_keys : List Text
id_keys =
    codes "agent_id"
    ∷ codes "task_id"
    ∷ codes "user_id"
    ∷ codes "session_id"
    ∷ codes "chat_id"
    ∷ codes "run_id"
    ∷ codes "step_id"
    ∷ []

-- `RESERVED_METADATA_KEYS`
abbrev pub reserved_metadata_keys : List Text
reserved_metadata_keys =
    codes "source"
    ∷ codes "agent_id"
    ∷ codes "task_id"
    ∷ codes "user_id"
    ∷ codes "session_id"
    ∷ codes "chat_id"
    ∷ codes "run_id"
    ∷ codes "step_id"
    ∷ codes "embedding"
    ∷ codes "embedding_model"
    ∷ codes "embedding_dim"
    ∷ codes "created_at"
    ∷ codes "updated_at"
    ∷ codes "observed_at"
    ∷ codes "superseded_by"
    ∷ codes "status"
    ∷ codes "status_changed_at"
    ∷ codes "last_surfaced_at"
    ∷ codes "deleted_at"
    ∷ codes "expires_at"
    ∷ []

-- `KNOWN_METADATA_SOURCES`
abbrev pub known_metadata_sources : List Text
known_metadata_sources =
    codes "llm_tool_write"
    ∷ codes "run_input"
    ∷ codes "run_output"
    ∷ codes "chain_step"
    ∷ codes "directory_ingest"
    ∷ codes "onaris-sync"
    ∷ []

abbrev pub pollution_keys : List Text
pollution_keys = codes "__proto__" ∷ codes "constructor" ∷ codes "prototype" ∷ []

abbrev pub max_id_length : ℕ
max_id_length = 128

abbrev pub has_characters : Text → Bool
has_characters [] = false
has_characters (c ∷ t) = true

unfoldable pub is_non_empty_string : Value → ℕ → Bool
unfolding trim
is_non_empty_string (text t) max_length = has_characters (trim t) && leb (length t) max_length
is_non_empty_string v max_length = false

abbrev pub is_rejected : Text → Bool
is_rejected key = has_text key pollution_keys || has_text key reserved_metadata_keys

unfoldable pub strip_fields : Fields → Fields
unfolding has_text
strip_fields no_fields = no_fields
strip_fields (field key v fs) =
    let rest = strip_fields fs in if is_rejected key then rest else field key v rest

-- `stripReservedMetadata`
unfoldable pub strip_reserved_metadata : Value → Fields
unfolding strip_fields
strip_reserved_metadata (object fs) = strip_fields fs
strip_reserved_metadata v = no_fields

-- `delete object[key]`
unfoldable pub delete_field : Text → Fields → Fields
unfolding text_eq
delete_field key no_fields = no_fields
delete_field key (field k v fs) =
    let rest = delete_field key fs in if text_eq key k then rest else field k v rest

-- What becomes of a field.
pub data Verdict : Type 0 where
  keep : Verdict
  drop : Verdict
  store : Value → Verdict

abbrev pub execute : Text → Verdict → Fields → Fields
execute key keep fs = fs
execute key drop fs = delete_field key fs
execute key (store v) fs = put_field key v fs

abbrev pub Rule : Type 0
Rule = Text × (Found → Verdict)

-- The rules are applied one after the other.
unfoldable pub apply_rules : List Rule → Fields → Fields
unfolding own_field delete_field put_field
apply_rules [] fs = fs
apply_rules ((key, judge) ∷ rules) fs =
    apply_rules rules (execute key (judge (own_field key fs)) fs)

abbrev pub judge_pollution : Found → Verdict
judge_pollution absent = keep
judge_pollution (present v) = drop

abbrev pub judge_embedding : Found → Verdict
judge_embedding (present (array vs)) = drop
judge_embedding f = keep

-- The tags that are texts and not blank.
unfoldable pub clean_tags : Values → Values
unfolding trim
clean_tags no_values = no_values
clean_tags (value (text t) tags) =
    let rest = clean_tags tags in if has_characters (trim t) then value (text t) rest else rest
clean_tags (value v tags) = clean_tags tags

abbrev pub store_tags : Values → Verdict
store_tags no_values = drop
store_tags (value v vs) = store (array (value v vs))

unfoldable pub judge_tags : Found → Verdict
unfolding clean_tags
judge_tags absent = keep
judge_tags (present undefined) = keep
judge_tags (present (array tags)) = store_tags (clean_tags tags)
judge_tags (present v) = drop

unfoldable pub judge_id : Found → Verdict
unfolding is_non_empty_string
judge_id absent = keep
judge_id (present v) = if is_non_empty_string v max_id_length then keep else drop

abbrev pub on_pollution : Text → Rule
on_pollution key = (key, judge_pollution)

abbrev pub on_id : Text → Rule
on_id key = (key, judge_id)

module _ (is_finite is_negative : Text → Bool) (string_of : Value → Text) where
  abbrev pub as_text : Value → Text
  as_text undefined = codes "undefined"
  as_text null = codes "null"
  as_text (bool true) = codes "true"
  as_text (bool false) = codes "false"
  as_text (number t) = t
  as_text (text t) = t
  as_text (array vs) = string_of (array vs)
  as_text (object fs) = string_of (object fs)

  unfoldable mutual
    -- `JSON.parse(JSON.stringify(v))` for a value that is not `undefined`
    pub clone : Value → Value
    clone undefined = null
    clone null = null
    clone (bool b) = bool b
    clone (number t) = if is_finite t then number t else null
    clone (text t) = text t
    clone (array vs) = array (clone_values vs)
    clone (object fs) = object (clone_fields fs)

    pub clone_values : Values → Values
    clone_values no_values = no_values
    clone_values (value v vs) = value (clone v) (clone_values vs)

    pub clone_fields : Fields → Fields
    clone_fields no_fields = no_fields
    clone_fields (field key undefined fs) = clone_fields fs
    clone_fields (field key v fs) = field key (clone v) (clone_fields fs)

  unfoldable pub judge_source : Found → Verdict
  unfolding has_text
  judge_source absent = keep
  judge_source (present undefined) = keep
  judge_source (present v) = if has_text (as_text v) known_metadata_sources then keep else drop

  unfoldable pub judge_ttl : Found → Verdict
  judge_ttl absent = keep
  judge_ttl (present undefined) = keep
  judge_ttl (present (number t)) = if not (is_finite t) || is_negative t then drop else keep
  judge_ttl (present v) = drop

  abbrev pub rules : List Rule
  rules =
      map on_pollution pollution_keys
      ++ ((codes "embedding", judge_embedding) ∷ (codes "source", judge_source) ∷ [])
      ++ map on_id id_keys
      ++ ((codes "ttl_seconds", judge_ttl) ∷ (codes "tags", judge_tags) ∷ [])

  -- `sanitizeMetadata`
  unfoldable pub sanitize_metadata : Option Fields → Fields
  unfolding apply_rules clone_fields judge_source judge_ttl judge_tags judge_id
  sanitize_metadata none = no_fields
  sanitize_metadata (some input) = apply_rules rules (clone_fields input)
