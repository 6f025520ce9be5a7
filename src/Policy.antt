-- ===== src/Policy.antt =====
-- host/src/routes/policy-utils.ts: the memory policies of agents and tasks, as they are stored, read and merged.
-- Values are those of `ChainRunner.Values`. The parameters `clamp_top_k` and `clamp_unit` are what the calls of
-- `Math` make of a number: at least 1, at most 20 and whole, or between 0 and 1, where `none` stands for a number
-- that is not finite. `none` for a policy is an exception. The rows of the database are arguments.
pub mod Roundtrip
pub mod Merge
mod Tests
use ontheia.Prelude.{
  ℕ, ◌==◌, Bool, true, false, not, ◌&&◌, ◌||◌, Option, none, some, List, [], ◌∷◌, ◌++◌,
  if◌then◌else◌, Text, codes, text_eq, trim,
}
use ontheia.ChainRunner.Values.{
  Value, undefined, null, bool, number, text, array, object, Values, no_values, value, Fields,
  no_fields, field, Found, absent, present, own_field, found_or, is_falsy,
}

-- A flag is the value that the payload has, unchecked in part; `undefined` is a field that is not set.
pub record MemoryPolicy : Type 0 where
  pub read_namespaces : Option (List Text)
  pub tool_read_namespaces : Option (List Text)
  pub auto_read_enabled : Value
  pub write_namespace : Option Text
  pub allow_write : Value
  pub top_k : Option Text
  pub min_score : Option Text
  pub relative_cutoff : Option Text
  pub allowed_write_namespaces : Option (List Text)
  pub allow_tool_write : Value
  pub allow_tool_delete : Value

abbrev pub empty_policy : MemoryPolicy
empty_policy = record {
  read_namespaces = none;
  tool_read_namespaces = none;
  auto_read_enabled = undefined;
  write_namespace = none;
  allow_write = undefined;
  top_k = none;
  min_score = none;
  relative_cutoff = none;
  allowed_write_namespaces = none;
  allow_tool_write = undefined;
  allow_tool_delete = undefined;
}

abbrev pub array_of : List Text → Values
array_of [] = no_values
array_of (t ∷ ts) = value (text t) (array_of ts)

abbrev pub list_value : Option (List Text) → Value
list_value none = undefined
list_value (some []) = undefined
list_value (some (t ∷ ts)) = array (array_of (t ∷ ts))

abbrev pub text_value : Option Text → Value
text_value none = undefined
text_value (some t) = text t

abbrev pub number_value : Option Text → Value
number_value none = undefined
number_value (some n) = number n

abbrev pub entries : MemoryPolicy → List (Text × Value)
entries p =
    (codes "read_namespaces", list_value p.read_namespaces)
    ∷ (codes "tool_read_namespaces", list_value p.tool_read_namespaces)
    ∷ (codes "auto_read_enabled", p.auto_read_enabled)
    ∷ (codes "write_namespace", text_value p.write_namespace)
    ∷ (codes "allow_write", p.allow_write)
    ∷ (codes "top_k", number_value p.top_k)
    ∷ (codes "min_score", number_value p.min_score)
    ∷ (codes "relative_cutoff", number_value p.relative_cutoff)
    ∷ (codes "allowed_write_namespaces", list_value p.allowed_write_namespaces)
    ∷ (codes "allow_tool_write", p.allow_tool_write)
    ∷ (codes "allow_tool_delete", p.allow_tool_delete)
    ∷ []

abbrev pub store_entry : Text → Value → Fields → Fields
store_entry key undefined fs = fs
store_entry key v fs = field key v fs

-- A new object with the entries that are set.
unfoldable pub store_entries : List (Text × Value) → Fields
store_entries [] = no_fields
store_entries ((key, v) ∷ es) = store_entry key v (store_entries es)

-- `toStoredPolicy`
unfoldable pub to_stored_policy : MemoryPolicy → Fields
unfolding store_entries
to_stored_policy p = store_entries (entries p)

abbrev pub is_blank : Text → Bool
is_blank [] = true
is_blank (_ ∷ _) = false

abbrev pub onto_unless_blank : Text → List Text → List Text
onto_unless_blank [] ts = ts
onto_unless_blank (c ∷ t) ts = (c ∷ t) ∷ ts

abbrev pub trimmed_text : Value → Text
trimmed_text (text t) = trim t
trimmed_text v = []

unfoldable pub texts_of : Values → List Text
unfolding trim
texts_of no_values = []
texts_of (value v vs) = onto_unless_blank (trimmed_text v) (texts_of vs)

abbrev pub onto_piece : ℕ → List Text → List Text
onto_piece c [] = (c ∷ []) ∷ []
onto_piece c (piece ∷ pieces) = (c ∷ piece) ∷ pieces

-- The pieces between single commas and line ends; the empty ones that `split(/[\n,]+/)` does not make are
-- dropped below, with the blank ones.
unfoldable pub pieces_of : Text → List Text
pieces_of [] = [] ∷ []
pieces_of (c ∷ s) =
    let rest = pieces_of s in if c == 10 || c == b',' then [] ∷ rest else onto_piece c rest

unfoldable pub trim_all : List Text → List Text
unfolding trim
trim_all [] = []
trim_all (t ∷ ts) = onto_unless_blank (trim t) (trim_all ts)

unfoldable pub to_string_array : Value → List Text
unfolding texts_of pieces_of trim_all
to_string_array (array vs) = texts_of vs
to_string_array (text s) = trim_all (pieces_of s)
to_string_array v = []

abbrev pub if_any : List Text → Option (List Text)
if_any [] = none
if_any (t ∷ ts) = some (t ∷ ts)

-- `a ?? b`
abbrev pub or_nullish : Value → Value → Value
or_nullish undefined b = b
or_nullish null b = b
or_nullish a b = a

abbrev pub if_text : Value → Value → Value
if_text (text t) b = text t
if_text a b = b

abbrev pub if_bool : Value → Value → Value
if_bool (bool t) b = bool t
if_bool a b = b

abbrev pub unless_blank : Text → Option Text
unless_blank [] = none
unless_blank (c ∷ t) = some (c ∷ t)

-- `value?.trim() || undefined`; the first `none` is the exception of a value without `trim`.
unfoldable pub trimmed_or_undefined : Value → Option (Option Text)
unfolding trim
trimmed_or_undefined undefined = some none
trimmed_or_undefined null = some none
trimmed_or_undefined (text t) = some (unless_blank (trim t))
trimmed_or_undefined v = none

module _ (clamp_top_k : Text → Text) (clamp_unit : Text → Option Text) where
  abbrev pub top_k_of : Value → Option Text
  top_k_of (number n) = some (clamp_top_k n)
  top_k_of v = none

  abbrev pub unit_of : Value → Option Text
  unit_of (number n) = clamp_unit n
  unit_of v = none

  abbrev pub with_write_namespace : (Text → Value) → Option (Option Text) → Option MemoryPolicy
  with_write_namespace get none = none
  with_write_namespace get (some write_namespace) = some (record {
    read_namespaces = if_any (
        to_string_array
          (or_nullish (get (codes "read_namespaces")) (get (codes "readNamespaces"))));
    tool_read_namespaces = if_any (
        to_string_array
          (or_nullish (get (codes "tool_read_namespaces")) (get (codes "toolReadNamespaces"))));
    auto_read_enabled = if_bool (get (codes "auto_read_enabled")) (get (codes "autoReadEnabled"));
    write_namespace = write_namespace;
    allow_write = if_bool (get (codes "allow_write")) (get (codes "allowWrite"));
    top_k = top_k_of (get (codes "top_k"));
    min_score = unit_of (or_nullish (get (codes "min_score")) (get (codes "minScore")));
    relative_cutoff =
        unit_of (or_nullish (get (codes "relative_cutoff")) (get (codes "relativeCutoff")));
    allowed_write_namespaces = if_any (
        to_string_array (
          or_nullish (get (codes "allowed_write_namespaces"))
            (get (codes "allowedWriteNamespaces"))));
    allow_tool_write = or_nullish (get (codes "allow_tool_write")) (get (codes "allowToolWrite"));
    allow_tool_delete =
        or_nullish (get (codes "allow_tool_delete")) (get (codes "allowToolDelete"));
  })

  -- The policy of a payload, given how its fields are read.
  unfoldable pub read_policy : (Text → Value) → Option MemoryPolicy
  unfolding to_string_array trimmed_or_undefined
  read_policy get = with_write_namespace get (
      trimmed_or_undefined (if_text (get (codes "write_namespace")) (get (codes "writeNamespace"))))

  unfoldable pub parse_policy_payload : Value → Option MemoryPolicy
  unfolding read_policy own_field
  parse_policy_payload (object fs) = read_policy (λ key. found_or undefined (own_field key fs))
  parse_policy_payload raw = some empty_policy

abbrev pub or_unset : {A : Type 0} → Option A → Option A → Option A
or_unset none b = b
or_unset (some a) b = some a

unfoldable pub merge_policies : MemoryPolicy → MemoryPolicy → MemoryPolicy
merge_policies base override = record {
  read_namespaces = or_unset override.read_namespaces base.read_namespaces;
  tool_read_namespaces = or_unset override.tool_read_namespaces base.tool_read_namespaces;
  auto_read_enabled = or_nullish override.auto_read_enabled base.auto_read_enabled;
  write_namespace = or_unset override.write_namespace base.write_namespace;
  allow_write = or_nullish override.allow_write base.allow_write;
  top_k = or_unset override.top_k base.top_k;
  min_score = or_unset override.min_score base.min_score;
  relative_cutoff = or_unset override.relative_cutoff base.relative_cutoff;
  allowed_write_namespaces =
      or_unset override.allowed_write_namespaces base.allowed_write_namespaces;
  allow_tool_write = or_nullish override.allow_tool_write base.allow_tool_write;
  allow_tool_delete = or_nullish override.allow_tool_delete base.allow_tool_delete;
}

module _ (clamp_top_k : Text → Text) (clamp_unit : Text → Option Text) where
  -- One of the two queries: without an identifier, or without a row, the policy stays.
  unfoldable pub add_policy : MemoryPolicy → Option Value → Option MemoryPolicy
  unfolding parse_policy_payload merge_policies
  add_policy policy none = some policy
  add_policy policy (some memory) = elim (parse_policy_payload clamp_top_k clamp_unit memory) [
    | none ↦ none
    | some p ↦ some (merge_policies policy p)
  ]

  -- `loadMemoryPolicy`, given what the rows of the agent and of the task hold.
  unfoldable pub load_memory_policy : Option Value → Option Value → Option MemoryPolicy
  unfolding add_policy
  load_memory_policy agent task = elim (add_policy empty_policy agent) [
    | none ↦ none
    | some p ↦ add_policy p task
  ]
