-- ===== src/Secrets.antt =====
-- host/src/secrets/resolver.ts: the secrets that configurations name. A source is a function from names; `none` for a
-- reference is the `SecretResolutionError`. Values are those of `ChainRunner.Values`.
pub mod Masked
mod Tests
use ontheia.Prelude.{
  ℕ, ◌==◌, leb, Bool, true, false, not, ◌&&◌, ◌||◌, Option, none, some, List, [], ◌∷◌,
  if◌then◌else◌, drop, Text, codes, starts_with,
}
use ontheia.ChainRunner.Values.{Value, text, object, Fields, no_fields, field}

abbrev pub SecretSource : Type 0
SecretSource = Text → Option Text

abbrev pub secret_prefix : Text
secret_prefix = codes "secret:"

abbrev pub value_prefix : Text
value_prefix = codes "value:"

-- `isSecretReference`
unfoldable pub is_secret_reference : Text → Bool
unfolding starts_with
is_secret_reference value = starts_with secret_prefix value

abbrev pub is_upper : ℕ → Bool
is_upper c = leb b'A' c && leb c b'Z'

abbrev pub is_name_char : ℕ → Bool
is_name_char c = is_upper c || ((leb b'0' c && leb c b'9') || c == b'_')

unfoldable pub are_name_chars : Text → Bool
are_name_chars [] = true
are_name_chars (c ∷ s) = is_name_char c && are_name_chars s

-- `isEnvVarName`
unfoldable pub is_env_var_name : Text → Bool
unfolding are_name_chars
is_env_var_name [] = false
is_env_var_name (c ∷ s) = is_upper c && are_name_chars s

-- The first source that has the name.
unfoldable pub first_source : Text → List SecretSource → Option Text
first_source key [] = none
first_source key (source ∷ sources) =
    let rest = first_source key sources in elim (source key) [ some t ↦ some t | none ↦ rest ]

unfoldable pub resolve_secret_ref : Text → List SecretSource → Option Text
unfolding is_secret_reference is_env_var_name first_source starts_with
resolve_secret_ref value sources =
    if starts_with value_prefix value
    then some (drop 6 value)
    else if not (is_secret_reference value)
    then some value
    else if not (is_env_var_name (drop 7 value))
    then some (drop 7 value)
    else first_source (drop 7 value) sources

-- `masked` holds `***` under each key.
pub record ResolvedEnv : Type 0 where
  pub resolved : List (Text × Text)
  pub masked : List (Text × Text)
  pub missing : List Text

abbrev pub stars : Text
stars = codes "***"

abbrev pub add_entry : Text → Text → Option Text → ResolvedEnv → ResolvedEnv
add_entry key raw none env = record env {
  masked = (key, stars) ∷ env.masked;
  missing = key ∷ env.missing;
}
add_entry key raw (some t) env = record env {
  resolved = (key, t) ∷ env.resolved;
  masked = if is_secret_reference raw then (key, stars) ∷ env.masked else env.masked;
}

unfoldable pub resolve_entries : Fields → List SecretSource → ResolvedEnv
unfolding resolve_secret_ref is_secret_reference
resolve_entries no_fields sources = record { resolved = []; masked = []; missing = [] }
resolve_entries (field key (text raw) fs) sources =
    add_entry key raw (resolve_secret_ref raw sources) (resolve_entries fs sources)
resolve_entries (field key v fs) sources = resolve_entries fs sources

-- `resolveEnvMap`; what is no object has no entries.
unfoldable pub resolve_env_map : Value → List SecretSource → ResolvedEnv
unfolding resolve_entries
resolve_env_map (object fs) sources = resolve_entries fs sources
resolve_env_map v sources = record { resolved = []; masked = []; missing = [] }
