-- ===== src/McpConfig.antt =====
-- host/src/orchestrator/validator.ts: the validation of a configuration of MCP servers.
-- What the compiled JSON schema answers, how a URL is read and the regular expressions that
-- `McpConfig.Allowlist` does not cover are parameters. An entry of `mcpServers` is read through
-- `url`, `command` and `args`; the elements of `args` stand as `String(a)` gives them. `none` is an
-- exception that leaves `validateMcpServersConfig`.
pub mod Allowlist
pub mod Docker
pub mod Wildcards
pub mod Bypasses
pub mod DockerSafety
pub mod Safety
mod Tests
use ontheia.Prelude.{
  ℕ, ◌==◌, Bool, true, false, not, ◌&&◌, ◌||◌, Option, none, some, List, [], ◌∷◌, ◌++◌, map,
  if◌then◌else◌, Text, String, codes, text_eq, has_text, split, any, starts_with, includes, before,
  after, trim,
}
use ontheia.McpConfig.Allowlist.{matches_allowlist}
use ontheia.McpConfig.Docker.{
  ValidationError, schema_validation_failed, server_not_object, invalid_url, url_not_allowlisted,
  url_parse_failed, missing_command_or_url, unsupported_command, args_not_array, args_empty,
  package_not_found, package_not_allowlisted, Warning, Hardening, no_hardening, report_if, is_blank,
  then_also, validate_docker_spec, docker_warnings, allowed_error,
}

-- A value that is falsy, a non-empty string, or anything else.
pub data Field : Type 0 where
  falsy : Field
  text : Text → Field
  other : Field

pub record Server : Type 0 where
  pub url : Field
  pub command : Field
  pub args : Option (List Text)

pub data Entry : Type 0 where
  not_object : Entry
  server : Server → Entry

pub record PackageAllowlist : Type 0 where
  pub npm : List Text
  pub pypi : List Text
  pub bun : List Text

pub record Deps : Type 0 where
  pub image_allowlist : List Text
  pub url_allowlist : List Text
  pub package_allowlist : PackageAllowlist
  pub hardening : Option Hardening

-- A payload that fails the schema, with the formatted messages, or its entries.
pub data Payload : Type 0 where
  rejected : List Text → Payload
  servers : List (Text × Entry) → Payload

pub record ValidationResult : Type 0 where
  pub valid : Bool
  pub errors : List ValidationError
  pub warnings : List Warning

abbrev pub supported_commands : List Text
supported_commands = map codes (
    "uvx" ∷ "npx" ∷ "bun" ∷ "bunx" ∷ "docker" ∷ "binary" ∷ "npm" ∷ "ssh" ∷ "python" ∷ "python3"
    ∷ [])

abbrev pub package_commands : List Text
package_commands = map codes ("uvx" ∷ "npx" ∷ "bun" ∷ "bunx" ∷ "npm" ∷ [])

abbrev pub args_of : Option (List Text) → List Text
args_of none = []
args_of (some args) = args

abbrev pub hardening_of : Option Hardening → Hardening
hardening_of none = no_hardening
hardening_of (some h) = h

-- The loop that looks for the name of the package.
unfoldable pub find_package : Text → List Text → Option Text
unfolding trim starts_with text_eq
find_package command [] = none
find_package command (raw ∷ args) =
    let rest = find_package command args in
    let token = trim raw in
    if is_blank token || starts_with (codes "-") token
    then rest
    else if text_eq command (codes "npm") && text_eq token (codes "exec")
    then rest
    else some token

unfoldable pub package_list : Text → PackageAllowlist → List Text
unfolding text_eq
package_list command lists =
    if text_eq command (codes "uvx")
    then lists.pypi
    else if text_eq command (codes "npx") || text_eq command (codes "npm")
    then lists.npm
    else lists.bun

abbrev pub also :
    List ValidationError → Option (List ValidationError) → Option (List ValidationError)
also errors none = none
also errors (some more) = some (errors ++ more)

unfoldable pub args_error : Text → Option (List Text) → List ValidationError
args_error name none = args_not_array name ∷ []
args_error name (some args) = []

abbrev pub command_warnings : Text → Field → Field → Option (List Text) → Deps → List Warning
command_warnings name falsy (text command) args deps =
    if text_eq command (codes "docker")
    then docker_warnings name (hardening_of deps.hardening) (args_of args)
    else []
command_warnings name url command args deps = []

unfoldable pub all_warnings : List (Text × Entry) → Deps → List Warning
unfolding text_eq docker_warnings
all_warnings [] deps = []
all_warnings ((name, not_object) ∷ entries) deps = all_warnings entries deps
all_warnings ((name, server s) ∷ entries) deps =
    command_warnings name s.url s.command s.args deps ++ all_warnings entries deps

abbrev pub is_empty_list : List ValidationError → Bool
is_empty_list [] = true
is_empty_list (_ ∷ _) = false

unfoldable pub result_of : Option (List ValidationError) → List Warning → Option ValidationResult
result_of none warnings = none
result_of (some errors) warnings =
    some (record { valid = is_empty_list errors; errors = errors; warnings = warnings })

module _ (regex_other : Text → Text → Option Bool) (parse_host : Text → Option Text) where
  unfoldable pub package_errors :
      Text → Text → PackageAllowlist → Option Text → Option (List ValidationError)
  unfolding allowed_error matches_allowlist package_list
  package_errors name command lists none = some (package_not_found name ∷ [])
  package_errors name command lists (some pkg) =
      allowed_error (matches_allowlist regex_other pkg (package_list command lists))
        (package_not_allowlisted name pkg command)

  unfoldable pub validate_package_spec :
      Text → Text → List Text → PackageAllowlist → Option (List ValidationError)
  unfolding package_errors find_package
  validate_package_spec name command [] lists = some (args_empty name ∷ [])
  validate_package_spec name command (a ∷ args) lists =
      package_errors name command lists (find_package command (a ∷ args))

  -- The `try` block: what is thrown in it, by the URL or by the allowlist, is reported.
  unfoldable pub host_errors : Text → List Text → Option Text → List ValidationError
  unfolding matches_allowlist
  host_errors name allowlist none = url_parse_failed name ∷ []
  host_errors name allowlist (some host) = elim (matches_allowlist regex_other host allowlist) [
    | none ↦ url_parse_failed name ∷ []
    | some true ↦ []
    | some false ↦ url_not_allowlisted name host ∷ []
  ]

  unfoldable pub url_errors : Text → Text → List Text → List ValidationError
  unfolding host_errors starts_with
  url_errors name url allowlist =
      if starts_with (codes "http") url
      then host_errors name allowlist (parse_host url)
      else invalid_url name ∷ []

  -- A supported command.
  unfoldable pub command_errors :
      Text → Text → Option (List Text) → Deps → Option (List ValidationError)
  unfolding validate_docker_spec validate_package_spec text_eq has_text
  command_errors name command args deps =
      let docker =
        validate_docker_spec regex_other name (args_of args) deps.image_allowlist
          (hardening_of deps.hardening) in
      let packages = validate_package_spec name command (args_of args) deps.package_allowlist in
      if text_eq command (codes "docker")
      then docker
      else if has_text command package_commands
      then packages
      else some []

  unfoldable pub server_errors :
      Text → Field → Field → Option (List Text) → Deps → Option (List ValidationError)
  unfolding url_errors command_errors args_error has_text
  server_errors name (text url) command args deps = some (url_errors name url deps.url_allowlist)
  server_errors name other command args deps = some (invalid_url name ∷ [])
  server_errors name falsy falsy args deps = some (missing_command_or_url name ∷ [])
  server_errors name falsy other args deps = some (unsupported_command name ∷ [])
  server_errors name falsy (text command) args deps =
      let checked = also (args_error name args) (command_errors name command args deps) in
      if has_text command supported_commands then checked else some (unsupported_command name ∷ [])

  unfoldable pub entry_errors : Text → Entry → Deps → Option (List ValidationError)
  unfolding server_errors
  entry_errors name not_object deps = some (server_not_object name ∷ [])
  entry_errors name (server s) deps = server_errors name s.url s.command s.args deps

  unfoldable pub all_errors : List (Text × Entry) → Deps → Option (List ValidationError)
  unfolding entry_errors
  all_errors [] deps = some []
  all_errors ((name, entry) ∷ entries) deps =
      let rest = all_errors entries deps in
      elim (entry_errors name entry deps) [ none ↦ none | some errors ↦ also errors rest ]

  unfoldable pub validate_mcp_servers_config : Payload → Deps → Option ValidationResult
  unfolding all_errors all_warnings result_of
  validate_mcp_servers_config (rejected messages) deps =
      some (record { valid = false; errors = map schema_validation_failed messages; warnings = [] })
  validate_mcp_servers_config (servers entries) deps =
      result_of (all_errors entries deps) (all_warnings entries deps)
