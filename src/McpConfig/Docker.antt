-- ===== src/McpConfig/Docker.antt =====
-- host/src/orchestrator/validator.ts, the checks on the arguments of `docker`. The errors and the
-- warnings of the source go to two arrays, so each has a function of its own here. The texts of the
-- messages are left out; an error keeps what they name.
use ontheia.Prelude.{
  Bool, true, false, not, ◌&&◌, ◌||◌, Option, none, some, List, [], ◌∷◌, ◌++◌, map, if◌then◌else◌,
  Text, String, codes, text_eq, has_text, split, any, starts_with, includes, before, after,
}
use ontheia.McpConfig.Allowlist.{matches_allowlist}

-- `ValidationError`, by its code.
pub data ValidationError : Type 0 where
  schema_validation_failed : Text → ValidationError
  server_not_object : Text → ValidationError
  invalid_url : Text → ValidationError
  url_not_allowlisted : Text → Text → ValidationError
  url_parse_failed : Text → ValidationError
  missing_command_or_url : Text → ValidationError
  unsupported_command : Text → ValidationError
  args_not_array : Text → ValidationError
  docker_missing_run_exec : Text → ValidationError
  docker_missing_image : Text → ValidationError
  image_not_allowlisted : Text → Text → ValidationError
  docker_forbidden_flags : Text → ValidationError
  docker_forbidden_option : Text → Text → ValidationError
  docker_forbidden_cap_add : Text → ValidationError
  docker_forbidden_security_opt : Text → Text → ValidationError
  docker_volume_not_readonly : Text → Text → ValidationError
  docker_mount_not_readonly : Text → Text → ValidationError
  docker_invalid_network : Text → Text → ValidationError
  args_empty : Text → ValidationError
  package_not_found : Text → ValidationError
  package_not_allowlisted : Text → Text → Text → ValidationError

pub data Warning : Type 0 where
  interactive_missing : Text → Warning
  read_only_recommended : Text → Warning

-- The fields of `HardeningConfig.defaults` that are read here; an absent array is the empty one.
pub record Hardening : Type 0 where
  pub read_only_root_filesystem : Option Bool
  pub security_options : List Text
  pub network_name : Option Text
  pub allowed_writable_volumes : List Text

-- `hardening?.defaults?.…` where there is no configuration.
abbrev pub no_hardening : Hardening
no_hardening = record {
  read_only_root_filesystem = none;
  security_options = [];
  network_name = none;
  allowed_writable_volumes = [];
}

abbrev pub docker_run_flags_with_values : List Text
docker_run_flags_with_values = map codes (
    "-v" ∷ "--volume" ∷ "-e" ∷ "--env" ∷ "--env-file" ∷ "--name" ∷ "--cpus" ∷ "-m" ∷ "--memory"
    ∷ "--memory-swap" ∷ "--memory-reservation" ∷ "--pids-limit" ∷ "--security-opt" ∷ "--tmpfs"
    ∷ "-l" ∷ "--label" ∷ "--label-file" ∷ "--network" ∷ "--net" ∷ "--network-alias" ∷ "--pull"
    ∷ "-h" ∷ "--hostname" ∷ "-u" ∷ "--user" ∷ "-w" ∷ "--workdir" ∷ "--cap-add" ∷ "--cap-drop"
    ∷ "--entrypoint" ∷ "--mount" ∷ "--platform" ∷ "--restart" ∷ "--shm-size" ∷ "--ulimit"
    ∷ "--log-driver" ∷ "--log-opt" ∷ "--add-host" ∷ "--dns" ∷ "--group-add" ∷ "--cpu-shares"
    ∷ "--cpuset-cpus" ∷ "--stop-signal" ∷ "--stop-timeout" ∷ "--sysctl" ∷ "--runtime" ∷ "--userns"
    ∷ "--pid" ∷ "--ipc" ∷ "--uts" ∷ "--cgroupns" ∷ "--device" ∷ "-p" ∷ "--publish" ∷ "--expose"
    ∷ "--gpus" ∷ "--ip" ∷ "--ip6" ∷ "--mac-address" ∷ "--link" ∷ "--volumes-from" ∷ [])

-- `args[i + 1] ?? ''`
abbrev pub next_or_empty : List Text → Text
next_or_empty [] = []
next_or_empty (t ∷ _) = t

-- The text after the first `=`, up to the second: `token.split('=')[1]`.
unfoldable pub second_part : Text → Text
unfolding before after
second_part token = before b'=' (after b'=' token)

unfoldable pub is_given_host : Text → Text → Text → Bool
unfolding text_eq
is_given_host token next flag =
    text_eq token (flag ++ codes "=host") || (text_eq token flag && text_eq next (codes "host"))

unfoldable pub has_host_option : List Text → List Text → Bool
unfolding is_given_host
has_host_option [] flags = false
has_host_option (token ∷ args) flags =
    any (is_given_host token (next_or_empty args)) flags || has_host_option args flags

-- The inner loop of `findDockerImage`; `skip` says that the last token was an option with a value.
unfoldable pub image_from : Bool → List Text → Option Text
unfolding has_text starts_with
image_from skip [] = none
image_from true (_ ∷ args) = image_from false args
image_from false (candidate ∷ args) =
    let skipped = image_from true args in
    let rest = image_from false args in
    if has_text candidate docker_run_flags_with_values
    then skipped
    else if starts_with (codes "-") candidate
    then rest
    else some candidate

unfoldable pub find_docker_image : List Text → Option Text
unfolding image_from text_eq
find_docker_image [] = none
find_docker_image (token ∷ args) =
    let rest = find_docker_image args in
    if text_eq token (codes "run") then image_from false args else rest

unfoldable pub report_if : Bool → ValidationError → List ValidationError
report_if true e = e ∷ []
report_if false e = []

abbrev pub is_blank : Text → Bool
is_blank [] = true
is_blank (_ ∷ _) = false

-- The checks of one token in the loop over the arguments.
unfoldable pub cap_add_error : Text → Text → List ValidationError
unfolding text_eq report_if
cap_add_error name token =
    report_if (text_eq token (codes "--cap-add")) (docker_forbidden_cap_add name)

abbrev pub is_option : String → Text → Bool
is_option flag token = text_eq token (codes flag) || starts_with (codes flag ++ codes "=") token

-- The value of an option: behind the `=`, or the next token.
unfoldable pub option_value : Text → Text → Text
unfolding second_part includes
option_value token next = if includes (codes "=") token then second_part token else next

unfoldable pub security_opt_error : Text → Hardening → Text → Text → List ValidationError
unfolding option_value text_eq starts_with has_text report_if
security_opt_error name hardening token next =
    let value = option_value token next in
    report_if (is_option "--security-opt" token && not (has_text value hardening.security_options))
      (docker_forbidden_security_opt name value)

unfoldable pub is_volume : Text → Bool
unfolding text_eq starts_with
is_volume token =
    text_eq token (codes "-v")
    || (text_eq token (codes "--volume") || starts_with (codes "--volume=") token)

unfoldable pub volume_value : Text → Text → Text
unfolding starts_with after
volume_value token next = if starts_with (codes "--volume=") token then after b'=' token else next

-- A volume that may be mounted: empty, read-only, or of a host path that may be written.
unfoldable pub is_volume_allowed : Hardening → Text → Bool
unfolding has_text split before
is_volume_allowed hardening spec =
    is_blank spec
    || (has_text (codes "ro") (split b':' spec)
        || has_text (before b':' spec) hardening.allowed_writable_volumes)

unfoldable pub volume_error : Text → Hardening → Text → Text → List ValidationError
unfolding is_volume volume_value is_volume_allowed report_if
volume_error name hardening token next =
    let spec = volume_value token next in
    report_if (is_volume token && not (is_volume_allowed hardening spec))
      (docker_volume_not_readonly name spec)

unfoldable pub mount_error : Text → Text → Text → List ValidationError
unfolding option_value text_eq starts_with includes report_if
mount_error name token next =
    let spec = option_value token next in
    report_if (is_option "--mount" token && not (includes (codes "ro") spec))
      (docker_mount_not_readonly name spec)

unfoldable pub is_other_network : Option Text → Text → Bool
unfolding text_eq
is_other_network none network = false
is_other_network (some required) network = not (is_blank required) && not (text_eq network required)

abbrev pub required_network : Option Text → Text
required_network none = []
required_network (some required) = required

unfoldable pub network_error : Text → Hardening → Text → Text → List ValidationError
unfolding option_value text_eq starts_with is_other_network report_if
network_error name hardening token next =
    report_if
      (is_option "--network" token
        && is_other_network hardening.network_name (option_value token next))
      (docker_invalid_network name (required_network hardening.network_name))

unfoldable pub token_errors : Text → Hardening → Text → Text → List ValidationError
unfolding cap_add_error security_opt_error volume_error mount_error network_error
token_errors name hardening token next =
    cap_add_error name token
    ++ (security_opt_error name hardening token next
        ++ (volume_error name hardening token next
            ++ (mount_error name token next ++ network_error name hardening token next)))

unfoldable pub scan_tokens : Text → Hardening → List Text → List ValidationError
unfolding token_errors
scan_tokens name hardening [] = []
scan_tokens name hardening (token ∷ args) =
    token_errors name hardening token (next_or_empty args) ++ scan_tokens name hardening args

unfoldable pub forbidden_flags_error : Text → List Text → List ValidationError
unfolding has_text has_host_option report_if
forbidden_flags_error name args =
    report_if
      (has_text (codes "--privileged") args
        || has_host_option args (codes "--network" ∷ codes "--net" ∷ []))
      (docker_forbidden_flags name)

unfoldable pub has_option : Text → List Text → Bool
unfolding text_eq starts_with
has_option flag args = any (λ arg. text_eq arg flag || starts_with (flag ++ codes "=") arg) args

unfoldable pub forbidden_option_errors : Text → List Text → List Text → List ValidationError
unfolding has_option report_if
forbidden_option_errors name args [] = []
forbidden_option_errors name args (flag ∷ flags) =
    report_if (has_option flag args) (docker_forbidden_option name flag)
    ++ forbidden_option_errors name args flags

unfoldable pub host_option_errors : Text → List Text → List Text → List ValidationError
unfolding has_host_option report_if
host_option_errors name args [] = []
host_option_errors name args (flag ∷ flags) =
    report_if (has_host_option args (flag ∷ [])) (docker_forbidden_option name flag)
    ++ host_option_errors name args flags

abbrev pub forbidden_flags : List Text
forbidden_flags = codes "--device" ∷ codes "--init" ∷ []

abbrev pub namespace_flags : List Text
namespace_flags = codes "--pid" ∷ codes "--uts" ∷ codes "--ipc" ∷ codes "--userns" ∷ []

-- All that follows the check of the image.
unfoldable pub argument_errors : Text → Hardening → List Text → List ValidationError
unfolding forbidden_flags_error forbidden_option_errors host_option_errors scan_tokens
argument_errors name hardening args =
    forbidden_flags_error name args
    ++ (forbidden_option_errors name args forbidden_flags
        ++ (host_option_errors name args namespace_flags ++ scan_tokens name hardening args))

unfoldable pub warn_read_only : Text → Option Bool → Bool → List Warning
warn_read_only name (some false) present = []
warn_read_only name (some true) present = if present then [] else read_only_recommended name ∷ []
warn_read_only name none present = if present then [] else read_only_recommended name ∷ []

unfoldable pub docker_warnings : Text → Hardening → List Text → List Warning
unfolding has_text warn_read_only
docker_warnings name hardening args =
    if not (has_text (codes "run") args) && not (has_text (codes "exec") args)
    then []
    else (if has_text (codes "-i") args then [] else interactive_missing name ∷ [])
      ++ warn_read_only name hardening.read_only_root_filesystem
          (has_text (codes "--read-only") args)

unfoldable pub allowed_error : Option Bool → ValidationError → Option (List ValidationError)
allowed_error none e = none
allowed_error (some true) e = some []
allowed_error (some false) e = some (e ∷ [])

abbrev pub then_also :
    Option (List ValidationError) → List ValidationError → Option (List ValidationError)
then_also none more = none
then_also (some errors) more = some (errors ++ more)

module _ (regex_other : Text → Text → Option Bool) where
  -- The check of the image of `run`; `none` is an exception.
  unfoldable pub image_errors : Text → List Text → Option Text → Option (List ValidationError)
  unfolding allowed_error matches_allowlist
  image_errors name allowlist none = some (docker_missing_image name ∷ [])
  image_errors name allowlist (some []) = some (docker_missing_image name ∷ [])
  image_errors name allowlist (some (c ∷ image)) =
      allowed_error (matches_allowlist regex_other (c ∷ image) allowlist)
        (image_not_allowlisted name (c ∷ image))

  unfoldable pub validate_docker_spec :
      Text → List Text → List Text → Hardening → Option (List ValidationError)
  unfolding image_errors argument_errors find_docker_image has_text
  validate_docker_spec name args allowlist hardening =
      let is_run = has_text (codes "run") args in
      let is_exec = has_text (codes "exec") args in
      let image = image_errors name allowlist (find_docker_image args) in
      if not is_run && not is_exec
      then some (docker_missing_run_exec name ∷ [])
      else then_also (if is_run then image else some []) (argument_errors name hardening args)
