-- ===== src/McpConfig/Safety.antt =====
-- What holds of every server of a configuration that host/src/orchestrator/validator.ts calls valid.
use ontheia.Prelude.{◌≡◌, Bool, true, Option, some, List, Text, codes, Has}
use ontheia.McpConfig.{
  text, Server, Entry, server, Deps, find_package, package_list, package_commands,
  supported_commands,
}
use ontheia.McpConfig.Allowlist.{matches_allowlist}
use ontheia.McpConfig.DockerSafety.{IsDockerSafe}

module _ (regex_other : Text → Text → Option Bool) (parse_host : Text → Option Text) where
  -- What an entry without an error is.
  pub data IsSafe (deps : Deps) : Entry → Type 0 where
    remote :
        (s : Server) (url host : Text)
        → s.url ≡ text url
        → parse_host url ≡ some host
        → matches_allowlist regex_other host deps.url_allowlist ≡ some true
        → IsSafe deps (server s)
    docker :
        (s : Server) (args : List Text)
        → s.command ≡ text (codes "docker")
        → s.args ≡ some args
        → IsDockerSafe regex_other deps args
        → IsSafe deps (server s)
    packaged :
        (s : Server) (command pkg : Text) (args : List Text)
        → s.command ≡ text command
        → Has command package_commands
        → s.args ≡ some args
        → find_package command args ≡ some pkg
        → matches_allowlist regex_other pkg (package_list command deps.package_allowlist)
          ≡ some true
        → IsSafe deps (server s)
    plain :
        (s : Server) (command : Text)
        → s.command ≡ text command
        → Has command supported_commands
        → ¬ Has command package_commands
        → ¬ (command ≡ codes "docker")
        → IsSafe deps (server s)
