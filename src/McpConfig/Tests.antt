-- ===== src/McpConfig/Tests.antt =====
-- Configurations of MCP servers for host/src/orchestrator/validator.ts.
use ontheia.Prelude.{
  ◌≡◌, refl, ◌↔◌, Bool, true, false, Option, none, some, List, [], ◌∷◌, ◌++◌, Text, String, codes,
}
use ontheia.McpConfig.{
  falsy, text, Server, Entry, server, Deps, servers, validate_mcp_servers_config,
}
use ontheia.McpConfig.Allowlist.{matches_entry, matches_allowlist}
use ontheia.McpConfig.Docker.{
  no_hardening, validate_docker_spec, image_not_allowlisted, docker_forbidden_flags,
  docker_volume_not_readonly, read_only_recommended,
}
use ontheia.McpConfig.Wildcards.{IsLine, matches_entry_prefix, matches_entry-dot}
use ontheia.McpConfig.Bypasses.{run_with, cap_add_equals-accepted, mount_ro-accepted}

abbrev no_regex : Text → Text → Option Bool
no_regex pattern value = none

abbrev whole_host : Text → Option Text
whole_host url = some (codes "mcp.example.com")

abbrev deps : Deps
deps = record {
  image_allowlist = codes "img:1" ∷ [];
  url_allowlist = codes "*.example.com" ∷ [];
  package_allowlist = record { npm = codes "pkg" ∷ []; pypi = []; bun = [] };
  hardening = none;
}

abbrev run : List String → Server
run args = record { url = falsy; command = text (codes "docker"); args = some (from_strings args) }
  where
    from_strings : List String → List Text
    from_strings [] = []
    from_strings (s ∷ rest) = codes s ∷ from_strings rest

abbrev entries : List (Text × Entry)
entries =
    (
      codes "a",
      server (run ("run" ∷ "-i" ∷ "--read-only" ∷ "-v" ∷ "/data:/data:ro" ∷ "img:1" ∷ [])),
    )
    ∷ (
      codes "b",
      server
          (record { url = text (codes "https://mcp.example.com"); command = falsy; args = none }),
    )
    ∷ (
      codes "c",
      server (record {
        url = falsy;
        command = text (codes "npx");
        args = some (codes "-y" ∷ codes "pkg" ∷ []);
      }),
    )
    ∷ []

refused :
    validate_mcp_servers_config no_regex whole_host
      (servers (
        (
          codes "a",
          server (run ("run" ∷ "-i" ∷ "--privileged" ∷ "-v" ∷ "/etc:/etc" ∷ "img:2" ∷ [])),
        )
        ∷ []))
      deps
    ≡ some (record {
      valid = false;
      errors =
          image_not_allowlisted (codes "a") (codes "img:2")
          ∷ docker_forbidden_flags (codes "a")
          ∷ docker_volume_not_readonly (codes "a") (codes "/etc:/etc")
          ∷ [];
      warnings = read_only_recommended (codes "a") ∷ [];
    })
unfolding validate_mcp_servers_config
refused = refl

matches_entry_prefix_example :
    (matches_entry no_regex (codes "img/x") (codes "img/" ++ codes "*") ≡ some true)
    ↔ ((r : Text) × (codes "img/x" ≡ codes "img/" ++ r) × IsLine r)
matches_entry_prefix_example =
    matches_entry_prefix no_regex (codes "img/") (codes "img/x") (refl, (refl, (refl, (refl, tt))))

matches_entry-dot_example :
    matches_entry no_regex
      (codes "ghcr" ++ b'x' ∷ (codes "io/" ++ codes "evil"))
      ((codes "ghcr" ++ b'.' ∷ codes "io/") ++ b'*' ∷ [])
    ≡ some true
matches_entry-dot_example =
    matches_entry-dot no_regex (codes "ghcr") (codes "io/") (codes "evil") b'x'
      (refl, (refl, (refl, (refl, tt)))) (refl, (refl, (refl, tt))) refl
      (refl, (refl, (refl, (refl, tt))))

cap_add_equals-accepted_example :
    validate_docker_spec no_regex
      (codes "a")
      (run_with (codes "--cap-add=" ++ codes "ALL") (codes "img:1"))
      (codes "img:1" ∷ [])
      no_hardening
    ≡ some []
unfolding matches_allowlist
cap_add_equals-accepted_example =
    cap_add_equals-accepted no_regex (codes "a") (codes "ALL") (codes "mg:1") b'i'
      (codes "img:1" ∷ []) no_hardening (λ e. cc) refl

mount_ro-accepted_example :
    validate_docker_spec no_regex
      (codes "a")
      (codes "run"
        ∷ codes "-i"
        ∷ codes "--mount"
        ∷ (codes "type=" ++ (codes "bind,source=/" ++ (codes "ro" ++ codes "ot,target=/root")))
        ∷ codes "img:1"
        ∷ [])
      (codes "img:1" ∷ [])
      no_hardening
    ≡ some []
unfolding matches_allowlist
mount_ro-accepted_example =
    mount_ro-accepted no_regex (codes "a") (codes "bind,source=/") (codes "ot,target=/root")
      (codes "mg:1") b'i' (codes "img:1" ∷ []) no_hardening (λ e. cc) refl
