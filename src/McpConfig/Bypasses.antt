-- ===== src/McpConfig/Bypasses.antt =====
-- Arguments of `docker` that the checks of host/src/orchestrator/validator.ts let through.
use ontheia.Prelude.{
  ℕ, ◌==◌, ◌≡◌, ◌≢◌, refl, Bool, true, false, Option, some, List, [], ◌∷◌, ◌++◌, Text, codes,
  includes-middle, arith,
}
use ontheia.McpConfig.Allowlist.{matches_allowlist}
use ontheia.McpConfig.Docker.{Hardening, validate_docker_spec, image_errors}

-- `docker run -i <option> <image>`
abbrev pub run_with : Text → Text → List Text
run_with option image = codes "run" ∷ codes "-i" ∷ option ∷ image ∷ []

module _ (regex_other : Text → Text → Option Bool) where
  -- With an image that is allowed, `--cap-add=` with any capability behind it is accepted without an
  -- error, under every hardening configuration.
  pub cap_add_equals-accepted :
      (name capability image : Text) (c : ℕ) (allowlist : List Text) (hardening : Hardening)
      → c ≢ b'-'
      → matches_allowlist regex_other (c ∷ image) allowlist ≡ some true
      → validate_docker_spec regex_other name
          (run_with (codes "--cap-add=" ++ capability) (c ∷ image))
          allowlist
          hardening
        ≡ some []
  unfolding validate_docker_spec
  cap_add_equals-accepted name capability image c allowlist hardening plain allowed =
      let front : (c == b'-') ≡ false = ground arith in
      let back : (b'-' == c) ≡ false = ground arith in rw (front, back, image_errors, allowed) refl

  -- In `docker run -i --mount <text> <image>` with an image that is allowed, a text of its own argument that begins with
  -- `type=` and holds `ro` anywhere behind it, as in `/root` or `/projects`, is accepted as read-only.
  pub mount_ro-accepted :
      (name before after image : Text) (c : ℕ) (allowlist : List Text) (hardening : Hardening)
      → c ≢ b'-'
      → matches_allowlist regex_other (c ∷ image) allowlist ≡ some true
      → validate_docker_spec regex_other name
          (codes "run"
            ∷ codes "-i"
            ∷ codes "--mount"
            ∷ (codes "type=" ++ (before ++ (codes "ro" ++ after)))
            ∷ (c ∷ image)
            ∷ [])
          allowlist
          hardening
        ≡ some []
  unfolding validate_docker_spec
  mount_ro-accepted name before after image c allowlist hardening plain allowed =
      let front : (c == b'-') ≡ false = ground arith in
      let back : (b'-' == c) ≡ false = ground arith in
      rw
        (
          front,
          back,
          image_errors,
          allowed,
          includes-middle (codes "type=" ++ before) (codes "ro") after,
        )
        refl
