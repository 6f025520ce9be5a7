-- ===== src/McpConfig/DockerSafety.antt =====
-- What holds of arguments of `docker` that host/src/orchestrator/validator.ts has no error for.
use ontheia.Prelude.{
  ◌≡◌, ◌≢◌, refl, ap, inl, inr, ◌⊎◌, Bool, true, false, not, ◌&&◌, ◌||◌, Option, none, some, List,
  [], ◌∷◌, if◌then◌else◌, Text, codes, text_eq, text_eq_sound, text_eq_self, has_text, arith,
  Bool-cases, Has, append-eq-nil, split, before,
}
use ontheia.McpConfig.{Deps, hardening_of}
use ontheia.McpConfig.Allowlist.{matches_allowlist}
use ontheia.McpConfig.Docker.{
  Hardening, ValidationError, report_if, next_or_empty, option_value, is_option, is_volume,
  volume_value, is_volume_allowed, token_errors, cap_add_error, security_opt_error, volume_error,
  scan_tokens, argument_errors, forbidden_flags_error, find_docker_image, image_errors, then_also,
  validate_docker_spec, docker_forbidden_flags, has_host_option, docker_missing_run_exec,
}

pub has_text-Has : (t : Text) (ts : List Text) → has_text t ts ≡ true → Has t ts
unfolding has_text
has_text-Has t [] e = cc
has_text-Has t (x ∷ ts) e = elim (Bool-cases (text_eq t x)) [
  | inl same ↦ inl (text_eq_sound t x same)
  | inr no_match ↦ inr (has_text-Has t ts (ground arith))
]

pub Has-has_text : (t : Text) (ts : List Text) → Has t ts → has_text t ts ≡ true
unfolding has_text
Has-has_text t [] h = absurd h
Has-has_text t (x ∷ ts) (inl e) = rw (← e, text_eq_self t) refl
Has-has_text t (x ∷ ts) (inr h) = ground (arith, Has-has_text t ts h)

-- What holds of a token of the arguments and of the token behind it.
pub record IsTokenSafe (hardening : Hardening) (token next : Text) : Type 0 where
  pub no_cap_add : token ≢ codes "--cap-add"
  pub volume :
      is_volume token ≡ true
      → (volume_value token next ≡ [])
        ⊎ (Has (codes "ro") (split b':' (volume_value token next))
            ⊎ Has (before b':' (volume_value token next)) hardening.allowed_writable_volumes)
  pub security :
      is_option "--security-opt" token ≡ true
      → Has (option_value token next) hardening.security_options

abbrev pub EachToken : (Text → Text → Type 0) → List Text → Type 0
EachToken P [] = Unit
EachToken P (token ∷ args) = P token (next_or_empty args) × EachToken P args

report_if-eq-nil : (b : Bool) (e : ValidationError) → report_if b e ≡ [] → b ≡ false
unfolding report_if
report_if-eq-nil true e h = cc
report_if-eq-nil false e h = refl

is_volume_allowed-cases :
    (h : Hardening) (spec : Text)
    → is_volume_allowed h spec ≡ true
    → (spec ≡ [])
      ⊎ (Has (codes "ro") (split b':' spec) ⊎ Has (before b':' spec) h.allowed_writable_volumes)
unfolding is_volume_allowed
is_volume_allowed-cases h [] e = inl refl
is_volume_allowed-cases h (c ∷ s) e =
    inr (elim (Bool-cases (has_text (codes "ro") (split b':' (c ∷ s)))) [
      | inl yes_ro ↦ inl (has_text-Has _ _ yes_ro)
      | inr not_ro ↦ inr (has_text-Has _ _ (ground arith))
    ])

cap_add_error-eq-nil :
    (name token : Text) → cap_add_error name token ≡ [] → token ≢ codes "--cap-add"
unfolding cap_add_error
cap_add_error-eq-nil name token e same =
    let present : text_eq token (codes "--cap-add") ≡ true =
      rw same (text_eq_self (codes "--cap-add")) in
    ground (arith, report_if-eq-nil _ _ e, present)

security_opt_error-eq-nil :
    (name : Text) (h : Hardening) (token next : Text)
    → security_opt_error name h token next ≡ []
    → is_option "--security-opt" token ≡ true
    → Has (option_value token next) h.security_options
unfolding security_opt_error
security_opt_error-eq-nil name h token next e o =
    has_text-Has _ _ (ground (arith, report_if-eq-nil _ _ e, o))

volume_error-eq-nil :
    (name : Text) (h : Hardening) (token next : Text)
    → volume_error name h token next ≡ []
    → is_volume token ≡ true
    → is_volume_allowed h (volume_value token next) ≡ true
unfolding volume_error
volume_error-eq-nil name h token next e v = ground (arith, report_if-eq-nil _ _ e, v)

token_errors-IsTokenSafe :
    (name : Text) (h : Hardening) (token next : Text)
    → token_errors name h token next ≡ []
    → IsTokenSafe h token next
unfolding token_errors
token_errors-IsTokenSafe name h token next e =
    let (cap, e₁) = append-eq-nil (cap_add_error name token) _ e in
    let (sec, e₂) = append-eq-nil (security_opt_error name h token next) _ e₁ in
    let (vol, _) = append-eq-nil (volume_error name h token next) _ e₂ in
    record {
      no_cap_add = cap_add_error-eq-nil name token cap;
      volume = λ v. is_volume_allowed-cases h _ (volume_error-eq-nil name h token next vol v);
      security = security_opt_error-eq-nil name h token next sec;
    }

scan_tokens-EachToken :
    (name : Text) (h : Hardening) (args : List Text)
    → scan_tokens name h args ≡ []
    → EachToken (IsTokenSafe h) args
unfolding scan_tokens
scan_tokens-EachToken name h [] e = tt
scan_tokens-EachToken name h (token ∷ args) e =
    let (first, rest) = append-eq-nil (token_errors name h token (next_or_empty args)) _ e in
    (
      token_errors-IsTokenSafe name h token (next_or_empty args) first,
      scan_tokens-EachToken name h args rest,
    )

module _ (regex_other : Text → Text → Option Bool) where
  pub record IsDockerSafe (deps : Deps) (args : List Text) : Type 0 where
    pub starts : Has (codes "run") args ⊎ Has (codes "exec") args
    pub image :
        Has (codes "run") args
        → (image : Text) × (find_docker_image args ≡ some image)
          × (matches_allowlist regex_other image deps.image_allowlist ≡ some true)
    pub unprivileged : ¬ Has (codes "--privileged") args
    pub own_network : has_host_option args (codes "--network" ∷ codes "--net" ∷ []) ≡ false
    pub tokens : EachToken (IsTokenSafe (hardening_of deps.hardening)) args

  image_errors-eq-nil :
      (name : Text) (allowlist : List Text) (o : Option Text)
      → image_errors regex_other name allowlist o ≡ some []
      → (image : Text) × (o ≡ some image)
        × (matches_allowlist regex_other image allowlist ≡ some true)
  unfolding image_errors
  image_errors-eq-nil name allowlist none e = cc
  image_errors-eq-nil name allowlist (some []) e = cc
  image_errors-eq-nil name allowlist (some (c ∷ image)) e = (c ∷ image, refl, ground arith)

  docker_inv :
      (name : Text) (args allowlist : List Text) (h : Hardening)
      → validate_docker_spec regex_other name args allowlist h ≡ some []
      → ((has_text (codes "run") args ≡ true) ⊎ (has_text (codes "exec") args ≡ true))
        × (has_text (codes "run") args ≡ true
            → image_errors regex_other name allowlist (find_docker_image args) ≡ some [])
        × (argument_errors name h args ≡ [])
  unfolding validate_docker_spec
  docker_inv name args allowlist h e =
      by_tests (has_text (codes "run") args) (has_text (codes "exec") args)
        (image_errors regex_other name allowlist (find_docker_image args)) e
    where
      by_tests :
          (r x : Bool) (o : Option (List ValidationError))
          → (if not r && not x
              then some (docker_missing_run_exec name ∷ [])
              else then_also (if r then o else some []) (argument_errors name h args))
            ≡ some []
          → ((r ≡ true) ⊎ (x ≡ true))
            × (r ≡ true → o ≡ some [])
            × (argument_errors name h args ≡ [])
      by_tests false false o e = cc
      by_tests true x none e = cc
      by_tests true x (some errors) e =
          let (a, b) = append-eq-nil errors (argument_errors name h args) (ground arith) in
          (inl refl, λ t. ap some a, b)
      by_tests false true o e = (inr refl, λ t. cc, ground arith)

  argument_errors-inv :
      (name : Text) (h : Hardening) (args : List Text)
      → argument_errors name h args ≡ []
      → (¬ Has (codes "--privileged") args)
        × (has_host_option args (codes "--network" ∷ codes "--net" ∷ []) ≡ false)
        × EachToken (IsTokenSafe h) args
  unfolding argument_errors forbidden_flags_error
  argument_errors-inv name h args e =
      let (flags, e₁) = append-eq-nil (report_if _ (docker_forbidden_flags name)) _ e in
      let (_, e₂) = append-eq-nil _ _ e₁ in
      let (_, scanned) = append-eq-nil _ _ e₂ in
      let none_found = report_if-eq-nil _ _ flags in
      (
        λ p. privileged (Has-has_text (codes "--privileged") args p) none_found,
        unshared none_found,
        scan_tokens-EachToken name h args scanned,
      )
    where
      found : Bool
      found =
          has_text (codes "--privileged") args
          || has_host_option args (codes "--network" ∷ codes "--net" ∷ [])

      privileged : has_text (codes "--privileged") args ≡ true → ¬ (found ≡ false)
      privileged p f = ground arith

      unshared :
          found ≡ false → has_host_option args (codes "--network" ∷ codes "--net" ∷ []) ≡ false
      unshared f = ground arith

  pub docker-IsDockerSafe :
      (name : Text) (deps : Deps) (args : List Text)
      → validate_docker_spec regex_other name args deps.image_allowlist
          (hardening_of deps.hardening)
        ≡ some []
      → IsDockerSafe deps args
  docker-IsDockerSafe name deps args e =
      let (either, run, checked) =
        docker_inv name args deps.image_allowlist (hardening_of deps.hardening) e in
      let (unprivileged, own, tokens) =
        argument_errors-inv name (hardening_of deps.hardening) args checked in
      record {
        starts = elim either [
          | inl r ↦ inl (has_text-Has _ _ r)
          | inr x ↦ inr (has_text-Has _ _ x)
        ];
        image = λ r.
            image_errors-eq-nil name deps.image_allowlist (find_docker_image args)
              (run (Has-has_text _ _ r));
        unprivileged = unprivileged;
        own_network = own;
        tokens = tokens;
      }
