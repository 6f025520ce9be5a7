-- ===== src/Sessions/Grants.antt =====
-- host/src/routes/security.ts: what a request has that requireSession lets through.
use ontheia.Prelude.{
  ℕ, ◌≡◌, refl, sym, ap, ◌∙◌, Bool, true, false, not, ◌&&◌, Option, none, some, [], ◌∷◌,
  if◌then◌else◌, Text, codes, text_eq, text_eq_sound,
}
use ontheia.Sessions.{
  Table, LoadedSession, Clock, load_session, Reply, unauthorized, forbidden, granted, judge_role,
  extract_bearer_token, require_token, require_session,
}

granted_inj : {t u : Text} {s r : LoadedSession} → granted t s ≡ granted u r → (t ≡ u) × (s ≡ r)
granted_inj e = (ap token_of e, cc)
  where
    token_of : Reply → Text
    token_of (granted t s) = t
    token_of unauthorized = []
    token_of forbidden = []

judged :
    (token wanted : Text) (require_admin : Bool) (o : Option LoadedSession) (s : LoadedSession)
    → judge_role token require_admin o ≡ granted wanted s
    → (token ≡ wanted) × (o ≡ some s) × (require_admin ≡ true → s.session_role ≡ codes "admin")
unfolding judge_role
judged token wanted require_admin none s e = cc
judged token wanted require_admin (some r) s e =
    by_role require_admin (text_eq r.session_role (codes "admin")) refl e
  where
    by_role :
        (a b : Bool)
        → text_eq r.session_role (codes "admin") ≡ b
        → (if a && not b then forbidden else granted token r) ≡ granted wanted s
        → (token ≡ wanted)
          × (◌≡◌ {A = Option LoadedSession} (some r) (some s))
          × (a ≡ true → s.session_role ≡ codes "admin")
    by_role true true k e =
        let (t, same) = granted_inj e in
        (
          t,
          ap some same,
          λ h. ap (λ s. s.session_role) (sym same) ∙ text_eq_sound r.session_role (codes "admin") k,
        )
    by_role true false k e = cc
    by_role false b k e = let (t, same) = granted_inj e in (t, ap some same, λ h. cc)

token_judged :
    (table : Table) (o : Option Text) (require_admin : Bool) (c : Clock) (gone : Bool)
    (token : Text) (s : LoadedSession)
    → (require_token table o require_admin c gone).1 ≡ granted token s
    → (o ≡ some token)
      × ((load_session table token c gone).1 ≡ some s)
      × (require_admin ≡ true → s.session_role ≡ codes "admin")
unfolding require_token
token_judged table none require_admin c gone token s e = cc
token_judged table (some []) require_admin c gone token s e = cc
token_judged table (some (x ∷ t)) require_admin c gone token s e =
    let (same, found, admin) =
      judged (x ∷ t) token require_admin (load_session table (x ∷ t) c gone).1 s e in
    (ap some same, ap (λ t. (load_session table t c gone).1) (sym same) ∙ found, admin)

-- A request that is let through carries a bearer token whose session is loaded at that moment, and where
-- an administrator is required the role of the session is `admin`.
pub require_session_granted :
    (fold : ℕ → Text) (table : Table) (header : Option Text) (require_admin : Bool) (c : Clock)
    (gone : Bool) (token : Text) (s : LoadedSession)
    → (require_session fold table header require_admin c gone).1 ≡ granted token s
    → (extract_bearer_token fold header ≡ some token)
      × ((load_session table token c gone).1 ≡ some s)
      × (require_admin ≡ true → s.session_role ≡ codes "admin")
unfolding require_session
require_session_granted fold table header require_admin c gone token s e =
    token_judged table (extract_bearer_token fold header) require_admin c gone token s e
