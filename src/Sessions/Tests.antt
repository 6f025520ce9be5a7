-- ===== src/Sessions/Tests.antt =====
-- Tests of the sessions of host/src/routes/security.ts, and examples of the theorems on them.
use ontheia.Prelude.{
  ℕ, ◌+◌, ◌≡◌, refl, Bool, true, false, ◌||◌, none, some, [], ◌∷◌, Text, codes, ltb, arith,
}
use ontheia.Sessions.{
  session_ttl_ms, Row, Table, LoadedSession, Clock, loaded, create_session, load_session,
  extract_bearer_token, require_session, sanitize_email, granted,
}
use ontheia.Sessions.Expiry.{
  load_session-IsRenewed, create_session-AllLoad, dead_refused, IsRenewed, AllLoad,
}
use ontheia.Sessions.Grants.{require_session_granted}

abbrev drop_letter : ℕ → Text
drop_letter c = []

abbrev user : Row
user = record {
  user_id = codes "u";
  expires_at = some 1000000000;
  revoked = false;
  email = codes "u@h.org";
  name = none;
  role = some (codes "admin");
  status = none;
  allow_admin_memory = false;
}

abbrev table : Table
table k = some user

abbrev clock : Clock
clock = record { check = 900000000; renewal = 900000001; update = 900000002 }

abbrev late : Clock
late = record { check = 1000000001; renewal = 1000000001; update = 1000000001 }

email_test : sanitize_email drop_letter (codes " U@h.org ") ≡ some (codes "u@h.org")
unfolding sanitize_email
email_test = refl

no_host_test : sanitize_email drop_letter (codes "u@h.") ≡ none
unfolding sanitize_email
no_host_test = refl

token_test : extract_bearer_token drop_letter (some (codes "Bearer t")) ≡ some (codes "t")
unfolding extract_bearer_token
token_test = refl

load_session-IsRenewed_example :
    IsRenewed (codes "t") 1000000000 clock (load_session table (codes "t") clock false)
load_session-IsRenewed_example =
    load_session-IsRenewed table (codes "t") 1000000000 clock (user, refl, refl, refl) (omega arith)
      (omega arith, omega arith)

create_session-AllLoad_example :
    AllLoad (codes "t") (create_session (λ k. none) (codes "t") 899000000 user) (clock ∷ late ∷ [])
create_session-AllLoad_example =
    create_session-AllLoad (codes "t") (λ k. none) 899000000 user (clock ∷ late ∷ [])
      (omega arith, (omega arith, omega arith), (omega arith, (omega arith, omega arith), tt))

expired : (e : ℕ) → user.expires_at ≡ some e → (user.revoked || ltb e late.check) ≡ true
expired e h = let k : 1000000000 ≡ e = cc in ground arith

dead_refused_example :
    ((load_session table (codes "t") late false).1 ≡ none)
    × ((d : Clock) (taken : Bool)
        → (load_session (load_session table (codes "t") late false).0 (codes "t") d taken).1 ≡ none)
dead_refused_example = dead_refused table (codes "t") user late false refl expired

abbrev session : LoadedSession
session = loaded (codes "t") user (900000002 + session_ttl_ms)

let_through :
    (require_session drop_letter table (some (codes "Bearer t")) true clock false).1
    ≡ granted (codes "t") session
unfolding require_session
let_through = refl

require_session_granted_example :
    (extract_bearer_token drop_letter (some (codes "Bearer t")) ≡ some (codes "t"))
    × ((load_session table (codes "t") clock false).1 ≡ some session)
    × (true ≡ true → session.session_role ≡ codes "admin")
require_session_granted_example =
    require_session_granted drop_letter table (some (codes "Bearer t")) true clock false (codes "t")
      session let_through
