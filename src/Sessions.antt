-- ===== src/Sessions.antt =====
-- host/src/routes/security.ts: bearer tokens, and sessions with an expiry that use renews.
-- The table is a function from identifiers to the row that the join of loadSession gives; a statement
-- under `withRls` acts on the row of its owner. Times are milliseconds since the epoch, and an expiry of
-- `none` is an invalid date. Each reading of the clock is an argument, as is whether another request has
-- taken the row away before the update. `fold` gives what `toLowerCase` makes outside ASCII.
pub mod Expiry
pub mod Grants
mod Tests
use ontheia.Prelude.{
  ℕ, zero, suc, ◌+◌, ◌-◌, ◌*◌, ◌==◌, leb, ltb, Bool, true, false, not, ◌&&◌, ◌||◌, Option, none,
  some, List, [], ◌∷◌, ◌++◌, if◌then◌else◌, Text, codes, text_eq, split, trim, to_lower, any,
  is_space, before, after,
}

-- 604,800,000 and half of it.
abbrev pub session_ttl_ms : ℕ
session_ttl_ms = 604800000

abbrev pub session_renew_threshold_ms : ℕ
session_renew_threshold_ms = 302400000

pub record Row : Type 0 where
  pub user_id : Text
  pub expires_at : Option ℕ
  pub revoked : Bool
  pub email : Text
  pub name : Option Text
  pub role : Option Text
  pub status : Option Text
  pub allow_admin_memory : Bool

abbrev pub Table : Type 0
Table = Text → Option Row

unfoldable pub put : Table → Text → Option Row → Table
unfolding text_eq
put table id row k = if text_eq id k then row else table k

pub record LoadedSession : Type 0 where
  pub id : Text
  pub owner : Row
  pub session_role : Text
  pub session_status : Text
  pub effective_expires_at : ℕ

abbrev pub or_text : Option Text → Text → Text
or_text none t = t
or_text (some s) t = s

-- The readings of the clock: for the check, the question of renewal, and the new expiry.
pub record Clock : Type 0 where
  pub check : ℕ
  pub renewal : ℕ
  pub update : ℕ

-- `createSession`, for the columns of a user.
unfoldable pub create_session : Table → Text → ℕ → Row → Table
unfolding put
create_session table id now user =
    put table id (some (record user { expires_at = some (now + session_ttl_ms); revoked = false }))

abbrev pub loaded : Text → Row → ℕ → LoadedSession
loaded id row expires = record {
  id = id;
  owner = row;
  session_role = or_text row.role (codes "user");
  session_status = or_text row.status (codes "active");
  effective_expires_at = expires;
}

-- Where the expiry has passed since the check, the difference is 0 here and negative there: less in both.
unfoldable pub renew : Table → Text → Row → ℕ → Clock → Bool → Table × Option LoadedSession
unfolding put
renew table id row expires clock gone =
    if ltb (expires - clock.renewal) session_renew_threshold_ms
    then if gone then (put table id none, some (loaded id row expires)) else (
      put table id (some (record row { expires_at = some (clock.update + session_ttl_ms) })),
      some (loaded id row (clock.update + session_ttl_ms)),
    )
    else (table, some (loaded id row expires))

unfoldable pub load_row :
    Table → Text → Row → Option ℕ → Clock → Bool → Table × Option LoadedSession
unfolding put renew
load_row table id row none clock gone = (put table id none, none)
load_row table id row (some expires) clock gone =
    if row.revoked || ltb expires clock.check
    then (put table id none, none)
    else renew table id row expires clock gone

abbrev pub load_found : Table → Text → Option Row → Clock → Bool → Table × Option LoadedSession
load_found table id none clock gone = (table, none)
load_found table id (some row) clock gone = load_row table id row row.expires_at clock gone

unfoldable pub load_session : Table → Text → Clock → Bool → Table × Option LoadedSession
unfolding load_row
load_session table id clock gone = load_found table id (table id) clock gone

abbrev pub is_blank : Text → Bool
is_blank [] = true
is_blank (_ ∷ _) = false

pub data Reply : Type 0 where
  unauthorized : Reply
  forbidden : Reply
  granted : Text → LoadedSession → Reply

unfoldable pub judge_role : Text → Bool → Option LoadedSession → Reply
unfolding text_eq
judge_role token require_admin none = unauthorized
judge_role token require_admin (some s) =
    if require_admin && not (text_eq s.session_role (codes "admin"))
    then forbidden
    else granted token s

unfoldable pub require_token : Table → Option Text → Bool → Clock → Bool → Table × Reply
unfolding load_session judge_role
require_token table none require_admin clock gone = (table, unauthorized)
require_token table (some token) require_admin clock gone =
    if is_blank token
    then (table, unauthorized)
    else let (table', session) = load_session table token clock gone in
      (table', judge_role token require_admin session)

-- A dot with a character before it and one behind it.
unfoldable pub has_inner_dot : Bool → Text → Bool
has_inner_dot inside [] = false
has_inner_dot inside (c ∷ s) =
    let later = has_inner_dot true s in (inside && (c == b'.' && not (is_blank s))) || later

module _ (fold : ℕ → Text) where
  unfoldable pub bearer_parts : List Text → Option Text
  unfolding to_lower text_eq trim
  bearer_parts (scheme ∷ token ∷ rest) =
      if is_blank token || not (text_eq (to_lower fold scheme) (codes "bearer"))
      then none
      else some (trim token)
  bearer_parts _ = none

  unfoldable pub extract_bearer_token : Option Text → Option Text
  unfolding split bearer_parts
  extract_bearer_token none = none
  extract_bearer_token (some header) =
      if is_blank header then none else bearer_parts (split b' ' header)

  unfoldable pub require_session : Table → Option Text → Bool → Clock → Bool → Table × Reply
  unfolding extract_bearer_token require_token
  require_session table header require_admin clock gone =
      require_token table (extract_bearer_token header) require_admin clock gone

  unfoldable pub sanitize_email : Text → Option Text
  unfolding to_lower trim before after is_space has_inner_dot
  sanitize_email value =
      let trimmed = to_lower fold (trim value) in
      let host = after b'@' trimmed in
      if is_blank trimmed
        || (is_blank (before b'@' trimmed)
            || (any is_space trimmed
                || (any (λ c. c == b'@') host || not (has_inner_dot false host))))
      then none
      else some trimmed
