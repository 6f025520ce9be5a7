-- ===== src/Sessions/Expiry.antt =====
-- host/src/routes/security.ts: how long a session lives.
use ontheia.Prelude.{
  ℕ, ◌+◌, ◌-◌, ◌≤◌, ◌<◌, ◌≡◌, refl, sym, ap, ◌∙◌, subst, ◌⊎◌, inl, inr, ltb, Bool, true, false,
  ◌||◌, Option, none, some, List, [], ◌∷◌, if◌then◌else◌, Text, text_eq_self, arith,
}
use ontheia.Sessions.{
  session_ttl_ms, session_renew_threshold_ms, Row, Table, put, LoadedSession, Clock, loaded, renew,
  load_row, load_found, load_session, create_session,
}

put_same : (table : Table) (id : Text) (row : Option Row) → put table id row id ≡ row
unfolding put
put_same table id row = ap (λ b. if b then row else table id) (text_eq_self id)

-- A row that is there, not revoked, with this expiry.
abbrev pub IsLive : Table → Text → ℕ → Type 0
IsLive table id expires =
    (row : Row) × (table id ≡ some row) × (row.revoked ≡ false) × (row.expires_at ≡ some expires)

abbrev pub IsOrdered : Clock → Type 0
IsOrdered c = (c.check ≤ c.renewal) × (c.renewal ≤ c.update)

-- What becomes of a row that is loaded: it keeps its expiry if at least the threshold is left, and gets a full
-- time from the update if less is.
abbrev pub IsRenewed : Text → ℕ → Clock → Table × Option LoadedSession → Type 0
IsRenewed id expires c answer =
    (after : ℕ) × IsLive answer.0 id after
    × ((s : LoadedSession) × (answer.1 ≡ some s) × (s.effective_expires_at ≡ after))
    × (c.renewal + session_renew_threshold_ms ≤ after)
    × (((c.renewal + session_renew_threshold_ms ≤ expires) × (after ≡ expires))
        ⊎ ((expires < c.renewal + session_renew_threshold_ms)
            × (after ≡ c.update + session_ttl_ms)))

renew-IsRenewed :
    (table : Table) (id : Text) (row : Row) (expires : ℕ) (c : Clock)
    → table id ≡ some row
    → row.revoked ≡ false
    → row.expires_at ≡ some expires
    → IsOrdered c
    → IsRenewed id expires c (renew table id row expires c false)
unfolding renew
renew-IsRenewed table id row expires c there valid e (p, q) =
    by_rest (ltb (expires - c.renewal) session_renew_threshold_ms) refl
  where
    by_rest :
        (b : Bool)
        → ltb (expires - c.renewal) session_renew_threshold_ms ≡ b
        → IsRenewed id expires c (
            if b
            then (
              put table id (some (record row { expires_at = some (c.update + session_ttl_ms) })),
              some (loaded id row (c.update + session_ttl_ms)),
            )
            else (table, some (loaded id row expires)))
    by_rest true k = (
      c.update + session_ttl_ms,
      (
        record row { expires_at = some (c.update + session_ttl_ms) },
        put_same table id (some (record row { expires_at = some (c.update + session_ttl_ms) })),
        valid,
        refl,
      ),
      (loaded id row (c.update + session_ttl_ms), refl, refl),
      omega (arith, q),
      inr (ground arith, refl),
    )
    by_rest false k = (
      expires,
      (row, there, valid, e),
      (loaded id row expires, refl, refl),
      ground arith,
      inl (ground arith, refl),
    )

load_row-IsRenewed :
    (table : Table) (id : Text) (row : Row) (expires : ℕ) (c : Clock) (o : Option ℕ)
    → table id ≡ some row
    → row.revoked ≡ false
    → row.expires_at ≡ some expires
    → o ≡ some expires
    → c.check ≤ expires
    → IsOrdered c
    → IsRenewed id expires c (load_row table id row o c false)
unfolding load_row
load_row-IsRenewed table id row expires c none there valid e eo h order = cc
load_row-IsRenewed table id row expires c (some x) there valid e eo h order =
    let same : x ≡ expires = cc in
    let live : (row.revoked || ltb x c.check) ≡ false = ground arith in
    subst
      (λ b.
        IsRenewed id expires c
          (if b then (put table id none, none) else renew table id row x c false))
      (sym live)
      (subst (λ x. IsRenewed id expires c (renew table id row x c false)) (sym same)
        (renew-IsRenewed table id row expires c there valid e order))

-- A request before the expiry of a session loads it and reports the expiry that the table then has: the
-- old one, if at least half the lifetime is left, and a full lifetime from the update, if less is. This
-- holds if the readings of the clock do not go down and no other request takes the row away meanwhile.
pub load_session-IsRenewed :
    (table : Table) (id : Text) (expires : ℕ) (c : Clock)
    → IsLive table id expires
    → c.check ≤ expires
    → IsOrdered c
    → IsRenewed id expires c (load_session table id c false)
unfolding load_session
load_session-IsRenewed table id expires c (row, there, valid, e) h order =
    subst (λ o. IsRenewed id expires c (load_found table id o c false)) (sym there)
      (load_row-IsRenewed table id row expires c row.expires_at there valid e e h order)

-- Requests in their order, each within half a lifetime of the one before.
abbrev pub Spaced : ℕ → List Clock → Type 0
Spaced last [] = Unit
Spaced last (c ∷ clocks) =
    (c.check ≤ last + session_renew_threshold_ms) × IsOrdered c × Spaced c.renewal clocks

-- Each request is given the session, on the table that the one before leaves.
abbrev pub AllLoad : Text → Table → List Clock → Type 0
AllLoad id table [] = Unit
AllLoad id table (c ∷ clocks) =
    ((s : LoadedSession) × ((load_session table id c false).1 ≡ some s))
    × AllLoad id (load_session table id c false).0 clocks

live-AllLoad :
    (id : Text) (table : Table) (expires last : ℕ) (clocks : List Clock)
    → IsLive table id expires
    → last + session_renew_threshold_ms ≤ expires
    → Spaced last clocks
    → AllLoad id table clocks
live-AllLoad id table expires last [] live h spaced = tt
live-AllLoad id table expires last (c ∷ clocks) live h (near, order, spaced) =
    let (later, alive, (s, e, _), room, _) =
      load_session-IsRenewed table id expires c live (omega (arith, near, h)) order in
    (
      (s, e),
      live-AllLoad id (load_session table id c false).0 later c.renewal clocks alive room spaced,
    )

-- A session that is used again within half its lifetime each time, by a clock that does not go down, and that
-- nothing else revokes, changes or removes, is never refused, however long ago it was created.
pub create_session-AllLoad :
    (id : Text) (table : Table) (now : ℕ) (user : Row) (clocks : List Clock)
    → Spaced now clocks
    → AllLoad id (create_session table id now user) clocks
unfolding create_session
create_session-AllLoad id table now user clocks spaced =
    let row = record user { expires_at = some (now + session_ttl_ms); revoked = false } in
    live-AllLoad id (put table id (some row)) (now + session_ttl_ms) now clocks
      (row, put_same table id (some row), refl, refl) (omega arith) spaced

missing_refused :
    (table : Table) (id : Text) (c : Clock) (gone : Bool)
    → table id ≡ none
    → (load_session table id c gone).1 ≡ none
unfolding load_session
missing_refused table id c gone e = ap (λ o. (load_found table id o c gone).1) e

load_row_dead :
    (table : Table) (id : Text) (row : Row) (c : Clock) (gone : Bool) (o : Option ℕ)
    → ((e : ℕ) → o ≡ some e → (row.revoked || ltb e c.check) ≡ true)
    → ((load_row table id row o c gone).1 ≡ none) × ((load_row table id row o c gone).0 id ≡ none)
unfolding load_row
load_row_dead table id row c gone none h = (refl, put_same table id none)
load_row_dead table id row c gone (some e) h =
    let k = h e refl in
    subst
      (λ b.
        ((if b then (put table id none, none) else renew table id row e c gone).1 ≡ none)
        × ((if b then (put table id none, none) else renew table id row e c gone).0 id ≡ none))
      (sym k) (refl, put_same table id none)

-- A session that is revoked, expired or without a valid expiry is refused, and so is every later request
-- with its token.
pub dead_refused :
    (table : Table) (id : Text) (row : Row) (c : Clock) (gone : Bool)
    → table id ≡ some row
    → ((e : ℕ) → row.expires_at ≡ some e → (row.revoked || ltb e c.check) ≡ true)
    → ((load_session table id c gone).1 ≡ none)
      × ((d : Clock) (taken : Bool)
          → (load_session (load_session table id c gone).0 id d taken).1 ≡ none)
unfolding load_session
dead_refused table id row c gone there dead =
    let (refused, removed) = load_row_dead table id row c gone row.expires_at dead in
    (
      ap (λ o. (load_found table id o c gone).1) there ∙ refused,
      λ d taken.
          missing_refused (load_session table id c gone).0 id d taken
            (ap (λ o. (load_found table id o c gone).0 id) there ∙ removed),
    )
