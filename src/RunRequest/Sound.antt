-- ===== src/RunRequest/Sound.antt =====
-- host/src/routes/run-utils.ts: what a request that `parseRunRequest` accepts is like.
use ontheia.Prelude.{
  ◌≡◌, refl, sym, ap, subst, Bool, true, false, Option, none, some, List, ◌∷◌, if◌then◌else◌, Text,
  codes, has_text, All, arith,
}
use ontheia.ChainRunner.Values.{
  Value, undefined, null, bool, number, text, array, object, Values, no_values, value, Fields,
  no_fields,
}
use ontheia.Policy.{or_unset}
use ontheia.RunRequest.Parts.{
  ChatMessage, Request, tool_approval_modes, get_field, parse_tool_approval_mode,
  parse_tool_permissions,
}
use ontheia.RunRequest.{
  metadata_of, parse_entry, parse_entries, parse_messages, request_of, is_complete,
  parse_run_request,
}
use ontheia.RunRequest.Messages.{
  IsMessage, has_any, ArePermissions, some_back, put_permissions-ArePermissions, entries-All,
}

abbrev pub is_approval : Option Text → Bool
is_approval none = true
is_approval (some t) = has_text t tool_approval_modes

abbrev pub MayPermit : Option Fields → Type 0
MayPermit none = Unit
MayPermit (some fs) = ArePermissions fs

approval_known : (v : Value) → is_approval (parse_tool_approval_mode v) ≡ true
unfolding parse_tool_approval_mode
approval_known (text t) = by_test (has_text t tool_approval_modes) refl
  where
    by_test :
        (b : Bool)
        → has_text t tool_approval_modes ≡ b
        → is_approval (if b then some t else none) ≡ true
    by_test true e = e
    by_test false e = refl
approval_known undefined = refl
approval_known null = refl
approval_known (bool b) = refl
approval_known (number n) = refl
approval_known (array vs) = refl
approval_known (object fs) = refl

unset_known :
    (a b : Option Text)
    → is_approval a ≡ true
    → is_approval b ≡ true
    → is_approval (or_unset a b) ≡ true
unset_known none b h k = k
unset_known (some t) b h k = h

permissions-MayPermit : (v : Value) → MayPermit (parse_tool_permissions v)
unfolding parse_tool_permissions
permissions-MayPermit (object fs) = put_permissions-ArePermissions fs no_fields tt
permissions-MayPermit (text t) = tt
permissions-MayPermit undefined = tt
permissions-MayPermit null = tt
permissions-MayPermit (bool b) = tt
permissions-MayPermit (number n) = tt
permissions-MayPermit (array vs) = tt

or_unset-MayPermit : (a b : Option Fields) → MayPermit a → MayPermit b → MayPermit (or_unset a b)
or_unset-MayPermit none b h k = k
or_unset-MayPermit (some fs) b h k = h

either_known :
    (v w : Value)
    → is_approval (or_unset (parse_tool_approval_mode v) (parse_tool_approval_mode w)) ≡ true
either_known v w =
    unset_known (parse_tool_approval_mode v) (parse_tool_approval_mode w) (approval_known v)
      (approval_known w)

either-MayPermit :
    (v w : Value) → MayPermit (or_unset (parse_tool_permissions v) (parse_tool_permissions w))
either-MayPermit v w =
    or_unset-MayPermit (parse_tool_permissions v) (parse_tool_permissions w)
      (permissions-MayPermit v) (permissions-MayPermit w)

module _ (string_of : Value → Text) (floor : Text → Text) (is_top_k : Text → Bool) where
  -- At least one message, each with a known role and content; a chain, or a provider with a model; an approval mode
  -- that is known, if there is one; and permissions that are `once` or `always`, for keys with `::`.
  pub record IsSound (r : Request) : Type 0 where
    pub some_message : has_any r.messages ≡ true
    pub each_message : All IsMessage r.messages
    pub complete : is_complete string_of floor is_top_k r ≡ true
    pub known_approval : is_approval r.tool_approval ≡ true
    pub permits : MayPermit r.tool_permissions

  entries_some :
      (v : Value) (vs : Values) (ms : List ChatMessage)
      → parse_entries string_of floor is_top_k (value v vs) ≡ some ms
      → has_any ms ≡ true
  unfolding parse_entries
  entries_some v vs ms =
      by_parts (parse_entry string_of floor is_top_k v) (parse_entries string_of floor is_top_k vs)
    where
      by_parts :
          (o : Option ChatMessage) (rest : Option (List ChatMessage))
          → elim o [ none ↦ none | some m ↦ elim rest [ none ↦ none | some ns ↦ some (m ∷ ns) ] ]
            ≡ some ms
          → has_any ms ≡ true
      by_parts none rest h = absurd (ground arith)
      by_parts (some m) none h = absurd (ground arith)
      by_parts (some m) (some ns) h = ap has_any (sym (some_back h))

  messages_sound :
      (v : Value) (ms : List ChatMessage)
      → parse_messages string_of floor is_top_k v ≡ some ms
      → (has_any ms ≡ true) × All IsMessage ms
  unfolding parse_messages
  messages_sound (array (value v vs)) ms e =
      (entries_some v vs ms e, entries-All string_of floor is_top_k (value v vs) ms e)
  messages_sound (array no_values) ms e = absurd (ground arith)
  messages_sound (object fs) ms e = absurd (ground arith)
  messages_sound (text t) ms e = absurd (ground arith)
  messages_sound undefined ms e = absurd (ground arith)
  messages_sound null ms e = absurd (ground arith)
  messages_sound (bool b) ms e = absurd (ground arith)
  messages_sound (number n) ms e = absurd (ground arith)

  object-IsSound :
      (b : Fields) (r : Request)
      → parse_run_request string_of floor is_top_k (object b) ≡ some r
      → IsSound r
  unfolding parse_run_request
  object-IsSound b r =
      by_messages (parse_messages string_of floor is_top_k (get_field (codes "messages") b)) refl
    where
      by_test :
          (ms : List ChatMessage) (complete : Bool)
          → parse_messages string_of floor is_top_k (get_field (codes "messages") b) ≡ some ms
          → is_complete string_of floor is_top_k (request_of string_of floor is_top_k b ms)
            ≡ complete
          → (if complete then some (request_of string_of floor is_top_k b ms) else none) ≡ some r
          → IsSound r
      by_test ms false e c h = absurd (ground arith)
      by_test ms true e c h =
          let (any, each) = messages_sound (get_field (codes "messages") b) ms e in
          subst IsSound (some_back h) (record {
            some_message = any;
            each_message = each;
            complete = c;
            known_approval =
                either_known (get_field (codes "tool_approval") b)
                  (get_field (codes "tool_approval") (metadata_of string_of floor is_top_k b));
            permits =
                either-MayPermit (get_field (codes "tool_permissions") b)
                  (get_field (codes "tool_permissions") (metadata_of string_of floor is_top_k b));
          })

      by_messages :
          (o : Option (List ChatMessage))
          → parse_messages string_of floor is_top_k (get_field (codes "messages") b) ≡ o
          → elim o [
            | none ↦ none
            | some ms ↦
                if is_complete string_of floor is_top_k (request_of string_of floor is_top_k b ms)
                then some (request_of string_of floor is_top_k b ms)
                else none
          ]
            ≡ some r
          → IsSound r
      by_messages none e h = absurd (ground arith)
      by_messages (some ms) e h =
          by_test ms
            (is_complete string_of floor is_top_k (request_of string_of floor is_top_k b ms)) e refl
            h

  -- A request that is accepted is sound, whatever the body was.
  pub parse_run_request-IsSound :
      (body : Value) (r : Request)
      → parse_run_request string_of floor is_top_k body ≡ some r
      → IsSound r
  unfolding parse_run_request
  parse_run_request-IsSound (object b) r h = object-IsSound b r h
  parse_run_request-IsSound (array vs) r h = absurd (ground arith)
  parse_run_request-IsSound (text t) r h = absurd (ground arith)
  parse_run_request-IsSound undefined r h = absurd (ground arith)
  parse_run_request-IsSound null r h = absurd (ground arith)
  parse_run_request-IsSound (bool b) r h = absurd (ground arith)
  parse_run_request-IsSound (number n) r h = absurd (ground arith)
