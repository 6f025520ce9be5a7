-- ===== src/RunRequest/Messages.antt =====
-- host/src/routes/run-utils.ts: the messages and permissions of a request that is accepted.
use ontheia.Prelude.{
  ◌≡◌, refl, sym, ap, subst, Bool, true, false, ◌&&◌, Option, none, some, List, [], ◌∷◌,
  if◌then◌else◌, Text, codes, text_eq, trim, includes, has_text, All, &&-eq-true, arith,
}
use ontheia.ChainRunner.Values.{
  Value, undefined, null, bool, number, text, array, object, Values, no_values, value, Fields,
  no_fields, field, put_field,
}
use ontheia.RunRequest.Parts.{
  ChatMessage, Body, plain, text_parts, roles, permission_modes, text_or_blank, get_field, body_of,
  text_parts_of, parse_content, put_permission, put_permissions,
}
use ontheia.RunRequest.{message_of, parse_entry, parse_entries}

abbrev pub is_filled : Body → Bool
is_filled (plain t) = true
is_filled (text_parts []) = false
is_filled (text_parts (t ∷ ts)) = true

-- A message with one of the four roles and with content.
abbrev pub IsMessage : ChatMessage → Type 0
IsMessage m = (has_text m.role roles ≡ true) × (is_filled m.content ≡ true)

abbrev pub has_any : List ChatMessage → Bool
has_any [] = false
has_any (m ∷ ms) = true

abbrev pub is_permission : Value → Bool
is_permission (text mode) = has_text mode permission_modes
is_permission v = false

-- Permissions for keys with `::`, each `once` or `always`.
abbrev pub ArePermissions : Fields → Type 0
ArePermissions no_fields = Unit
ArePermissions (field key v fs) =
    (includes (codes "::") key ≡ true) × (is_permission v ≡ true) × ArePermissions fs

pub some_back : {A : Type 0} {a b : A} → some a ≡ some b → a ≡ b
some_back {a} e = ap (λ o. elim o [ none ↦ a | some x ↦ x ]) e

body-filled : (ts : List Text) (c : Body) → body_of ts ≡ some c → is_filled c ≡ true
body-filled [] c e = absurd (ground arith)
body-filled (t ∷ ts) c e = ap is_filled (sym (some_back e))

content-filled : (v : Value) (c : Body) → parse_content v ≡ some c → is_filled c ≡ true
unfolding parse_content
content-filled (text t) c e = ap is_filled (sym (some_back e))
content-filled (array vs) c e = body-filled (text_parts_of vs) c e
content-filled undefined c e = absurd (ground arith)
content-filled null c e = absurd (ground arith)
content-filled (bool b) c e = absurd (ground arith)
content-filled (number n) c e = absurd (ground arith)
content-filled (object fs) c e = absurd (ground arith)

put_field-ArePermissions :
    (key mode : Text) (fs : Fields)
    → includes (codes "::") key ≡ true
    → has_text mode permission_modes ≡ true
    → ArePermissions fs
    → ArePermissions (put_field key (text mode) fs)
unfolding put_field
put_field-ArePermissions key mode no_fields k m h = (k, m, tt)
put_field-ArePermissions key mode (field other v fs) k m (o, p, h) =
    by_test (text_eq key other) (put_field-ArePermissions key mode fs k m h)
  where
    by_test :
        (b : Bool)
        → ArePermissions (put_field key (text mode) fs)
        → ArePermissions
            (if b then field other (text mode) fs else field other v (put_field key (text mode) fs))
    by_test true ih = (o, m, h)
    by_test false ih = (o, p, ih)

put_permission-ArePermissions :
    (key : Text) (v : Value) (out : Fields)
    → ArePermissions out
    → ArePermissions (put_permission key v out)
put_permission-ArePermissions key (text mode) out h =
    by_test (includes (codes "::") key && has_text mode permission_modes) refl
  where
    by_test :
        (b : Bool)
        → (includes (codes "::") key && has_text mode permission_modes) ≡ b
        → ArePermissions (if b then put_field key (text mode) out else out)
    by_test true e =
        let (k, m) = &&-eq-true (includes (codes "::") key) (has_text mode permission_modes) e in
        put_field-ArePermissions key mode out k m h
    by_test false e = h
put_permission-ArePermissions key undefined out h = h
put_permission-ArePermissions key null out h = h
put_permission-ArePermissions key (bool b) out h = h
put_permission-ArePermissions key (number n) out h = h
put_permission-ArePermissions key (array vs) out h = h
put_permission-ArePermissions key (object fs) out h = h

pub put_permissions-ArePermissions :
    (fs out : Fields) → ArePermissions out → ArePermissions (put_permissions fs out)
unfolding put_permissions
put_permissions-ArePermissions no_fields out h = h
put_permissions-ArePermissions (field key mode fs) out h =
    put_permissions-ArePermissions fs (put_permission (trim key) mode out)
      (put_permission-ArePermissions (trim key) mode out h)

module _ (string_of : Value → Text) (floor : Text → Text) (is_top_k : Text → Bool) where
  object-IsMessage :
      (entry : Fields) (m : ChatMessage)
      → parse_entry string_of floor is_top_k (object entry) ≡ some m
      → IsMessage m
  unfolding parse_entry
  object-IsMessage entry m =
      by_tests (has_text (text_or_blank (get_field (codes "role") entry)) roles)
        (parse_content (get_field (codes "content") entry)) refl refl
    where
      role : Text
      role = text_or_blank (get_field (codes "role") entry)

      by_tests :
          (known : Bool) (c : Option Body)
          → has_text role roles ≡ known
          → parse_content (get_field (codes "content") entry) ≡ c
          → elim known [
            | false ↦ none
            | true ↦ elim c [
              | none ↦ none
              | some content ↦ some (message_of string_of floor is_top_k entry role content)
            ]
          ]
            ≡ some m
          → IsMessage m
      by_tests false c e f h = absurd (ground arith)
      by_tests true none e f h = absurd (ground arith)
      by_tests true (some content) e f h =
          subst IsMessage (some_back h)
            (e, content-filled (get_field (codes "content") entry) content f)

  entry-IsMessage :
      (v : Value) (m : ChatMessage) → parse_entry string_of floor is_top_k v ≡ some m → IsMessage m
  unfolding parse_entry
  entry-IsMessage (object entry) m h = object-IsMessage entry m h
  entry-IsMessage (text t) m h = absurd (ground arith)
  entry-IsMessage (array vs) m h = absurd (ground arith)
  entry-IsMessage undefined m h = absurd (ground arith)
  entry-IsMessage null m h = absurd (ground arith)
  entry-IsMessage (bool b) m h = absurd (ground arith)
  entry-IsMessage (number n) m h = absurd (ground arith)

  pub entries-All :
      (vs : Values) (ms : List ChatMessage)
      → parse_entries string_of floor is_top_k vs ≡ some ms
      → All IsMessage ms
  unfolding parse_entries
  entries-All no_values ms e = subst (All IsMessage) (some_back e) tt
  entries-All (value v vs) ms e =
      by_parts (parse_entry string_of floor is_top_k v) (parse_entries string_of floor is_top_k vs)
        refl (λ ns g. entries-All vs ns g) refl e
    where
      by_parts :
          (o : Option ChatMessage) (rest : Option (List ChatMessage))
          → parse_entry string_of floor is_top_k v ≡ o
          → ((ns : List ChatMessage)
              → parse_entries string_of floor is_top_k vs ≡ some ns
              → All IsMessage ns)
          → parse_entries string_of floor is_top_k vs ≡ rest
          → elim o [ none ↦ none | some m ↦ elim rest [ none ↦ none | some ns ↦ some (m ∷ ns) ] ]
            ≡ some ms
          → All IsMessage ms
      by_parts none rest f ih g h = absurd (ground arith)
      by_parts (some m) none f ih g h = absurd (ground arith)
      by_parts (some m) (some ns) f ih g h =
          subst (All IsMessage) (some_back h) (entry-IsMessage v m f, ih ns g)
