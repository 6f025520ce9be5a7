-- ===== src/Policy/Roundtrip.antt =====
-- host/src/routes/policy-utils.ts: a policy that is stored reads back as it was.
use ontheia.Prelude.{
  ◌≡◌, refl, ap, ◌∙◌, Option, none, some, List, [], ◌∷◌, if◌then◌else◌, Text, text_eq, trim, All,
  arith,
}
use mathlib.Core.Path.{fun_ext}
use ontheia.ChainRunner.Values.{
  Value, undefined, null, bool, number, text, array, object, Fields, own_field, found_or,
}
use ontheia.Policy.{
  MemoryPolicy, list_value, text_value, number_value, array_of, entries, store_entry, store_entries,
  to_stored_policy, to_string_array, texts_of, onto_unless_blank, if_any, or_nullish, if_text,
  if_bool, unless_blank, trimmed_or_undefined, top_k_of, unit_of, with_write_namespace, read_policy,
  parse_policy_payload,
}

abbrev or_later : Value → Value → Value
or_later undefined b = b
or_later a b = a

abbrev get : Text → Fields → Value
get key fs = found_or undefined (own_field key fs)

-- What a key finds among the entries.
find_entry : Text → List (Text × Value) → Value
unfolding text_eq
find_entry k [] = undefined
find_entry k ((key, v) ∷ es) =
    if text_eq k key then or_later v (find_entry k es) else find_entry k es

get-store_entry :
    (k key : Text) (v : Value) (fs : Fields)
    → get k (store_entry key v fs) ≡ (if text_eq k key then or_later v (get k fs) else get k fs)
unfolding own_field
get-store_entry k key undefined fs = ground arith
get-store_entry k key null fs = ground arith
get-store_entry k key (bool b) fs = ground arith
get-store_entry k key (number t) fs = ground arith
get-store_entry k key (text t) fs = ground arith
get-store_entry k key (array vs) fs = ground arith
get-store_entry k key (object o) fs = ground arith

get-store_entries :
    (es : List (Text × Value)) (k : Text) → get k (store_entries es) ≡ find_entry k es
unfolding store_entries find_entry own_field
get-store_entries [] k = refl
get-store_entries ((key, v) ∷ es) k =
    get-store_entry k key v (store_entries es)
    ∙ ap (λ w. if text_eq k key then or_later v w else w) (get-store_entries es k)

-- A text without white space round it, and not empty.
abbrev pub IsTrimmed : Text → Type 0
IsTrimmed [] = ⊥
IsTrimmed (c ∷ t) = trim (c ∷ t) ≡ c ∷ t

abbrev pub IsList : Option (List Text) → Type 0
IsList none = Unit
IsList (some []) = ⊥
IsList (some (t ∷ ts)) = All IsTrimmed (t ∷ ts)

abbrev pub IsFlag : Value → Type 0
IsFlag undefined = Unit
IsFlag (bool b) = Unit
IsFlag v = ⊥

abbrev pub Fits : (Text → Type 0) → Option Text → Type 0
Fits P none = Unit
Fits P (some t) = P t

texts-array : (ts : List Text) → All IsTrimmed ts → texts_of (array_of ts) ≡ ts
unfolding texts_of
texts-array [] h = refl
texts-array ([] ∷ ts) (h, k) = absurd h
texts-array ((c ∷ t) ∷ ts) (h, k) =
    ap (λ t. onto_unless_blank t (texts_of (array_of ts))) h
    ∙ ap (λ ts. (c ∷ t) ∷ ts) (texts-array ts k)

list_back :
    (o : Option (List Text))
    → IsList o
    → if_any (to_string_array (or_nullish (or_later (list_value o) undefined) undefined)) ≡ o
unfolding to_string_array
list_back none h = refl
list_back (some []) h = absurd h
list_back (some (t ∷ ts)) h = ap if_any (texts-array (t ∷ ts) h)

flag_back : (v : Value) → IsFlag v → if_bool (or_later v undefined) undefined ≡ v
flag_back undefined h = refl
flag_back (bool b) h = refl
flag_back null h = absurd h
flag_back (number t) h = absurd h
flag_back (text t) h = absurd h
flag_back (array vs) h = absurd h
flag_back (object o) h = absurd h

permission_back : (v : Value) → IsFlag v → or_nullish (or_later v undefined) undefined ≡ v
permission_back undefined h = refl
permission_back (bool b) h = refl
permission_back null h = absurd h
permission_back (number t) h = absurd h
permission_back (text t) h = absurd h
permission_back (array vs) h = absurd h
permission_back (object o) h = absurd h

write_back :
    (o : Option Text)
    → Fits IsTrimmed o
    → trimmed_or_undefined (if_text (or_later (text_value o) undefined) undefined) ≡ some o
unfolding trimmed_or_undefined
write_back none h = refl
write_back (some []) h = absurd h
write_back (some (c ∷ t)) h = ap (λ t. some (unless_blank t)) h

module _ (clamp_top_k : Text → Text) (clamp_unit : Text → Option Text) where
  top_k_back :
      (o : Option Text)
      → Fits (λ n. clamp_top_k n ≡ n) o
      → top_k_of clamp_top_k clamp_unit (or_later (number_value o) undefined) ≡ o
  top_k_back none h = refl
  top_k_back (some n) h = ap some h

  unit_back :
      (o : Option Text)
      → Fits (λ n. clamp_unit n ≡ some n) o
      → unit_of clamp_top_k clamp_unit (or_nullish (or_later (number_value o) undefined) undefined)
        ≡ o
  unit_back none h = refl
  unit_back (some n) h = h

  -- A policy as `parsePolicyPayload` makes it from flags that are Boolean: lists are not empty and their
  -- texts trimmed, numbers are in their range.
  pub record IsNormal (p : MemoryPolicy) : Type 0 where
    pub read_list : IsList p.read_namespaces
    pub tool_read_list : IsList p.tool_read_namespaces
    pub auto_read_flag : IsFlag p.auto_read_enabled
    pub write_text : Fits IsTrimmed p.write_namespace
    pub allow_write_flag : IsFlag p.allow_write
    pub top_k_range : Fits (λ n. clamp_top_k n ≡ n) p.top_k
    pub min_score_range : Fits (λ n. clamp_unit n ≡ some n) p.min_score
    pub cutoff_range : Fits (λ n. clamp_unit n ≡ some n) p.relative_cutoff
    pub allowed_write_list : IsList p.allowed_write_namespaces
    pub tool_write_flag : IsFlag p.allow_tool_write
    pub tool_delete_flag : IsFlag p.allow_tool_delete

  -- A normal policy that is stored reads back as it was.
  pub parse-to_stored :
      (p : MemoryPolicy)
      → IsNormal p
      → parse_policy_payload clamp_top_k clamp_unit (object (to_stored_policy p)) ≡ some p
  unfolding parse_policy_payload to_stored_policy read_policy find_entry text_eq
  parse-to_stored p n =
      ap (read_policy clamp_top_k clamp_unit) (fun_ext (get-store_entries (entries p)))
      ∙ (ap (with_write_namespace clamp_top_k clamp_unit (λ k. find_entry k (entries p)))
            (write_back p.write_namespace n.write_text)
          ∙ ap some (λ i. record {
            read_namespaces = list_back p.read_namespaces n.read_list i;
            tool_read_namespaces = list_back p.tool_read_namespaces n.tool_read_list i;
            auto_read_enabled = flag_back p.auto_read_enabled n.auto_read_flag i;
            write_namespace = p.write_namespace;
            allow_write = flag_back p.allow_write n.allow_write_flag i;
            top_k = top_k_back p.top_k n.top_k_range i;
            min_score = unit_back p.min_score n.min_score_range i;
            relative_cutoff = unit_back p.relative_cutoff n.cutoff_range i;
            allowed_write_namespaces = list_back p.allowed_write_namespaces n.allowed_write_list i;
            allow_tool_write = permission_back p.allow_tool_write n.tool_write_flag i;
            allow_tool_delete = permission_back p.allow_tool_delete n.tool_delete_flag i;
          }))
