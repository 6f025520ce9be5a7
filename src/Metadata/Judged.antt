-- ===== src/Metadata/Judged.antt =====
-- host/src/memory/metadata.ts: what the rules of `sanitizeMetadata` and `stripReservedMetadata` make of each field.
use ontheia.Prelude.{
  ◌≡◌, refl, sym, ap, ◌∙◌, subst, inl, inr, Bool, true, false, not, ◌&&◌, List, [], ◌∷◌,
  if◌then◌else◌, Text, text_eq, text_eq_sound, text_eq_self, Bool-cases, arith,
}
use ontheia.ChainRunner.Values.{object, Fields, no_fields, field, Found, absent, present, own_field}
use ontheia.ChainRunner.Assigned.{own_field-put_same, own_field-put_other}
use ontheia.Metadata.{
  Rule, Verdict, keep, drop, store, execute, apply_rules, delete_field, strip_fields, is_rejected,
  strip_reserved_metadata,
}

own_field-delete_same : (key : Text) (fs : Fields) → own_field key (delete_field key fs) ≡ absent
unfolding own_field delete_field
own_field-delete_same key no_fields = refl
own_field-delete_same key (field k v fs) = let ih = own_field-delete_same key fs in ground arith

own_field-delete_other :
    (key other : Text) (fs : Fields)
    → text_eq key other ≡ false
    → own_field key (delete_field other fs) ≡ own_field key fs
unfolding own_field delete_field
own_field-delete_other key other no_fields d = refl
own_field-delete_other key other (field k v fs) d = elim (Bool-cases (text_eq other k)) [
  | inl e ↦
      let f : text_eq key k ≡ false = ap (text_eq key) (sym (text_eq_sound other k e)) ∙ d in
      let ih = own_field-delete_other key other fs d in ground arith
  | inr e ↦ let ih = own_field-delete_other key other fs d in ground arith
]

-- What a verdict leaves of a field.
abbrev pub outcome : Verdict → Found → Found
outcome keep f = f
outcome drop f = absent
outcome (store v) f = present v

execute_same :
    (key : Text) (v : Verdict) (fs : Fields)
    → own_field key (execute key v fs) ≡ outcome v (own_field key fs)
execute_same key keep fs = refl
execute_same key drop fs = own_field-delete_same key fs
execute_same key (store v) fs = own_field-put_same key v fs

execute_other :
    (key other : Text) (v : Verdict) (fs : Fields)
    → text_eq key other ≡ false
    → own_field key (execute other v fs) ≡ own_field key fs
execute_other key other keep fs d = refl
execute_other key other drop fs d = own_field-delete_other key other fs d
execute_other key other (store v) fs d = own_field-put_other key other v fs d

-- No rule is about this key.
unfoldable pub is_free : Text → List Rule → Bool
is_free key [] = true
is_free key ((k, judge) ∷ rules) = not (text_eq key k) && is_free key rules

pub apply_rules-free :
    (key : Text) (rules : List Rule) (fs : Fields)
    → is_free key rules ≡ true
    → own_field key (apply_rules rules fs) ≡ own_field key fs
unfolding apply_rules is_free
apply_rules-free key [] fs h = refl
apply_rules-free key ((k, judge) ∷ rules) fs h =
    let d : text_eq key k ≡ false = ground arith in
    apply_rules-free key rules (execute k (judge (own_field k fs)) fs) (ground arith)
    ∙ execute_other key k (judge (own_field k fs)) fs d

-- The verdict on a field where one rule at most is about it.
unfoldable pub judged : Text → List Rule → Found → Found
unfolding text_eq
judged key [] f = f
judged key ((k, judge) ∷ rules) f =
    if text_eq key k then outcome (judge f) f else judged key rules f

-- No two rules are about the same key.
unfoldable pub are_distinct : List Rule → Bool
unfolding is_free
are_distinct [] = true
are_distinct ((k, judge) ∷ rules) = is_free k rules && are_distinct rules

pub apply_rules-judged :
    (key : Text) (rules : List Rule) (fs : Fields)
    → are_distinct rules ≡ true
    → own_field key (apply_rules rules fs) ≡ judged key rules (own_field key fs)
unfolding apply_rules judged are_distinct
apply_rules-judged key [] fs h = refl
apply_rules-judged key ((k, judge) ∷ rules) fs h = elim (Bool-cases (text_eq key k)) [
  | inl e ↦
      let same : key ≡ k = text_eq_sound key k e in
      subst
        (λ j. own_field j (apply_rules rules (execute k (judge (own_field k fs)) fs)) ≡ (
          if text_eq j k
          then outcome (judge (own_field j fs)) (own_field j fs)
          else judged j rules (own_field j fs)))
        (sym same)
        (apply_rules-free k rules (execute k (judge (own_field k fs)) fs) (ground arith)
          ∙ (execute_same k (judge (own_field k fs)) fs
              ∙ ap
                  (λ b.
                    if b
                    then outcome (judge (own_field k fs)) (own_field k fs)
                    else judged k rules (own_field k fs))
                  (sym (text_eq_self k))))
  | inr d ↦
      apply_rules-judged key rules (execute k (judge (own_field k fs)) fs) (ground arith)
      ∙ (ap (judged key rules) (execute_other key k (judge (own_field k fs)) fs d)
          ∙ ap
              (λ b.
                if b
                then outcome (judge (own_field key fs)) (own_field key fs)
                else judged key rules (own_field key fs))
              (sym d))
]

strip_fields-own_field :
    (key : Text) (fs : Fields)
    → own_field key (strip_fields fs) ≡ (if is_rejected key then absent else own_field key fs)
unfolding strip_fields own_field
strip_fields-own_field key no_fields = ground arith
strip_fields-own_field key (field k v fs) = elim (Bool-cases (text_eq key k)) [
  | inl e ↦
      let same : is_rejected key ≡ is_rejected k = ap is_rejected (text_eq_sound key k e) in
      let ih = strip_fields-own_field key fs in ground arith
  | inr d ↦ let ih = strip_fields-own_field key fs in ground arith
]

-- Of an object that comes from a caller all fields pass as they are, but the reserved ones and those that reach
-- the prototype, of which none does.
strip-own_field :
    (key : Text) (fs : Fields)
    → own_field key (strip_reserved_metadata (object fs))
      ≡ (if is_rejected key then absent else own_field key fs)
unfolding strip_reserved_metadata
strip-own_field key fs = strip_fields-own_field key fs
