-- ===== src/ChainRunner/Assigned.antt =====
-- host/src/runtime/chain-runner.ts: what a field holds after an assignment.
use ontheia.Prelude.{
  ◌≡◌, subst, inl, inr, false, Text, text_eq, text_eq_sound, text_eq_self, Bool-cases, arith,
}
use ontheia.ChainRunner.Values.{Value, Fields, no_fields, field, present, own_field, put_field}

pub own_field-put_same :
    (key : Text) (v : Value) (fs : Fields) → own_field key (put_field key v fs) ≡ present v
unfolding own_field put_field
own_field-put_same key v no_fields = let e = text_eq_self key in ground arith
own_field-put_same key v (field k w fs) = let e = own_field-put_same key v fs in ground arith

pub own_field-put_other :
    (key other : Text) (v : Value) (fs : Fields)
    → text_eq key other ≡ false
    → own_field key (put_field other v fs) ≡ own_field key fs
unfolding own_field put_field
own_field-put_other key other v no_fields h = ground arith
own_field-put_other key other v (field k w fs) h = elim (Bool-cases (text_eq other k)) [
  | inl e ↦
      let same = text_eq_sound other k e in
      let h' : text_eq key k ≡ false = subst (λ k. text_eq key k ≡ false) same h in ground arith
  | inr e ↦ let ih = own_field-put_other key other v fs h in ground arith
]
