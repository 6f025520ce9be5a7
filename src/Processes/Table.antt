-- ===== src/Processes/Table.antt =====
-- A `Map` with texts as keys, as a list of its entries in the order of insertion (host/src/orchestrator/runner.ts,
-- `processes`).
use ontheia.Prelude.{
  ◌≡◌, refl, sym, ap, ◌∙◌, inl, inr, true, false, Option, none, some, List, [], ◌∷◌, if◌then◌else◌,
  Text, text_eq, text_eq_sound, text_eq_self, Bool-cases, arith,
}

different :
    (key other k : Text)
    → text_eq key other ≡ false
    → text_eq other k ≡ true
    → text_eq key k ≡ false
different key other k d e = ap (text_eq key) (sym (text_eq_sound other k e)) ∙ d

module _ {A : Type 0} where
  unfoldable pub table_get : Text → List (Text × A) → Option A
  unfolding text_eq
  table_get key [] = none
  table_get key ((k, a) ∷ t) = if text_eq key k then some a else table_get key t

  -- An entry that is there keeps its place.
  unfoldable pub table_set : Text → A → List (Text × A) → List (Text × A)
  unfolding text_eq
  table_set key a [] = (key, a) ∷ []
  table_set key a ((k, b) ∷ t) =
      let rest = table_set key a t in if text_eq key k then (k, a) ∷ t else (k, b) ∷ rest

  unfoldable pub table_delete : Text → List (Text × A) → List (Text × A)
  unfolding text_eq
  table_delete key [] = []
  table_delete key ((k, b) ∷ t) =
      let rest = table_delete key t in if text_eq key k then rest else (k, b) ∷ rest

  pub get-set_same :
      (key : Text) (a : A) (t : List (Text × A)) → table_get key (table_set key a t) ≡ some a
  unfolding table_get table_set
  get-set_same key a [] = let e = text_eq_self key in ground arith
  get-set_same key a ((k, b) ∷ t) = let ih = get-set_same key a t in ground arith

  pub get-set_other :
      (key other : Text) (a : A) (t : List (Text × A))
      → text_eq key other ≡ false
      → table_get key (table_set other a t) ≡ table_get key t
  unfolding table_get table_set
  get-set_other key other a [] d = ground arith
  get-set_other key other a ((k, b) ∷ t) d = elim (Bool-cases (text_eq other k)) [
    | inl e ↦ let f = different key other k d e in ground arith
    | inr e ↦ let ih = get-set_other key other a t d in ground arith
  ]

  pub get-delete_other :
      (key other : Text) (t : List (Text × A))
      → text_eq key other ≡ false
      → table_get key (table_delete other t) ≡ table_get key t
  unfolding table_get table_delete
  get-delete_other key other [] d = refl
  get-delete_other key other ((k, b) ∷ t) d = elim (Bool-cases (text_eq other k)) [
    | inl e ↦
        let f = different key other k d e in let ih = get-delete_other key other t d in ground arith
    | inr e ↦ let ih = get-delete_other key other t d in ground arith
  ]

  -- To set an entry to what it holds changes no answer.
  pub get-set_current :
      (key other : Text) (a : A) (t : List (Text × A))
      → table_get other t ≡ some a
      → table_get key (table_set other a t) ≡ table_get key t
  get-set_current key other a t h = elim (Bool-cases (text_eq key other)) [
    | inl e ↦
        let same : key ≡ other = text_eq_sound key other e in
        ap (λ k. table_get k (table_set other a t)) same
        ∙ (get-set_same other a t ∙ (sym h ∙ ap (λ k. table_get k t) (sym same)))
    | inr d ↦ get-set_other key other a t d
  ]
