-- ===== src/Namespace/Access.antt =====
-- host/src/memory/namespaces.ts: isNamespaceAllowed against a description of what a whitelist grants.
use ontheia.Prelude.{
  ℕ, ◌≡◌, refl, sym, ap, ◌∙◌, subst, ◌⊎◌, inl, inr, ◌≢◌, ◌↔◌, ◌==◌, true, false, Option, List, [],
  ◌∷◌, ◌++◌, Text, text_eq, text_eq_sound, text_eq_self, starts_with, starts_with-append, Has,
  Bool-cases, arith,
}
use mathlib.Core.List.{reverse, reverse-reverse, reverse-cons, reverse-append}
use ontheia.Namespace.{is_blank, admits_reversed, admits, resolve_pattern, is_namespace_allowed}

-- A resolved pattern admits the namespaces that begin with what stands before its final `*`; without a
-- `*` at the end it admits only itself.
abbrev pub Admits : Text → Text → Type 0
Admits requested resolved =
    ((p : Text) × (rest : Text) × (resolved ≡ p ++ b'*' ∷ []) × (requested ≡ p ++ rest))
    ⊎ (((p : Text) → resolved ≢ p ++ b'*' ∷ []) × (requested ≡ resolved))

module _ (fold : ℕ → Text) where
  -- Some pattern of the whitelist that is not empty admits the namespace, which is not empty either.
  abbrev pub Allowed : Text → List Text → List (Text × Option Text) → Type 0
  Allowed requested whitelist context =
      (requested ≢ [])
      × (pattern : Text) × Has pattern whitelist
      × (pattern ≢ [])
      × Admits requested (resolve_pattern fold pattern context)

head_eq : {a b : ℕ} {s t : Text} → a ∷ s ≡ b ∷ t → a ≡ b
head_eq e = cc

starts_with_sound : (p s : Text) → starts_with p s ≡ true → (rest : Text) × (s ≡ p ++ rest)
unfolding starts_with
starts_with_sound [] s h = (s, refl)
starts_with_sound (c ∷ p) [] h = cc
starts_with_sound (c ∷ p) (d ∷ s) h =
    let both : (c == d ≡ true) × (starts_with p s ≡ true) = ground arith in
    let (rest, e) = starts_with_sound p s both.1 in let same : d ≡ c = ground arith in (rest, cc)

star_first : (rev p : Text) → reverse rev ≡ p ++ b'*' ∷ [] → rev ≡ b'*' ∷ reverse p
star_first rev p e = sym (reverse-reverse rev) ∙ (ap reverse e ∙ reverse-append p (b'*' ∷ []))

admits_reversed-to : (q rev : Text) → admits_reversed q rev ≡ true → Admits q (reverse rev)
unfolding admits_reversed
admits_reversed-to q [] h = inr (λ p e. absurd_of (star_first [] p e), text_eq_sound q [] h)
  where
    absurd_of : {t : Text} → ◌≡◌ {A = Text} [] (b'*' ∷ t) → ⊥
    absurd_of e = cc
admits_reversed-to q (c ∷ rev) h = elim (Bool-cases (c == b'*')) [
  | inl e ↦
      let k : starts_with (reverse rev) q ≡ true = ground arith in
      let (rest, r) = starts_with_sound (reverse rev) q k in
      let same : c ≡ b'*' = ground arith in
      inl (reverse rev, rest, reverse-cons c rev ∙ ap (λ x. reverse rev ++ x ∷ []) same, r)
  | inr e ↦
      let k : text_eq q (reverse (c ∷ rev)) ≡ true = ground arith in
      inr (
        λ p f. let same = head_eq (star_first (c ∷ rev) p f) in ground arith,
        text_eq_sound q (reverse (c ∷ rev)) k,
      )
]

admits_reversed-from : (q rev : Text) → Admits q (reverse rev) → admits_reversed q rev ≡ true
unfolding admits_reversed
admits_reversed-from q rev (inl (p, rest, er, eq)) =
    subst (λ t. admits_reversed q t ≡ true) (sym (star_first rev p er))
      (ap (λ t. starts_with t q) (reverse-reverse p)
        ∙ (ap (starts_with p) eq ∙ starts_with-append p rest))
admits_reversed-from q [] (inr (unstarred, e)) = ap (λ t. text_eq t []) e
admits_reversed-from q (c ∷ rev) (inr (unstarred, e)) = elim (Bool-cases (c == b'*')) [
  | inl h ↦
      let same : c ≡ b'*' = ground arith in
      absurd (unstarred (reverse rev) (reverse-cons c rev ∙ ap (λ x. reverse rev ++ x ∷ []) same))
  | inr h ↦
      let k : text_eq q (reverse (c ∷ rev)) ≡ true =
        subst (λ t. text_eq t (reverse (c ∷ rev)) ≡ true) (sym e)
          (text_eq_self (reverse (c ∷ rev))) in
      ground arith
]

admits_iff : (q resolved : Text) → (admits q resolved ≡ true) ↔ Admits q resolved
unfolding admits
admits_iff q resolved = (
  λ h. subst (Admits q) (reverse-reverse resolved) (admits_reversed-to q (reverse resolved) h),
  λ h.
      admits_reversed-from q (reverse resolved)
        (subst (Admits q) (sym (reverse-reverse resolved)) h),
)

blank_iff : (s : Text) → (is_blank s ≡ false) ↔ (s ≢ [])
blank_iff [] = (λ h. cc, λ h. absurd (h refl))
blank_iff (c ∷ s) = (λ h e. absurd_cons e, λ h. refl)
  where
    absurd_cons : {t : Text} → ◌≡◌ {A = Text} (c ∷ t) [] → ⊥
    absurd_cons e = cc

module _ (fold : ℕ → Text) where
  Allowed-to :
      (requested : Text) (whitelist : List Text) (context : List (Text × Option Text))
      → is_namespace_allowed fold requested whitelist context ≡ true
      → Allowed fold requested whitelist context
  unfolding is_namespace_allowed
  Allowed-to requested [] context h = cc
  Allowed-to requested (pattern ∷ whitelist) context h =
      elim (Bool-cases (is_namespace_allowed fold requested whitelist context)) [
        | inl e ↦
            let (full, p, m, named, grant) = Allowed-to requested whitelist context e in
            (full, p, inr m, named, grant)
        | inr e ↦
            let full : is_blank requested ≡ false = ground arith in
            let named : is_blank pattern ≡ false = ground arith in
            let k : admits requested (resolve_pattern fold pattern context) ≡ true = ground arith in
            (
              (blank_iff requested).0 full,
              pattern,
              inl refl,
              (blank_iff pattern).0 named,
              (admits_iff requested (resolve_pattern fold pattern context)).0 k,
            )
      ]

  Allowed-from :
      (requested : Text) (whitelist : List Text) (context : List (Text × Option Text))
      → Allowed fold requested whitelist context
      → is_namespace_allowed fold requested whitelist context ≡ true
  unfolding is_namespace_allowed
  Allowed-from requested [] context (full, p, m, named, grant) = absurd m
  Allowed-from requested (pattern ∷ whitelist) context (full, p, inr m, named, grant) =
      let rest = Allowed-from requested whitelist context (full, p, m, named, grant) in ground arith
  Allowed-from requested (pattern ∷ whitelist) context (full, p, inl e, named, grant) =
      let f = (blank_iff requested).1 full in
      let n = (blank_iff pattern).1 (λ k. named (e ∙ k)) in
      let g =
        (admits_iff requested (resolve_pattern fold pattern context)).1
          (subst (λ q. Admits requested (resolve_pattern fold q context)) e grant) in
      ground arith

  -- A namespace is allowed exactly if it is not empty and a pattern of the whitelist, itself not empty,
  -- admits it once its placeholders are replaced: by a final `*` after a prefix of the namespace, or
  -- without a final `*` by being the namespace.
  pub is_namespace_allowed_iff :
      (requested : Text) (whitelist : List Text) (context : List (Text × Option Text))
      → (is_namespace_allowed fold requested whitelist context ≡ true)
        ↔ Allowed fold requested whitelist context
  is_namespace_allowed_iff requested whitelist context =
      (Allowed-to requested whitelist context, Allowed-from requested whitelist context)
