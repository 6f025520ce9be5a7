-- ===== src/Namespace/Levels.antt =====
-- host/src/memory/namespaces.ts: resolving the placeholders of a template keeps the levels of the
-- namespace, which the dots separate.
use ontheia.Prelude.{
  ℕ, zero, suc, ◌+◌, ◌≡◌, refl, sym, ap, ◌∙◌, subst, ◌⊎◌, inl, inr, ◌==◌, Bool, true, false, ◌&&◌,
  Option, none, some, List, [], ◌∷◌, ◌++◌, if◌then◌else◌, Text, split, onto_first, prepend,
  key_until_brace, full_key, placeholder_key, replace_placeholders, length, drop, arith,
}
use mathlib.Core.Option
use ontheia.Namespace.{
  Segment, segment, blank_segment, invalid_segment, all_safe, is_key_char, segment_text, lookup,
  to_segment, resolve_namespace_template,
}
use ontheia.Namespace.Segments.{to_segment-is_segment, is_segment-all_safe, some-inj}

dots : Text → ℕ
dots [] = 0
dots (c ∷ s) = let rest = dots s in if c == b'.' then suc rest else rest

length-onto_first :
    (c : ℕ) (parts : List Text) (n : ℕ) → length parts ≡ suc n → length (onto_first c parts) ≡ suc n
length-onto_first c [] n h = cc
length-onto_first c (p ∷ parts) n h = h

length-split : (s : Text) → length (split b'.' s) ≡ suc (dots s)
unfolding split dots
length-split [] = refl
length-split (c ∷ s) =
    ground (arith, length-split s, length-onto_first c (split b'.' s) (dots s) (length-split s))

dots-append : (s t : Text) → dots (s ++ t) ≡ dots s + dots t
unfolding dots
dots-append [] t = omega arith
dots-append (c ∷ s) t = ground (arith, dots-append s t)

dots-safe : (s : Text) → all_safe s ≡ true → dots s ≡ 0
unfolding dots
dots-safe [] h = refl
dots-safe (c ∷ s) h = ground (arith, dots-safe s)

key_inv :
    (is_key is_brace : Bool) (c : ℕ) (o : Option Text) (k : Text)
    → (if is_key then Option.map (λ k. c ∷ k) o else if is_brace then some [] else none) ≡ some k
    → ((is_key ≡ true) × ((k' : Text) × (o ≡ some k') × (k ≡ c ∷ k')))
      ⊎ ((is_brace ≡ true) × (k ≡ []))
key_inv true is_brace c none k h = cc
key_inv true is_brace c (some k') k h = inl (refl, (k', refl, sym (some-inj h)))
key_inv false true c o k h = inr (refl, sym (some-inj h))
key_inv false false c o k h = cc

-- A key up to its brace has no dot.
dots-key :
    (s k : Text) → key_until_brace is_key_char s ≡ some k → dots s ≡ dots (drop (suc (length k)) s)
unfolding key_until_brace dots
dots-key [] k h = cc
dots-key (c ∷ s) k h =
    elim (key_inv (is_key_char c) (c == 125) c (key_until_brace is_key_char s) k h) [
      | inl (e, (k', ek, el)) ↦
          subst (λ k. dots (c ∷ s) ≡ dots (drop (length k) s)) (sym el)
            (ground (arith, dots-key s k' ek))
      | inr (e, el) ↦ subst (λ k. dots (c ∷ s) ≡ dots (drop (length k) s)) (sym el) (ground arith)
    ]

full_key_inv : (o : Option Text) (k : Text) → full_key o ≡ some k → o ≡ some k
full_key_inv none k h = cc
full_key_inv (some []) k h = cc
full_key_inv (some (c ∷ s)) k h = h

guard_inv :
    (b : Bool) (o : Option Text) (k : Text)
    → (if b then o else none) ≡ some k
    → (b ≡ true) × (o ≡ some k)
guard_inv true o k h = (refl, h)
guard_inv false o k h = cc

add_two : (n : ℕ) → suc (suc n) ≡ n + 2
add_two n = omega arith

dots-placeholder :
    (c : ℕ) (s k : Text)
    → placeholder_key is_key_char c s ≡ some k
    → dots (c ∷ s) ≡ dots (drop (length k + 2) s)
unfolding placeholder_key dots
dots-placeholder c [] k h = cc
dots-placeholder c (d ∷ s) k h =
    let both = guard_inv (c == 36 && d == 123) (full_key (key_until_brace is_key_char s)) k h in
    let eq = dots-key s k (full_key_inv (key_until_brace is_key_char s) k both.1) in
    let es = both.0 in
    subst (λ n. dots (c ∷ (d ∷ s)) ≡ dots (drop n (d ∷ s))) (add_two (length k)) (ground arith)

prepend_inv :
    (s : Text) (o : Option Text) (r : Text)
    → prepend s o ≡ some r
    → (t : Text) × (o ≡ some t) × (r ≡ s ++ t)
prepend_inv s none r h = cc
prepend_inv s (some t) r h = (t, refl, sym (some-inj h))

dots-prepend :
    (o : Option Text) (v r : Text) (n : ℕ)
    → dots v ≡ 0
    → prepend v o ≡ some r
    → ((r : Text) → o ≡ some r → dots r ≡ n)
    → dots r ≡ n
dots-prepend o v r n e h rest =
    let (u, eo, er) = prepend_inv v o r h in
    omega (arith, ap dots er, dots-append v u, e, rest u eo)

dots-char :
    (o : Option Text) (c : ℕ) (s r : Text)
    → prepend (c ∷ []) o ≡ some r
    → ((r : Text) → o ≡ some r → dots r ≡ dots s)
    → dots r ≡ dots (c ∷ s)
unfolding dots
dots-char o c s r h rest =
    let (u, eo, er) = prepend_inv (c ∷ []) o r h in
    let e = ap dots er in let k = rest u eo in ground arith

module _ (f : Text → Option Text) (plain : (k v : Text) → f k ≡ some v → dots v ≡ 0) where
  dots-value :
      (k : Text) (fk o : Option Text) (r : Text) (n : ℕ)
      → f k ≡ fk
      → ◌≡◌ {A = Option Text} (elim fk [ none ↦ none | some value ↦ prepend value o ]) (some r)
      → ((r : Text) → o ≡ some r → dots r ≡ n)
      → dots r ≡ n
  dots-value k none o r n e h rest = cc
  dots-value k (some v) o r n e h rest = dots-prepend o v r n (plain k v e) h rest

  dots-step :
      (c : ℕ) (s r : Text) (o : Option Text)
      → ((n : ℕ) (r : Text)
          → replace_placeholders is_key_char f n s ≡ some r
          → dots r ≡ dots (drop n s))
      → placeholder_key is_key_char c s ≡ o
      → ◌≡◌ {A = Option Text}
          (elim o [
            | none ↦ prepend (c ∷ []) (replace_placeholders is_key_char f 0 s)
            | some key ↦ elim (f key) [
              | none ↦ none
              | some value ↦ prepend value (replace_placeholders is_key_char f (length key + 2) s)
            ]
          ])
          (some r)
      → dots r ≡ dots (c ∷ s)
  dots-step c s r none ih e k = dots-char (replace_placeholders is_key_char f 0 s) c s r k (ih zero)
  dots-step c s r (some key) ih e k =
      dots-value key (f key) (replace_placeholders is_key_char f (length key + 2) s) r
        (dots (drop (length key + 2) s)) refl k (ih (length key + 2))
      ∙ sym (dots-placeholder c s key e)

  dots-replace :
      (skip : ℕ) (s r : Text)
      → replace_placeholders is_key_char f skip s ≡ some r
      → dots r ≡ dots (drop skip s)
  unfolding replace_placeholders
  dots-replace zero [] r h = ap dots (sym (some-inj h))
  dots-replace (suc skip) [] r h = ap dots (sym (some-inj h))
  dots-replace (suc skip) (c ∷ s) r h = dots-replace skip s r h
  dots-replace zero (c ∷ s) r h =
      dots-step c s r (placeholder_key is_key_char c s) (λ n r. dots-replace n s r) refl h

segment_text_inv : (g : Segment) (v : Text) → segment_text g ≡ some v → g ≡ segment v
segment_text_inv (segment s) v h = ap segment (some-inj h)
segment_text_inv blank_segment v h = cc
segment_text_inv invalid_segment v h = cc

-- A template that resolves without an exception gives a namespace with as many levels, the parts between
-- its dots, as the template has: no value of a placeholder adds a level or removes one.
pub resolve_template-levels :
    (fold : ℕ → Text) (template : Text) (context : List (Text × Option Text)) (r : Text)
    → resolve_namespace_template fold template context ≡ some r
    → length (split b'.' r) ≡ length (split b'.' template)
unfolding resolve_namespace_template
resolve_template-levels fold template context r h =
    length-split r
    ∙ (ap suc (
          dots-replace (λ key. segment_text (to_segment fold (lookup key context)))
            (λ k v e. dots-safe v (
              is_segment-all_safe v (
                to_segment-is_segment fold (lookup k context) v
                  (segment_text_inv (to_segment fold (lookup k context)) v e))))
            zero template r h)
        ∙ sym (length-split template))
