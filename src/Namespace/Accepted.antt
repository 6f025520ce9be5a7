-- ===== src/Namespace/Accepted.antt =====
-- host/src/memory/namespaces.ts: what a pattern has that validateNamespacePattern accepts.
use ontheia.Prelude.{
  ◌≡◌, refl, ◌⊎◌, inl, inr, Bool, true, false, List, [], ◌∷◌, ◌++◌, if◌then◌else◌, Text, codes,
  text_eq, text_eq_sound, starts_with, split, trim, append-eq-nil, All,
}
use ontheia.Namespace.{is_segment, is_blank}
use ontheia.Namespace.Patterns.{
  Issue, is_placeholder, segment_errors, misplaced_star, segment_invalid, empty_segment,
  pattern_empty, not_vector, is_end, pattern_errors, or_hints, suffix_hints,
  validate_namespace_pattern, near_suffix, unknown_suffix,
}

-- Each segment is a plain one, a whole placeholder, or `*`, which only the last may be.
abbrev pub WellFormed : List Text → Type 0
WellFormed [] = Unit
WellFormed (seg ∷ segments) =
    ((seg ≡ codes "*") × (segments ≡ []) ⊎ ((is_placeholder seg ≡ true) ⊎ (is_segment seg ≡ true)))
    × WellFormed segments

is_end_sound : (segments : List Text) → is_end segments ≡ true → segments ≡ []
is_end_sound [] h = refl
is_end_sound (s ∷ segments) h = cc

segment_judged :
    (star last placeholder blank ok : Bool) (seg : Text)
    → ◌≡◌ {A = List Issue}
        (if star
          then if last then [] else misplaced_star ∷ []
          else if placeholder
          then []
          else if blank
          then empty_segment ∷ []
          else if ok
          then []
          else segment_invalid seg ∷ [])
        []
    → ((star ≡ true) × (last ≡ true)) ⊎ ((placeholder ≡ true) ⊎ (ok ≡ true))
segment_judged true true placeholder blank ok seg h = inl (refl, refl)
segment_judged true false placeholder blank ok seg h = cc
segment_judged false last true blank ok seg h = inr (inl refl)
segment_judged false last false true ok seg h = cc
segment_judged false last false false true seg h = inr (inr refl)
segment_judged false last false false false seg h = cc

pattern_errors-WellFormed :
    (segments : List Text) → pattern_errors segments ≡ [] → WellFormed segments
unfolding pattern_errors segment_errors
pattern_errors-WellFormed [] h = tt
pattern_errors-WellFormed (seg ∷ segments) h =
    let (first, rest) =
      append-eq-nil (segment_errors seg (is_end segments)) (pattern_errors segments) h in
    let judged =
      segment_judged (text_eq seg (codes "*")) (is_end segments) (is_placeholder seg) (is_blank seg)
        (is_segment seg) seg first in
    (
      elim judged [
        | inl (star, last) ↦ inl (text_eq_sound seg (codes "*") star, is_end_sound segments last)
        | inr plain ↦ inr plain
      ],
      pattern_errors-WellFormed segments rest,
    )

-- `level`
abbrev pub IsError : Issue → Type 0
IsError (near_suffix _ _) = ⊥
IsError (unknown_suffix _) = ⊥
IsError _ = Unit

segment_errors-IsError : (seg : Text) (last : Bool) → All IsError (segment_errors seg last)
unfolding segment_errors
segment_errors-IsError seg last =
    judged (text_eq seg (codes "*")) last (is_placeholder seg) (is_blank seg) (is_segment seg)
  where
    judged :
        (star last placeholder blank ok : Bool)
        → All IsError (
            if star
            then if last then [] else misplaced_star ∷ []
            else if placeholder
            then []
            else if blank
            then empty_segment ∷ []
            else if ok
            then []
            else segment_invalid seg ∷ [])
    judged true true placeholder blank ok = tt
    judged true false placeholder blank ok = (tt, tt)
    judged false last true blank ok = tt
    judged false last false true ok = (tt, tt)
    judged false last false false true = tt
    judged false last false false false = (tt, tt)

All-append : (xs ys : List Issue) → All IsError xs → All IsError ys → All IsError (xs ++ ys)
All-append [] ys h k = k
All-append (x ∷ xs) ys (p, h) k = (p, All-append xs ys h k)

pattern_errors-IsError : (segments : List Text) → All IsError (pattern_errors segments)
unfolding pattern_errors
pattern_errors-IsError [] = tt
pattern_errors-IsError (seg ∷ segments) =
    All-append (segment_errors seg (is_end segments)) (pattern_errors segments)
      (segment_errors-IsError seg (is_end segments)) (pattern_errors-IsError segments)

no_errors :
    (errors hints : List Issue)
    → All IsError errors
    → All (λ i. ¬ IsError i) (or_hints errors hints)
    → errors ≡ []
no_errors [] hints h k = refl
no_errors (e ∷ errors) hints (p, h) (n, k) = absurd (n p)

-- A pattern that raises no error, but perhaps a hint, begins with `vector.` once trimmed, and each part
-- between its dots is a segment, a whole placeholder, or a `*` that is the last.
pub accepted-WellFormed :
    (pattern : Text)
    → All (λ i. ¬ IsError i) (validate_namespace_pattern pattern)
    → (starts_with (codes "vector.") (trim pattern) ≡ true) × WellFormed (split b'.' (trim pattern))
unfolding validate_namespace_pattern
accepted-WellFormed pattern h =
    by_case (is_blank (trim pattern)) (starts_with (codes "vector.") (trim pattern)) h
  where
    by_case :
        (blank vector : Bool)
        → All
            (λ i. ¬ IsError i)
            (if blank
              then pattern_empty ∷ []
              else if vector
              then or_hints
                  (pattern_errors (split b'.' (trim pattern)))
                  (suffix_hints (split b'.' (trim pattern)))
              else not_vector ∷ [])
        → (vector ≡ true) × WellFormed (split b'.' (trim pattern))
    by_case true vector (n, k) = absurd (n tt)
    by_case false false (n, k) = absurd (n tt)
    by_case false true k = (
      refl,
      pattern_errors-WellFormed (split b'.' (trim pattern)) (
          no_errors (pattern_errors (split b'.' (trim pattern)))
            (suffix_hints (split b'.' (trim pattern)))
            (pattern_errors-IsError (split b'.' (trim pattern))) k),
    )
