-- ===== src/Namespace/Segments.antt =====
-- host/src/memory/namespaces.ts: the texts that may stand between two dots of a namespace.
use ontheia.Prelude.{
  ℕ, ◌≡◌, refl, ap, ◌∙◌, subst, Bool, true, false, ◌||◌, Option, none, some, [], ◌∷◌, if◌then◌else◌,
  Text, is_space, trim_start, trim, to_lower, arith,
}
use mathlib.Core.List.{reverse, reverse_aux, reverse-reverse}
use ontheia.Namespace.{
  Segment, segment, blank_segment, invalid_segment, is_safe, all_safe, is_segment, dashed, collapse,
  drop_dash, strip_dashes, is_blank, or_empty, slugify_segment, to_segment,
}

safe_not_space : (c : ℕ) → is_safe c ≡ true → is_space c ≡ false
unfolding is_space
safe_not_space c h = ground arith

trim_start-safe : (s : Text) → all_safe s ≡ true → trim_start s ≡ s
unfolding trim_start
trim_start-safe [] h = refl
trim_start-safe (c ∷ s) h = ground (arith, safe_not_space c)

to_lower-safe : (fold : ℕ → Text) (s : Text) → all_safe s ≡ true → to_lower fold s ≡ s
unfolding to_lower
to_lower-safe fold [] h = refl
to_lower-safe fold (c ∷ s) h = ground (arith, to_lower-safe fold s)

all_safe-reverse_aux :
    (l r : Text) → all_safe l ≡ true → all_safe r ≡ true → all_safe (reverse_aux l r) ≡ true
all_safe-reverse_aux [] r h k = k
all_safe-reverse_aux (x ∷ l) r h k = all_safe-reverse_aux l (x ∷ r) (ground arith) (ground arith)

all_safe-reverse : (s : Text) → all_safe s ≡ true → all_safe (reverse s) ≡ true
all_safe-reverse s h = all_safe-reverse_aux s [] h refl

trim-safe : (s : Text) → all_safe s ≡ true → trim s ≡ s
unfolding trim
trim-safe s h =
    ap (λ t. reverse (trim_start (reverse t))) (trim_start-safe s h)
    ∙ (ap reverse (trim_start-safe (reverse s) (all_safe-reverse s h)) ∙ reverse-reverse s)

pub is_segment-all_safe : (s : Text) → is_segment s ≡ true → all_safe s ≡ true
unfolding is_segment
is_segment-all_safe [] h = refl
is_segment-all_safe (c ∷ s) h = ground arith

dashed-all_safe : (s : Text) → all_safe (dashed s) ≡ true
unfolding dashed
dashed-all_safe [] = refl
dashed-all_safe (c ∷ s) = ground (arith, dashed-all_safe s)

all_safe-collapse : (s : Text) → all_safe s ≡ true → all_safe (collapse s) ≡ true
unfolding collapse
all_safe-collapse [] h = refl
all_safe-collapse (c ∷ s) h = ground (arith, all_safe-collapse s)

all_safe-drop_dash : (s : Text) → all_safe s ≡ true → all_safe (drop_dash s) ≡ true
unfolding drop_dash
all_safe-drop_dash [] h = refl
all_safe-drop_dash (c ∷ s) h = ground arith

all_safe-strip_dashes : (s : Text) → all_safe s ≡ true → all_safe (strip_dashes s) ≡ true
unfolding strip_dashes
all_safe-strip_dashes s h = all_safe-reverse (drop_dash (reverse (drop_dash s))) (
    all_safe-drop_dash (reverse (drop_dash s))
      (all_safe-reverse (drop_dash s) (all_safe-drop_dash s h)))

pub some-inj : {a b : Text} → ◌≡◌ {A = Option Text} (some a) (some b) → a ≡ b
some-inj e = cc

segment-inj : {a b : Text} → segment a ≡ segment b → a ≡ b
segment-inj e = cc

slug_guard : (b : Bool) (t s : Text) → (if b then none else some t) ≡ some s → t ≡ s
slug_guard true t s h = cc
slug_guard false t s h = some-inj h

pub slug-all_safe :
    (fold : ℕ → Text) (value : Option Text) (s : Text)
    → slugify_segment fold value ≡ some s
    → all_safe s ≡ true
unfolding slugify_segment
slug-all_safe fold none s h = cc
slug-all_safe fold (some value) s h =
    let low = to_lower fold (trim value) in
    subst (λ t. all_safe t ≡ true)
      (slug_guard (is_blank value || is_blank low) (strip_dashes (collapse (dashed low))) s h)
      (all_safe-strip_dashes (collapse (dashed low))
        (all_safe-collapse (dashed low) (dashed-all_safe low)))

-- The two tests at the end of `toSegment`.
judge : Bool → Bool → Text → Segment
judge blank ok v = if blank then blank_segment else if ok then segment v else invalid_segment

judge_segment :
    (blank ok : Bool) (v s : Text) → judge blank ok v ≡ segment s → (ok ≡ true) × (v ≡ s)
unfolding judge
judge_segment true ok v s h = cc
judge_segment false true v s h = (refl, segment-inj h)
judge_segment false false v s h = cc

pub to_segment-is_segment :
    (fold : ℕ → Text) (raw : Option Text) (s : Text)
    → to_segment fold raw ≡ segment s
    → is_segment s ≡ true
unfolding to_segment judge
to_segment-is_segment fold raw s h =
    let v = to_lower fold (trim (or_empty raw)) in
    let both = judge_segment (is_blank v) (is_segment v) v s h in
    subst (λ t. is_segment t ≡ true) both.1 both.0

pub segment-to_segment :
    (fold : ℕ → Text) (s : Text) → is_segment s ≡ true → to_segment fold (some s) ≡ segment s
unfolding to_segment is_segment judge
segment-to_segment fold [] h = cc
segment-to_segment fold (c ∷ s) h =
    let safe = is_segment-all_safe (c ∷ s) h in
    ap (λ v. judge (is_blank v) (is_segment v) v)
      (ap (to_lower fold) (trim-safe (c ∷ s) safe) ∙ to_lower-safe fold (c ∷ s) safe)
    ∙ ap (λ ok. judge false ok (c ∷ s)) h

-- What `toSegment` accepts matches the pattern of a segment, and comes back unchanged when it is
-- normalised again; every text that matches the pattern is accepted as it stands.
pub to_segment-normal :
    (fold : ℕ → Text) (s : Text)
    → ((raw : Option Text)
        → to_segment fold raw ≡ segment s
        → (is_segment s ≡ true) × (to_segment fold (some s) ≡ segment s))
      × (is_segment s ≡ true → to_segment fold (some s) ≡ segment s)
to_segment-normal fold s = (
  λ raw h. let ok = to_segment-is_segment fold raw s h in (ok, segment-to_segment fold s ok),
  segment-to_segment fold s,
)
