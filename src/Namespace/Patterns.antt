-- ===== src/Namespace/Patterns.antt =====
-- host/src/memory/namespaces.ts: validateNamespacePattern, which checks a pattern as an administrator
-- writes it. An `Issue` stands for a message; the last two are hints, the others errors.
use Prim.Native.Nat.{min}
use ontheia.Prelude.{
  ℕ, zero, suc, ◌+◌, ◌==◌, leb, ltb, Bool, true, false, not, ◌&&◌, ◌||◌, Option, none, some, List,
  [], ◌∷◌, ◌++◌, map, if◌then◌else◌, Text, codes, text_eq, has_text, split, starts_with, trim,
  placeholder_key, length,
}
use ontheia.Namespace.{is_segment, is_key_char, is_blank}

-- `editDistance`: the next row of the table from the one above it.
unfoldable pub next_row : ℕ → ℕ → ℕ → Text → List ℕ → List ℕ
next_row a left diagonal [] above = []
next_row a left diagonal (b ∷ bs) [] = []
next_row a left diagonal (b ∷ bs) (up ∷ above) =
    let here = min (up + 1) (min (left + 1) (diagonal + (if a == b then 0 else 1))) in
    here ∷ next_row a here up bs above

abbrev pub step_row : ℕ → ℕ → Text → List ℕ → List ℕ
step_row i a b [] = []
step_row i a b (d ∷ above) = i ∷ next_row a i d b above

unfoldable pub rows : ℕ → Text → Text → List ℕ → List ℕ
unfolding next_row
rows i [] b above = above
rows i (c ∷ a) b above = rows (i + 1) a b (step_row i c b above)

unfoldable pub count_from : ℕ → ℕ → List ℕ
count_from i zero = i ∷ []
count_from i (suc n) = i ∷ count_from (i + 1) n

abbrev pub last_or : ℕ → List ℕ → ℕ
last_or d [] = d
last_or d (x ∷ xs) = last_or x xs

unfoldable pub edit_distance : Text → Text → ℕ
unfolding rows count_from
edit_distance a b = last_or 0 (rows 1 a b (count_from 0 (length b)))

abbrev pub known_class_suffixes : List Text
known_class_suffixes =
    map codes ("memory" ∷ "preferences" ∷ "howto" ∷ "temp" ∷ "drafts" ∷ "ideas" ∷ [])

abbrev pub is_closer : ℕ → Option (Text × ℕ) → Bool
is_closer d none = true
is_closer d (some (s, e)) = ltb d e

-- The first suffix at the smallest distance from 1 to 3.
unfoldable pub nearest : Text → List Text → Option (Text × ℕ) → Option (Text × ℕ)
unfolding edit_distance
nearest suffix [] best = best
nearest suffix (s ∷ suffixes) best =
    let d = edit_distance suffix s in
    nearest suffix suffixes (if ltb 0 d && (leb d 3 && is_closer d best) then some (s, d) else best)

pub data Issue : Type 0 where
  pattern_empty : Issue
  not_vector : Issue
  misplaced_star : Issue
  empty_segment : Issue
  segment_invalid : Text → Issue
  near_suffix : Text → Text → Issue
  unknown_suffix : Text → Issue

-- A whole `${placeholder}`.
unfoldable pub is_placeholder : Text → Bool
unfolding placeholder_key
is_placeholder [] = false
is_placeholder (c ∷ s) = elim (placeholder_key is_key_char c s) [
  | none ↦ false
  | some key ↦ length key + 2 == length s
]

unfoldable pub segment_errors : Text → Bool → List Issue
unfolding text_eq is_placeholder is_segment
segment_errors seg is_last =
    if text_eq seg (codes "*")
    then if is_last then [] else misplaced_star ∷ []
    else if is_placeholder seg
    then []
    else if is_blank seg
    then empty_segment ∷ []
    else if is_segment seg
    then []
    else segment_invalid seg ∷ []

abbrev pub is_end : List Text → Bool
is_end [] = true
is_end (_ ∷ _) = false

unfoldable pub pattern_errors : List Text → List Issue
unfolding segment_errors
pattern_errors [] = []
pattern_errors (seg ∷ segments) = segment_errors seg (is_end segments) ++ pattern_errors segments

abbrev pub suffix_issue : Text → Option (Text × ℕ) → Issue
suffix_issue suffix none = unknown_suffix suffix
suffix_issue suffix (some (s, d)) = near_suffix suffix s

unfoldable pub suffix_hints : List Text → List Issue
unfolding text_eq has_text nearest
suffix_hints (_ ∷ scope ∷ _ ∷ suffix ∷ []) =
    if (text_eq scope (codes "user") || text_eq scope (codes "agent"))
      && (not (is_blank suffix)
          && (not (text_eq suffix (codes "*")) && not (has_text suffix known_class_suffixes)))
    then suffix_issue suffix (nearest suffix known_class_suffixes none) ∷ []
    else []
suffix_hints _ = []

abbrev pub or_hints : List Issue → List Issue → List Issue
or_hints [] hints = hints
or_hints (e ∷ errors) hints = e ∷ errors

unfoldable pub validate_namespace_pattern : Text → List Issue
unfolding trim starts_with split pattern_errors suffix_hints
validate_namespace_pattern pattern =
    let value = trim pattern in
    let segments = split b'.' value in
    if is_blank value
    then pattern_empty ∷ []
    else if starts_with (codes "vector.") value
    then or_hints (pattern_errors segments) (suffix_hints segments)
    else not_vector ∷ []

unfoldable pub validate_namespace_patterns : List (Option Text) → List Issue
unfolding validate_namespace_pattern trim
validate_namespace_patterns [] = []
validate_namespace_patterns (none ∷ patterns) = validate_namespace_patterns patterns
validate_namespace_patterns (some p ∷ patterns) =
    let rest = validate_namespace_patterns patterns in
    if is_blank (trim p) then rest else validate_namespace_pattern p ++ rest
