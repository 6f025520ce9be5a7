-- ===== src/Namespace.antt =====
-- host/src/memory/namespaces.ts: the names of memory namespaces and who may use them.
-- `fold` gives what `toLowerCase` makes of a code unit outside ASCII. Error messages are left out.
-- Contexts are association lists; the keys of `Object.prototype` are not among their keys.
pub mod Segments
pub mod Access
pub mod Readable
pub mod Accepted
pub mod Levels
pub mod Patterns
pub mod Distance
mod Tests
use ontheia.Prelude.{
  ℕ, zero, suc, ◌+◌, ◌-◌, ◌==◌, leb, ltb, Bool, true, false, not, ◌&&◌, ◌||◌, Option, none, some,
  List, [], ◌∷◌, ◌++◌, map, if◌then◌else◌, Text, String, codes, text_eq, has_text, split, any, keep,
  starts_with, ends_with, trim, to_lower, replace_placeholders, length,
}
use mathlib.Core.List.{reverse}

abbrev pub is_lower_or_digit : ℕ → Bool
is_lower_or_digit c = (leb b'a' c && leb c b'z') || (leb b'0' c && leb c b'9')

-- The complement of `SAFE_SEGMENT`.
abbrev pub is_safe : ℕ → Bool
is_safe c = is_lower_or_digit c || c == b'-'

abbrev pub all_safe : Text → Bool
all_safe [] = true
all_safe (c ∷ s) = is_safe c && all_safe s

-- `SEGMENT_PATTERN`
unfoldable pub is_segment : Text → Bool
is_segment [] = false
is_segment (c ∷ s) = is_lower_or_digit c && all_safe s

unfoldable pub dashed : Text → Text
dashed [] = []
dashed (c ∷ s) = (if is_safe c then c else b'-') ∷ dashed s

abbrev pub begins_dash : Text → Bool
begins_dash [] = false
begins_dash (c ∷ s) = c == b'-'

-- `.replace(/-+/g, '-')`
unfoldable pub collapse : Text → Text
collapse [] = []
collapse (c ∷ s) = let rest = collapse s in if c == b'-' && begins_dash s then rest else c ∷ rest

unfoldable pub drop_dash : Text → Text
drop_dash [] = []
drop_dash (c ∷ s) = if c == b'-' then s else c ∷ s

-- `.replace(/^-|-$/g, '')`
unfoldable pub strip_dashes : Text → Text
unfolding drop_dash
strip_dashes s = reverse (drop_dash (reverse (drop_dash s)))

abbrev pub is_blank : Text → Bool
is_blank [] = true
is_blank (_ ∷ _) = false

abbrev pub or_empty : Option Text → Text
or_empty none = []
or_empty (some s) = s

pub data Segment : Type 0 where
  segment : Text → Segment
  blank_segment : Segment
  invalid_segment : Segment

module _ (fold : ℕ → Text) where
  unfoldable pub slugify_segment : Option Text → Option Text
  unfolding trim to_lower dashed collapse strip_dashes
  slugify_segment none = none
  slugify_segment (some value) =
      let trimmed = to_lower fold (trim value) in
      if is_blank value || is_blank trimmed
      then none
      else some (strip_dashes (collapse (dashed trimmed)))

  -- `toSegment`; the last two results are its two exceptions.
  unfoldable pub to_segment : Option Text → Segment
  unfolding trim to_lower is_segment
  to_segment raw =
      let value = to_lower fold (trim (or_empty raw)) in
      if is_blank value
      then blank_segment
      else if is_segment value
      then segment value
      else invalid_segment

-- `context[key]`
unfoldable pub lookup : Text → List (Text × Option Text) → Option Text
unfolding text_eq
lookup key [] = none
lookup key ((k, v) ∷ context) = if text_eq k key then v else lookup key context

abbrev pub is_key_char : ℕ → Bool
is_key_char c =
    (leb b'a' c && leb c b'z')
    || ((leb b'A' c && leb c b'Z') || ((leb b'0' c && leb c b'9') || c == b'_'))

abbrev pub segment_text : Segment → Option Text
segment_text (segment s) = some s
segment_text blank_segment = none
segment_text invalid_segment = none

-- `namespaces.add(ns)` on a set that keeps its order.
unfoldable pub add_new : Text → List Text → List Text
unfolding has_text
add_new ns set = if has_text ns set then set else set ++ ns ∷ []

unfoldable pub add_extra : List (Option Text) → List Text → List Text
unfolding add_new trim
add_extra [] set = set
add_extra (none ∷ extra) set = add_extra extra set
add_extra (some ns ∷ extra) set =
    add_extra extra (if is_blank (trim ns) then set else add_new (trim ns) set)

pub record NamespaceParams : Type 0 where
  pub user_id : Option Text
  pub session_id : Option Text
  pub chat_id : Option Text
  pub extra : List (Option Text)

abbrev pub own_namespaces : Text → Text → Text → List Text → List Text
own_namespaces [] session chat set = set
own_namespaces (c ∷ u) session chat set =
    let user = c ∷ u in
    let set₁ =
      add_new (codes "vector.user." ++ (user ++ codes ".memory"))
        (add_new (codes "vector.agent." ++ (user ++ codes ".memory")) set) in
    let set₂ =
      if is_blank session
      then set₁
      else add_new (codes "vector.user." ++ (user ++ (codes ".session." ++ session))) set₁ in
    if is_blank chat
    then set₂
    else add_new (codes "vector.user." ++ (user ++ (codes ".chat." ++ chat))) set₂

unfoldable pub is_global_namespace : Text → Bool
unfolding starts_with
is_global_namespace ns = starts_with (codes "vector.global.") ns

abbrev pub is_not_brace : ℕ → Bool
is_not_brace c = not (c == 125)

-- Steps 2 and 3 of the loop: a `*` at the end, or an exact match. `reversed` is the resolved pattern,
-- last character first.
unfoldable pub admits_reversed : Text → Text → Bool
unfolding text_eq starts_with
admits_reversed requested [] = text_eq requested []
admits_reversed requested (c ∷ reversed) =
    if c == b'*'
    then starts_with (reverse reversed) requested
    else text_eq requested (reverse (c ∷ reversed))

unfoldable pub admits : Text → Text → Bool
unfolding admits_reversed
admits requested resolved = admits_reversed requested (reverse resolved)

module _ (fold : ℕ → Text) where
  -- `none` is an exception.
  unfoldable pub resolve_namespace_template : Text → List (Text × Option Text) → Option Text
  unfolding replace_placeholders lookup to_segment
  resolve_namespace_template template context =
      replace_placeholders is_key_char (λ key. segment_text (to_segment fold (lookup key context)))
        0 template

  unfoldable pub build_readable_namespaces : NamespaceParams → List Text
  unfolding slugify_segment add_new add_extra
  build_readable_namespaces p = add_extra p.extra (
      own_namespaces (or_empty (slugify_segment fold p.user_id))
        (or_empty (slugify_segment fold p.session_id)) (or_empty (slugify_segment fold p.chat_id))
        [])

  unfoldable pub resolve_pattern : Text → List (Text × Option Text) → Text
  unfolding replace_placeholders lookup slugify_segment
  resolve_pattern pattern context = or_empty (
      replace_placeholders is_not_brace
        (λ key. some (or_empty (slugify_segment fold (lookup key context)))) 0 pattern)

  unfoldable pub is_namespace_allowed : Text → List Text → List (Text × Option Text) → Bool
  unfolding resolve_pattern admits
  is_namespace_allowed requested [] context = false
  is_namespace_allowed requested (pattern ∷ whitelist) context =
      (not (is_blank requested)
        && (not (is_blank pattern) && admits requested (resolve_pattern pattern context)))
      || is_namespace_allowed requested whitelist context
