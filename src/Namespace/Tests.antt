-- ===== src/Namespace/Tests.antt =====
-- Tests of the namespaces of host/src/memory/namespaces.ts, and examples of the theorems on them.
use ontheia.Prelude.{
  ◌≤◌, ℕ, ◌≡◌, refl, ◌↔◌, inl, inr, ◌⊎◌, ◌≢◌, true, false, Option, none, some, List, [], ◌∷◌, Text,
  codes, trim, split, starts_with, length, Has, All,
}
use ontheia.Namespace.{
  segment, is_segment, all_safe, slugify_segment, to_segment, resolve_namespace_template,
  NamespaceParams, build_readable_namespaces, is_namespace_allowed, invalid_segment,
}
use ontheia.Namespace.Patterns.{
  validate_namespace_pattern, edit_distance, near_suffix, misplaced_star,
}
use ontheia.Namespace.Distance.{Edits, edit_distance-IsLeast}
use ontheia.Namespace.Segments.{to_segment-normal}
use ontheia.Namespace.Levels.{resolve_template-levels}
use ontheia.Namespace.Access.{is_namespace_allowed_iff, Allowed}
use ontheia.Namespace.Accepted.{accepted-WellFormed, WellFormed, IsError}
use ontheia.Namespace.Readable.{readable-owned, IsExtra, OfUser}

abbrev drop_letter : ℕ → Text
drop_letter c = []

abbrev context : List (Text × Option Text)
context = (codes "user_id", some (codes " U7 ")) ∷ []

abbrev template : Text
template = codes "vector.agent.${user_id}.memory"

slug_test : slugify_segment drop_letter (some (codes " a.b--C_")) ≡ some (codes "a-b-c")
unfolding slugify_segment
slug_test = refl

dotted_test : to_segment drop_letter (some (codes "a.b")) ≡ invalid_segment
unfolding to_segment
dotted_test = refl

resolve_test :
    resolve_namespace_template drop_letter template context ≡ some (codes "vector.agent.u7.memory")
unfolding resolve_namespace_template
resolve_test = refl

distance_test : edit_distance (codes "preferenzes") (codes "preferences") ≡ 1
unfolding edit_distance
distance_test = refl

hint_test :
    validate_namespace_pattern (codes "vector.agent.${user_id}.preferenzes")
    ≡ near_suffix (codes "preferenzes") (codes "preferences") ∷ []
unfolding validate_namespace_pattern
hint_test = refl

star_test : validate_namespace_pattern (codes "vector.*.memory") ≡ misplaced_star ∷ []
unfolding validate_namespace_pattern
star_test = refl

to_segment-normal_example :
    ((raw : Option Text)
      → to_segment drop_letter raw ≡ segment (codes "u-7")
      → (is_segment (codes "u-7") ≡ true)
        × (to_segment drop_letter (some (codes "u-7")) ≡ segment (codes "u-7")))
    × (is_segment (codes "u-7") ≡ true
        → to_segment drop_letter (some (codes "u-7")) ≡ segment (codes "u-7"))
to_segment-normal_example = to_segment-normal drop_letter (codes "u-7")

resolve_template-levels_example :
    length (split b'.' (codes "vector.agent.u7.memory")) ≡ length (split b'.' template)
resolve_template-levels_example =
    resolve_template-levels drop_letter template context (codes "vector.agent.u7.memory")
      resolve_test

abbrev whitelist : List Text
whitelist = codes "vector.global.*" ∷ codes "vector.user.${user_id}.*" ∷ []

is_namespace_allowed_iff_example :
    (is_namespace_allowed drop_letter (codes "vector.user.u7.memory") whitelist context ≡ true)
    ↔ Allowed drop_letter (codes "vector.user.u7.memory") whitelist context
is_namespace_allowed_iff_example =
    is_namespace_allowed_iff drop_letter (codes "vector.user.u7.memory") whitelist context

allowed_test :
    is_namespace_allowed drop_letter (codes "vector.user.u7.memory") whitelist context ≡ true
unfolding is_namespace_allowed
allowed_test = refl

foreign_test :
    is_namespace_allowed drop_letter (codes "vector.user.u8.memory") whitelist context ≡ false
unfolding is_namespace_allowed
foreign_test = refl

hinted :
    All
      (λ i. ¬ IsError i)
      (validate_namespace_pattern (codes "vector.agent.${user_id}.preferenzes"))
unfolding validate_namespace_pattern
hinted = (λ e. e, tt)

accepted-WellFormed_example :
    (starts_with (codes "vector.") (trim (codes "vector.agent.${user_id}.preferenzes")) ≡ true)
    × WellFormed (split b'.' (trim (codes "vector.agent.${user_id}.preferenzes")))
accepted-WellFormed_example =
    accepted-WellFormed (codes "vector.agent.${user_id}.preferenzes") hinted

abbrev params : NamespaceParams
params = record {
  user_id = some (codes "U7");
  session_id = none;
  chat_id = some (codes "c.1");
  extra = some (codes " vector.global.x ") ∷ [];
}

in_chat : Has (codes "vector.user.u7.chat.c-1") (build_readable_namespaces drop_letter params)
unfolding build_readable_namespaces
in_chat = inr (inr (inl refl))

readable-owned_example :
    IsExtra params.extra (codes "vector.user.u7.chat.c-1")
    ⊎ ((user : Text) × (slugify_segment drop_letter params.user_id ≡ some user)
        × (user ≢ [])
        × (all_safe user ≡ true)
        × OfUser user (codes "vector.user.u7.chat.c-1"))
readable-owned_example = readable-owned drop_letter params (codes "vector.user.u7.chat.c-1") in_chat

edit_distance-IsLeast_example :
    Edits (codes "memry") (codes "memory") (edit_distance (codes "memry") (codes "memory"))
    × ((n : ℕ)
        → Edits (codes "memry") (codes "memory") n
        → edit_distance (codes "memry") (codes "memory") ≤ n)
edit_distance-IsLeast_example = edit_distance-IsLeast (codes "memry") (codes "memory")
