-- ===== src/Namespace/Readable.antt =====
-- host/src/memory/namespaces.ts: whose namespaces buildReadableNamespaces gives.
use ontheia.Prelude.{
  ℕ, ◌≡◌, refl, sym, ap, ◌∙◌, ◌⊎◌, inl, inr, ◌≢◌, Bool, true, false, Option, none, some, List, [],
  ◌∷◌, ◌++◌, if◌then◌else◌, Text, String, codes, has_text, trim, Has, Has-append,
}
use ontheia.Namespace.{
  all_safe, is_blank, or_empty, slugify_segment, add_new, add_extra, own_namespaces,
  NamespaceParams, build_readable_namespaces,
}
use ontheia.Namespace.Segments.{slug-all_safe}

-- The text before the user's segment, the segment and its dot, and something below.
abbrev pub Below : String → Text → Text → Type 0
Below scope user ns = (rest : Text) × (ns ≡ codes scope ++ (user ++ (b'.' ∷ rest)))

abbrev pub OfUser : Text → Text → Type 0
OfUser user ns = Below "vector.agent." user ns ⊎ Below "vector.user." user ns

abbrev pub IsExtra : List (Option Text) → Text → Type 0
IsExtra extra ns = (e : Text) × Has (some e) extra × (ns ≡ trim e) × (is_blank ns ≡ false)

Has-add_new : (ns x : Text) (set : List Text) → Has ns (add_new x set) → (ns ≡ x) ⊎ Has ns set
unfolding add_new
Has-add_new ns x set h = by_known (has_text x set) h
  where
    by_known :
        (known : Bool) → Has ns (if known then set else set ++ x ∷ []) → (ns ≡ x) ⊎ Has ns set
    by_known true h = inr h
    by_known false h = elim (Has-append ns set (x ∷ []) h) [
      | inl k ↦ inr k
      | inr (inl e) ↦ inl e
      | inr (inr nothing) ↦ absurd nothing
    ]

Has-optional :
    (b : Bool) (ns x : Text) (set : List Text)
    → Has ns (if b then set else add_new x set)
    → (ns ≡ x) ⊎ Has ns set
Has-optional true ns x set h = inr h
Has-optional false ns x set h = Has-add_new ns x set h

cons-neq-nil : {c : ℕ} {t : Text} → ◌≢◌ {A = Text} (c ∷ t) []
cons-neq-nil e = cc

Has-own :
    (ns user session chat : Text)
    → Has ns (own_namespaces user session chat [])
    → (user ≢ []) × OfUser user ns
Has-own ns [] session chat h = absurd h
Has-own ns (c ∷ u) session chat h =
    let user = c ∷ u in
    let agent = codes "vector.agent." ++ (user ++ codes ".memory") in
    let own = codes "vector.user." ++ (user ++ codes ".memory") in
    let of_session = codes "vector.user." ++ (user ++ (codes ".session." ++ session)) in
    let of_chat = codes "vector.user." ++ (user ++ (codes ".chat." ++ chat)) in
    let set = add_new own (add_new agent []) in
    let set₂ = if is_blank session then set else add_new of_session set in
    (
      cons-neq-nil,
      elim (Has-optional (is_blank chat) ns of_chat set₂ h) [
        | inl e ↦ inr (codes "chat." ++ chat, e)
        | inr k ↦ elim (Has-optional (is_blank session) ns of_session set k) [
          | inl e ↦ inr (codes "session." ++ session, e)
          | inr k ↦ elim (Has-add_new ns own (add_new agent []) k) [
            | inl e ↦ inr (codes "memory", e)
            | inr k ↦ elim (Has-add_new ns agent [] k) [
              | inl e ↦ inl (codes "memory", e)
              | inr nothing ↦ absurd nothing
            ]
          ]
        ]
      ],
    )

IsExtra-later :
    (x : Option Text) (more : List (Option Text)) (ns : Text)
    → IsExtra more ns
    → IsExtra (x ∷ more) ns
IsExtra-later x more ns (e, m, eq, full) = (e, inr m, eq, full)

Has-add_extra :
    (more : List (Option Text)) (set : List Text) (ns : Text)
    → Has ns (add_extra more set)
    → IsExtra more ns ⊎ Has ns set
unfolding add_extra
Has-add_extra [] set ns h = inr h
Has-add_extra (none ∷ more) set ns h = elim (Has-add_extra more set ns h) [
  | inl k ↦ inl (IsExtra-later none more ns k)
  | inr k ↦ inr k
]
Has-add_extra (some e ∷ more) set ns h =
    elim (Has-add_extra more (if is_blank (trim e) then set else add_new (trim e) set) ns h) [
      | inl k ↦ inl (IsExtra-later (some e) more ns k)
      | inr k ↦ by_blank (is_blank (trim e)) refl k
    ]
  where
    by_blank :
        (b : Bool)
        → is_blank (trim e) ≡ b
        → Has ns (if b then set else add_new (trim e) set)
        → IsExtra (some e ∷ more) ns ⊎ Has ns set
    by_blank true full k = inr k
    by_blank false full k = elim (Has-add_new ns (trim e) set k) [
      | inl eq ↦ inl (e, inl refl, eq, ap is_blank eq ∙ full)
      | inr m ↦ inr m
    ]

or_empty-slug :
    (fold : ℕ → Text) (o : Option Text) (u : Text) → or_empty o ≡ u → u ≢ [] → o ≡ some u
or_empty-slug fold none u e full = absurd (full (sym e))
or_empty-slug fold (some s) u e full = ap some e

-- Every namespace that is readable by default is an extra one, trimmed and not empty, or lies below
-- `vector.agent.` or `vector.user.` and the user's own slug, which is not empty and, being made of lower
-- case letters, digits and dashes, is a single segment.
pub readable-owned :
    (fold : ℕ → Text) (p : NamespaceParams) (ns : Text)
    → Has ns (build_readable_namespaces fold p)
    → IsExtra p.extra ns
      ⊎ ((user : Text) × (slugify_segment fold p.user_id ≡ some user)
          × (user ≢ [])
          × (all_safe user ≡ true)
          × OfUser user ns)
unfolding build_readable_namespaces
readable-owned fold p ns h =
    let slug = slugify_segment fold p.user_id in
    let user = or_empty slug in
    let session = or_empty (slugify_segment fold p.session_id) in
    let chat = or_empty (slugify_segment fold p.chat_id) in
    elim (Has-add_extra p.extra (own_namespaces user session chat []) ns h) [
      | inl k ↦ inl k
      | inr k ↦
          let (full, own) = Has-own ns user session chat k in
          let is_slug = or_empty-slug fold slug user refl full in
          inr (user, is_slug, full, slug-all_safe fold p.user_id user is_slug, own)
    ]
