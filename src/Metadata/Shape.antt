-- ===== src/Metadata/Shape.antt =====
-- host/src/memory/metadata.ts: the shape of what `sanitizeMetadata` gives.
use ontheia.Prelude.{
  ◌≡◌, refl, ap, ◌∙◌, Bool, true, false, not, ◌&&◌, some, if◌then◌else◌, Text, codes, text_eq, trim,
  has_text, All, arith,
}
use ontheia.ChainRunner.Values.{
  Value, undefined, null, bool, number, text, array, object, Values, no_values, value, Fields,
  Found, absent, present, own_field,
}
use ontheia.Metadata.{
  keep, drop, rules, id_keys, pollution_keys, known_metadata_sources, max_id_length, has_characters,
  is_non_empty_string, judge_pollution, judge_embedding, judge_source, judge_id, judge_ttl,
  judge_tags, clean_tags, store_tags, clone_fields, sanitize_metadata,
}
use ontheia.Metadata.Judged.{outcome, is_free, are_distinct, judged, apply_rules-judged}

abbrev pub is_vector : Found → Bool
is_vector (present (array vs)) = true
is_vector f = false

abbrev pub is_id : Found → Bool
is_id absent = true
is_id (present v) = is_non_empty_string v max_id_length

-- Texts that are not blank.
abbrev pub are_texts : Values → Bool
are_texts no_values = true
are_texts (value (text t) vs) = has_characters (trim t) && are_texts vs
are_texts (value v vs) = false

abbrev pub are_tags : Found → Bool
are_tags absent = true
are_tags (present undefined) = true
are_tags (present (array no_values)) = false
are_tags (present (array (value v vs))) = are_texts (value v vs)
are_tags (present v) = false

module _ (is_finite is_negative : Text → Bool) (string_of : Value → Text) where
  -- A known text, or a number, an array or an object of which `String` makes one.
  abbrev pub is_known_source : Found → Bool
  is_known_source absent = true
  is_known_source (present undefined) = true
  is_known_source (present null) = false
  is_known_source (present (bool b)) = false
  is_known_source (present (number t)) = has_text t known_metadata_sources
  is_known_source (present (text t)) = has_text t known_metadata_sources
  is_known_source (present (array vs)) = has_text (string_of (array vs)) known_metadata_sources
  is_known_source (present (object fs)) = has_text (string_of (object fs)) known_metadata_sources

  abbrev pub is_duration : Found → Bool
  is_duration absent = true
  is_duration (present undefined) = true
  is_duration (present (number t)) = is_finite t && not (is_negative t)
  is_duration (present v) = false

  -- Metadata without a key of the prototype and without a vector, with a source that is a known text, or a number, an
  -- array or an object of which `String` makes one, identifiers that are
  -- texts of 1 to 128 characters and not blank, a duration that is finite and not below 0, and tags that are a list
  -- of at least one text, none of them blank; each of them may be missing.
  pub record IsWritable (fs : Fields) : Type 0 where
    pub unpolluted : All (λ key. own_field key fs ≡ absent) pollution_keys
    pub no_vector : is_vector (own_field (codes "embedding") fs) ≡ false
    pub known_source : is_known_source (own_field (codes "source") fs) ≡ true
    pub sound_ids : All (λ key. is_id (own_field key fs) ≡ true) id_keys
    pub sound_ttl : is_duration (own_field (codes "ttl_seconds") fs) ≡ true
    pub sound_tags : are_tags (own_field (codes "tags") fs) ≡ true

  pollution-dropped : (f : Found) → outcome (judge_pollution f) f ≡ absent
  pollution-dropped absent = refl
  pollution-dropped (present v) = refl

  embedding-dropped : (f : Found) → is_vector (outcome (judge_embedding f) f) ≡ false
  embedding-dropped absent = refl
  embedding-dropped (present undefined) = refl
  embedding-dropped (present null) = refl
  embedding-dropped (present (bool b)) = refl
  embedding-dropped (present (number t)) = refl
  embedding-dropped (present (text t)) = refl
  embedding-dropped (present (array vs)) = refl
  embedding-dropped (present (object fs)) = refl

  kept_if :
      (test : Found → Bool) (v : Value) (b : Bool)
      → test absent ≡ true
      → test (present v) ≡ b
      → test (outcome (if b then keep else drop) (present v)) ≡ true
  kept_if test v true e f = f
  kept_if test v false e f = e

  source-known :
      (f : Found)
      → is_known_source (outcome (judge_source is_finite is_negative string_of f) f) ≡ true
  unfolding judge_source has_text text_eq
  source-known absent = refl
  source-known (present undefined) = refl
  source-known (present null) = refl
  source-known (present (bool true)) = refl
  source-known (present (bool false)) = refl
  source-known (present (number t)) = kept_if is_known_source (number t) _ refl refl
  source-known (present (text t)) = kept_if is_known_source (text t) _ refl refl
  source-known (present (array vs)) = kept_if is_known_source (array vs) _ refl refl
  source-known (present (object fs)) = kept_if is_known_source (object fs) _ refl refl

  id_sound : (f : Found) → is_id (outcome (judge_id f) f) ≡ true
  unfolding judge_id
  id_sound absent = refl
  id_sound (present v) = kept_if is_id v _ refl refl

  ttl_sound :
      (f : Found) → is_duration (outcome (judge_ttl is_finite is_negative string_of f) f) ≡ true
  unfolding judge_ttl
  ttl_sound absent = refl
  ttl_sound (present undefined) = refl
  ttl_sound (present (number t)) = ground arith
  ttl_sound (present null) = refl
  ttl_sound (present (bool b)) = refl
  ttl_sound (present (text t)) = refl
  ttl_sound (present (array vs)) = refl
  ttl_sound (present (object fs)) = refl

  clean_tags_sound : (vs : Values) → are_texts (clean_tags vs) ≡ true
  unfolding clean_tags
  clean_tags_sound no_values = refl
  clean_tags_sound (value (text t) vs) = let ih = clean_tags_sound vs in ground arith
  clean_tags_sound (value undefined vs) = clean_tags_sound vs
  clean_tags_sound (value null vs) = clean_tags_sound vs
  clean_tags_sound (value (bool b) vs) = clean_tags_sound vs
  clean_tags_sound (value (number t) vs) = clean_tags_sound vs
  clean_tags_sound (value (array us) vs) = clean_tags_sound vs
  clean_tags_sound (value (object fs) vs) = clean_tags_sound vs

  stored_sound :
      (vs : Values) (f : Found) → are_texts vs ≡ true → are_tags (outcome (store_tags vs) f) ≡ true
  stored_sound no_values f h = refl
  stored_sound (value v vs) f h = h

  tags_sound : (f : Found) → are_tags (outcome (judge_tags f) f) ≡ true
  unfolding judge_tags
  tags_sound absent = refl
  tags_sound (present undefined) = refl
  tags_sound (present (array vs)) =
      stored_sound (clean_tags vs) (present (array vs)) (clean_tags_sound vs)
  tags_sound (present null) = refl
  tags_sound (present (bool b)) = refl
  tags_sound (present (number t)) = refl
  tags_sound (present (text t)) = refl
  tags_sound (present (object fs)) = refl

  distinct : are_distinct (rules is_finite is_negative string_of) ≡ true
  unfolding are_distinct is_free text_eq
  distinct = refl

  sanitized :
      (fs : Fields) (key : Text)
      → own_field key (sanitize_metadata is_finite is_negative string_of (some fs))
        ≡ judged key
            (rules is_finite is_negative string_of)
            (own_field key (clone_fields is_finite is_negative string_of fs))
  unfolding sanitize_metadata
  sanitized fs key =
      apply_rules-judged key (rules is_finite is_negative string_of)
        (clone_fields is_finite is_negative string_of fs) distinct

  -- Whatever the metadata, what is written to the database is writable: the source is a known text, or a number, an array
  -- or an object of which `String` makes one, and the other fields have their shape.
  pub sanitize_metadata-IsWritable :
      (fs : Fields) → IsWritable (sanitize_metadata is_finite is_negative string_of (some fs))
  unfolding judged text_eq
  sanitize_metadata-IsWritable fs =
      let f = λ (key : Text). own_field key (clone_fields is_finite is_negative string_of fs) in
      record {
        unpolluted = (
          sanitized fs (codes "__proto__") ∙ pollution-dropped (f (codes "__proto__")),
          (
            sanitized fs (codes "constructor") ∙ pollution-dropped (f (codes "constructor")),
            (sanitized fs (codes "prototype") ∙ pollution-dropped (f (codes "prototype")), tt),
          ),
        );
        no_vector =
            ap is_vector (sanitized fs (codes "embedding"))
            ∙ embedding-dropped (f (codes "embedding"));
        known_source =
            ap is_known_source (sanitized fs (codes "source")) ∙ source-known (f (codes "source"));
        sound_ids = (
          ap is_id (sanitized fs (codes "agent_id")) ∙ id_sound (f (codes "agent_id")),
          (
            ap is_id (sanitized fs (codes "task_id")) ∙ id_sound (f (codes "task_id")),
            (
              ap is_id (sanitized fs (codes "user_id")) ∙ id_sound (f (codes "user_id")),
              (
                ap is_id (sanitized fs (codes "session_id")) ∙ id_sound (f (codes "session_id")),
                (
                  ap is_id (sanitized fs (codes "chat_id")) ∙ id_sound (f (codes "chat_id")),
                  (
                    ap is_id (sanitized fs (codes "run_id")) ∙ id_sound (f (codes "run_id")),
                    (
                      ap is_id (sanitized fs (codes "step_id")) ∙ id_sound (f (codes "step_id")),
                      tt,
                    ),
                  ),
                ),
              ),
            ),
          ),
        );
        sound_ttl =
            ap is_duration (sanitized fs (codes "ttl_seconds"))
            ∙ ttl_sound (f (codes "ttl_seconds"));
        sound_tags = ap are_tags (sanitized fs (codes "tags")) ∙ tags_sound (f (codes "tags"));
      }
