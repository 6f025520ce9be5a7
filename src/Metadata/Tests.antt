-- ===== src/Metadata/Tests.antt =====
-- Metadata at concrete values.
use ontheia.Prelude.{◌≡◌, refl, Bool, true, false, some, [], Text, codes, text_eq, trim, has_text}
use ontheia.ChainRunner.Values.{
  Value, bool, number, text, array, no_values, value, Fields, no_fields, field, present, own_field,
  put_field,
}
use ontheia.Metadata.{
  apply_rules, sanitize_metadata, is_non_empty_string, delete_field, clean_tags, clone_fields,
  judge_source, judge_ttl, judge_tags, judge_id,
}
use ontheia.Metadata.Shape.{IsWritable, sanitize_metadata-IsWritable}

abbrev finite : Text → Bool
finite t = true

abbrev below_zero : Text → Bool
below_zero t = false

abbrev first_text : Value → Text
first_text (array (value (text t) vs)) = t
first_text v = []

abbrev given : Fields
given = field (codes "source") (text (codes "invented")) (
    field (codes "agent_id") (text (codes "a")) (
      field (codes "prototype") (bool true) (
        field (codes "tags") (array (value (text (codes "x")) (value (text (codes " ")) no_values)))
          (field (codes "note") (text (codes "n"))
            (field (codes "user_id") (number (codes "3")) no_fields)))))

sanitized_test :
    sanitize_metadata finite below_zero first_text (some given)
    ≡ field (codes "agent_id") (text (codes "a")) (
        field
          (codes "tags")
          (array (value (text (codes "x")) no_values))
          (field (codes "note") (text (codes "n")) no_fields))
unfolding sanitize_metadata apply_rules clone_fields judge_source judge_ttl judge_tags judge_id
    is_non_empty_string clean_tags delete_field own_field put_field text_eq trim has_text
sanitized_test = refl

-- An array whose text is a known source passes for one.
array_source_test :
    own_field (codes "source") (
      sanitize_metadata finite below_zero first_text (
        some
          (field (codes "source") (array (value (text (codes "run_input")) no_values)) no_fields)))
    ≡ present (array (value (text (codes "run_input")) no_values))
unfolding sanitize_metadata apply_rules clone_fields judge_source judge_ttl judge_tags judge_id
    is_non_empty_string clean_tags delete_field own_field put_field text_eq trim has_text
array_source_test = refl

sanitize_metadata-IsWritable_example :
    IsWritable finite below_zero first_text
      (sanitize_metadata finite below_zero first_text (some given))
sanitize_metadata-IsWritable_example =
    sanitize_metadata-IsWritable finite below_zero first_text given
