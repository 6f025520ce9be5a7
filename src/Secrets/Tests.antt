-- ===== src/Secrets/Tests.antt =====
-- Secrets at concrete values.
use ontheia.Prelude.{◌≡◌, refl, none, some, [], ◌∷◌, codes, text_eq, starts_with}
use ontheia.ChainRunner.Values.{text, Fields, no_fields, field, object}
use ontheia.Processes.Table.{table_get}
use ontheia.Secrets.{
  SecretSource, is_secret_reference, is_env_var_name, are_name_chars, first_source,
  resolve_secret_ref, resolve_entries, resolve_env_map, stars,
}
use ontheia.Secrets.Masked.{refers, resolve_env_map-masked}

abbrev vault : SecretSource
vault [] = none
vault (c ∷ name) = some (codes "s3cr3t")

abbrev entries_of_server : Fields
entries_of_server = field (codes "TOKEN") (text (codes "secret:API_KEY")) (
    field (codes "PLAIN") (text (codes "value:x"))
      (field (codes "MODE") (text (codes "fast")) no_fields))

resolved_test :
    (resolve_env_map (object entries_of_server) (vault ∷ [])).resolved
    ≡ (codes "TOKEN", codes "s3cr3t")
      ∷ (codes "PLAIN", codes "x")
      ∷ (codes "MODE", codes "fast")
      ∷ []
unfolding resolve_env_map resolve_entries resolve_secret_ref is_secret_reference is_env_var_name
    are_name_chars first_source starts_with
resolved_test = refl

resolve_env_map-masked_example :
    table_get (codes "TOKEN") (resolve_env_map (object entries_of_server) (vault ∷ [])).masked
    ≡ some stars
unfolding refers text_eq is_secret_reference starts_with
resolve_env_map-masked_example =
    resolve_env_map-masked entries_of_server (vault ∷ []) (codes "TOKEN")
