-- ===== src/Secrets/Masked.antt =====
-- host/src/secrets/resolver.ts: what `resolveEnvMap` masks.
use ontheia.Prelude.{
  ◌≡◌, refl, inl, inr, Bool, true, false, ◌&&◌, Option, none, some, List, if◌then◌else◌, Text,
  text_eq, Bool-cases, arith,
}
use ontheia.ChainRunner.Values.{
  undefined, null, bool, number, text, array, object, Fields, no_fields, field,
}
use ontheia.Processes.Table.{table_get}
use ontheia.Secrets.{
  SecretSource, is_secret_reference, resolve_secret_ref, ResolvedEnv, stars, add_entry,
  resolve_entries, resolve_env_map,
}

-- Some entry has this key, and its value is a reference to a secret.
unfoldable pub refers : Text → Fields → Bool
unfolding text_eq is_secret_reference
refers key no_fields = false
refers key (field k (text raw) fs) =
    if text_eq key k && is_secret_reference raw then true else refers key fs
refers key (field k v fs) = refers key fs

-- Only a reference to a secret can fail.
failed-is_secret_reference :
    (raw : Text) (sources : List SecretSource)
    → resolve_secret_ref raw sources ≡ none
    → is_secret_reference raw ≡ true
unfolding resolve_secret_ref
failed-is_secret_reference raw sources h = elim (Bool-cases (is_secret_reference raw)) [
  | inl e ↦ e
  | inr e ↦ absurd (ground arith)
]

abbrev pub star_if : Bool → Option Text
star_if true = some stars
star_if false = none

masked_entry :
    (key k raw : Text) (o : Option Text) (env : ResolvedEnv)
    → (o ≡ none → is_secret_reference raw ≡ true)
    → table_get key (add_entry k raw o env).masked
      ≡ (if text_eq key k && is_secret_reference raw then some stars else table_get key env.masked)
unfolding table_get
masked_entry key k raw none env h = let e = h refl in ground arith
masked_entry key k raw (some t) env h = ground arith

resolve_entries-masked :
    (fs : Fields) (sources : List SecretSource) (key : Text)
    → table_get key (resolve_entries fs sources).masked ≡ star_if (refers key fs)
unfolding resolve_entries refers table_get
resolve_entries-masked no_fields sources key = refl
resolve_entries-masked (field k (text raw) fs) sources key =
    let ih = resolve_entries-masked fs sources key in
    let e =
      masked_entry key k raw (resolve_secret_ref raw sources) (resolve_entries fs sources)
        (failed-is_secret_reference raw sources) in
    ground arith
resolve_entries-masked (field k undefined fs) sources key = resolve_entries-masked fs sources key
resolve_entries-masked (field k null fs) sources key = resolve_entries-masked fs sources key
resolve_entries-masked (field k (bool b) fs) sources key = resolve_entries-masked fs sources key
resolve_entries-masked (field k (number n) fs) sources key = resolve_entries-masked fs sources key
resolve_entries-masked (field k (array vs) fs) sources key = resolve_entries-masked fs sources key
resolve_entries-masked (field k (object o) fs) sources key = resolve_entries-masked fs sources key

-- The map `masked` holds `***` under the keys of the references to secrets, found or not, and nothing under any other
-- key, that of a value which was entered directly included: such a value is not masked.
pub resolve_env_map-masked :
    (fs : Fields) (sources : List SecretSource) (key : Text)
    → table_get key (resolve_env_map (object fs) sources).masked ≡ star_if (refers key fs)
unfolding resolve_env_map
resolve_env_map-masked fs sources key = resolve_entries-masked fs sources key
