-- ===== src/Settings/Freshness.antt =====
-- host/src/runtime/system-flags.ts: which value a second read of a setting gives.
use ontheia.Prelude.{
  ℕ, ◌+◌, ◌≡◌, refl, ap, ◌∙◌, ltb, Bool, true, false, Option, none, some, if◌then◌else◌, Text,
  text_eq_self,
}
use ontheia.Settings.{
  CacheOf, cache_ttl_ms, Answer, remember, fresh, read_through, flag_value, number_value,
  or_default, get_system_flag, get_system_number,
}

module _ {V : Type 0} where
  remember_same :
      (cache : CacheOf V) (key : Text) (v : V) (now later : ℕ)
      → fresh (remember cache key v now key) later
        ≡ (if ltb later (now + cache_ttl_ms) then some v else none)
  unfolding remember fresh
  remember_same cache key v now later =
      ap
        (λ b.
          fresh (if b then some (record { value = v; expires = now + cache_ttl_ms }) else cache key)
            later)
        (text_eq_self key)

  hit_or_query :
      (cache : CacheOf V) (key : Text) (later : ℕ) (v queried : V) (b : Bool)
      → (read_through cache key later queried (if b then some v else none)).0
        ≡ (if b then v else queried)
  unfolding read_through
  hit_or_query cache key later v queried true = refl
  hit_or_query cache key later v queried false = refl

  -- Two reads, the first of which misses.
  reread :
      (cache : CacheOf V) (key : Text) (now later : ℕ) (v queried : V) (o : Option V)
      → o ≡ none
      → (read_through
          (read_through cache key now v o).1
          key
          later
          queried
          (fresh ((read_through cache key now v o).1 key) later)).0
        ≡ (if ltb later (now + cache_ttl_ms) then v else queried)
  unfolding read_through
  reread cache key now later v queried none miss =
      ap (λ o. (read_through (remember cache key v now) key later queried o).0)
        (remember_same cache key v now later)
      ∙ hit_or_query (remember cache key v now) key later v queried (ltb later (now + cache_ttl_ms))
  reread cache key now later v queried (some x) miss = cc

module _ {N : Type 0} where
  -- After a read that finds nothing fresh in the cache, a second read of the same number less than 30
  -- seconds later gives what the first one found in the database, or else the default of its own caller;
  -- from 30 seconds on it gives what the database then has, or that default.
  pub number_reread :
      (first second : Answer N) (cache : CacheOf (Option N)) (key : Text)
      (default_value own_default : N) (now later : ℕ)
      → fresh (cache key) now ≡ none
      → (get_system_number second
          (get_system_number first cache key default_value now).1
          key
          own_default
          later).0
        ≡ or_default
            (if ltb later (now + cache_ttl_ms) then number_value first else number_value second)
            own_default
  unfolding get_system_number
  number_reread first second cache key default_value own_default now later miss =
      ap (λ v. or_default v own_default)
        (reread cache key now later (number_value first) (number_value second)
          (fresh (cache key) now) miss)

  -- A flag that is read again less than 30 seconds after a read that found nothing fresh has the value of
  -- that read, the default of its caller included; from 30 seconds on it has the value of the database, or
  -- the default of the second caller.
  flag_reread :
      (first second : Answer N) (cache : CacheOf Bool) (key : Text)
      (default_value own_default : Bool) (now later : ℕ)
      → fresh (cache key) now ≡ none
      → (get_system_flag second
          (get_system_flag first cache key default_value now).1
          key
          own_default
          later).0
        ≡ (if ltb later (now + cache_ttl_ms)
            then flag_value default_value first
            else flag_value own_default second)
  unfolding get_system_flag
  flag_reread first second cache key default_value own_default now later miss =
      reread cache key now later (flag_value default_value first) (flag_value own_default second)
        (fresh (cache key) now) miss
