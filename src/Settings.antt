-- ===== src/Settings.antt =====
-- host/src/runtime/system-flags.ts: settings of the database behind a cache in the process.
-- The answer of the query is a parameter of each read. `N` is the type of numbers that are finite and over 0.
pub mod Freshness
mod Tests
use ontheia.Prelude.{
  ℕ, ◌+◌, ltb, Bool, true, false, Option, none, some, List, [], ◌∷◌, if◌then◌else◌, Text, text_eq,
}

pub record Cached (V : Type 0) : Type 0 where
  pub value : V
  pub expires : ℕ

abbrev pub CacheOf : Type 0 → Type 0
CacheOf V = Text → Option (Cached V)

abbrev pub cache_ttl_ms : ℕ
cache_ttl_ms = 30000

pub data Stored (N : Type 0) : Type 0 where
  json_false : Stored N
  positive : N → Stored N
  other_value : Stored N

-- The query throws, or gives the rows of the key.
pub data Answer (N : Type 0) : Type 0 where
  query_failed : Answer N
  rows : List (Stored N) → Answer N

module _ {V : Type 0} where
  unfoldable pub remember : CacheOf V → Text → V → ℕ → CacheOf V
  unfolding text_eq
  remember cache key v now k =
      if text_eq key k then some (record { value = v; expires = now + cache_ttl_ms }) else cache k

  -- The cached value, if it has not expired.
  unfoldable pub fresh : Option (Cached V) → ℕ → Option V
  fresh none now = none
  fresh (some c) now = if ltb now c.expires then some c.value else none

  -- The value and the cache after a read that finds `found`, with what the query would give.
  unfoldable pub read_through : CacheOf V → Text → ℕ → V → Option V → V × CacheOf V
  unfolding remember
  read_through cache key now queried none = (queried, remember cache key queried now)
  read_through cache key now queried (some v) = (v, cache)

module _ {N : Type 0} where
  abbrev pub flag_value : Bool → Answer N → Bool
  flag_value default_value query_failed = default_value
  flag_value default_value (rows []) = default_value
  flag_value default_value (rows (json_false ∷ more)) = false
  flag_value default_value (rows (positive n ∷ more)) = true
  flag_value default_value (rows (other_value ∷ more)) = true

  abbrev pub number_value : Answer N → Option N
  number_value query_failed = none
  number_value (rows []) = none
  number_value (rows (json_false ∷ more)) = none
  number_value (rows (positive n ∷ more)) = some n
  number_value (rows (other_value ∷ more)) = none

  abbrev pub or_default : Option N → N → N
  or_default none n = n
  or_default (some m) n = m

  unfoldable pub get_system_flag : Answer N → CacheOf Bool → Text → Bool → ℕ → Bool × CacheOf Bool
  unfolding fresh read_through
  get_system_flag answer cache key default_value now =
      read_through cache key now (flag_value default_value answer) (fresh (cache key) now)

  unfoldable pub get_system_number :
      Answer N → CacheOf (Option N) → Text → N → ℕ → N × CacheOf (Option N)
  unfolding fresh read_through
  get_system_number answer cache key default_value now =
      let r = read_through cache key now (number_value answer) (fresh (cache key) now) in
      (or_default r.0 default_value, r.1)
