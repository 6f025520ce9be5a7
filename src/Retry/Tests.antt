-- ===== src/Retry/Tests.antt =====
-- Tests of the retries of host/src/runtime/fetch-retry.ts, and an example of the theorem on them.
use ontheia.Prelude.{ℕ, ◌==◌, ◌≡◌, refl, Bool, false, [], ◌∷◌, if◌then◌else◌}
use ontheia.Retry.{Outcome, response, fetch_with_retry, returned, http, fetched, warned}
use ontheia.Retry.Attempts.{fetch_with_retry-IsSpent, IsSpent}

abbrev busy_once : ℕ → Outcome
busy_once n = if n == 0 then response 503 else response 200

abbrev never : ℕ → Bool
never n = false

recovered : fetch_with_retry busy_once never ≡ (
  returned 200,
  fetched 0
      ∷ warned (record { failure = http 503; delay_ms = 1000; next_attempt = 2 })
      ∷ fetched 1
      ∷ [],
)
unfolding fetch_with_retry
recovered = refl

fetch_with_retry-IsSpent_example : IsSpent busy_once 3 0 (fetch_with_retry busy_once never)
fetch_with_retry-IsSpent_example = fetch_with_retry-IsSpent busy_once never
