-- ===== src/Retry.antt =====
-- host/src/runtime/fetch-retry.ts: `fetchWithRetry`. What each attempt gives, and whether the run is aborted
-- when the wait after it ends, are parameters. The calls of `fetch` and the warnings are in the answer, in their order.
pub mod Attempts
mod Tests
use ontheia.Prelude.{ℕ, ◌+◌, ◌==◌, Bool, true, false, ◌||◌, List, [], ◌∷◌, if◌then◌else◌, Text}

-- A response by its status, an `AbortError`, or another error by the text of its cause.
pub data Outcome : Type 0 where
  response : ℕ → Outcome
  abort_error : Outcome
  network_error : Text → Outcome

pub data Failure : Type 0 where
  http : ℕ → Failure
  network : Text → Failure

-- The warning that is emitted before a wait.
pub record RetryWarning : Type 0 where
  pub failure : Failure
  pub delay_ms : ℕ
  pub next_attempt : ℕ

-- The call of `fetch` of an attempt, counted from 0, or a warning.
pub data Action : Type 0 where
  fetched : ℕ → Action
  warned : RetryWarning → Action

pub data FetchResult : Type 0 where
  returned : ℕ → FetchResult
  thrown : Outcome → FetchResult
  run_aborted : FetchResult

abbrev pub FetchRun : Type 0
FetchRun = FetchResult × List Action

unfoldable pub is_retryable_status : ℕ → Bool
is_retryable_status s = s == 429 || (s == 500 || (s == 502 || (s == 503 || s == 504)))

abbrev pub retry_delays_ms : List ℕ
retry_delays_ms = 1000 ∷ 4000 ∷ []

abbrev pub settled : Outcome → FetchResult
settled (response s) = returned s
settled abort_error = thrown abort_error
settled (network_error t) = thrown (network_error t)

abbrev pub preceded : Action → FetchRun → FetchRun
preceded a r = (r.0, a ∷ r.1)

-- The end of a round whose attempt failed: the warning, the wait, and the next rounds unless aborted.
unfoldable pub after_wait : Bool → RetryWarning → FetchRun → FetchRun
after_wait true w rest = (run_aborted, warned w ∷ [])
after_wait false w rest = preceded (warned w) rest

-- What follows the call of an attempt, given the delay that its retry would have.
unfoldable pub round : Outcome → Bool → ℕ → ℕ → FetchRun → FetchRun
unfolding is_retryable_status after_wait
round (response s) aborted delay attempt rest =
    if is_retryable_status s
    then after_wait aborted
        (record { failure = http s; delay_ms = delay; next_attempt = attempt + 2 }) rest
    else (returned s, [])
round abort_error aborted delay attempt rest = (thrown abort_error, [])
round (network_error t) aborted delay attempt rest =
    after_wait aborted
      (record { failure = network t; delay_ms = delay; next_attempt = attempt + 2 }) rest

module _ (outcome : ℕ → Outcome) (aborted : ℕ → Bool) where
  -- The loop from an attempt on, with the delays that are left.
  unfoldable pub fetch_from : List ℕ → ℕ → FetchRun
  unfolding round
  fetch_from [] attempt = preceded (fetched attempt) (settled (outcome attempt), [])
  fetch_from (delay ∷ delays) attempt =
      preceded (fetched attempt)
        (round (outcome attempt) (aborted attempt) delay attempt (fetch_from delays (attempt + 1)))

  unfoldable pub fetch_with_retry : FetchRun
  unfolding fetch_from
  fetch_with_retry = fetch_from retry_delays_ms 0
