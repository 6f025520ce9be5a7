-- ===== src/Retry/Attempts.antt =====
-- host/src/runtime/fetch-retry.ts: how often a request is tried, and what comes of it.
use ontheia.Prelude.{
  ℕ, suc, ◌+◌, ◌≤◌, ◌≡◌, refl, sym, ap, subst, Bool, true, false, List, [], ◌∷◌, if◌then◌else◌,
  length, arith,
}
use ontheia.Retry.{
  Outcome, response, abort_error, network_error, Failure, RetryWarning, http, network, Action,
  fetched, warned, FetchResult, returned, thrown, run_aborted, FetchRun, settled,
  is_retryable_status, retry_delays_ms, after_wait, round, fetch_from, fetch_with_retry, preceded,
}

-- The calls of `fetch`.
abbrev pub tries : List Action → ℕ
tries [] = 0
tries (fetched k ∷ actions) = suc (tries actions)
tries (warned w ∷ actions) = tries actions

-- What a warning says of an outcome that is worth a retry.
abbrev pub IsFailure : Outcome → Failure → Type 0
IsFailure (response s) (http t) = (t ≡ s) × (is_retryable_status s ≡ true)
IsFailure (network_error t) (network u) = u ≡ t
IsFailure o f = ⊥

-- The warning behind the call of attempt `k`.
pub record IsWarning (outcome : ℕ → Outcome) (k : ℕ) (w : RetryWarning) : Type 0 where
  pub of_outcome : IsFailure (outcome k) w.failure
  pub names_next : w.next_attempt ≡ k + 2

-- Calls of `fetch` from attempt `k` on, with a warning of the failure between each two; the result is what the last call
-- gave, or the abort of the run behind a warning.
pub data Alternates (outcome : ℕ → Outcome) : ℕ → FetchResult → List Action → Type 0 where
  last :
      (k : ℕ) (r : FetchResult) → r ≡ settled (outcome k) → Alternates outcome k r (fetched k ∷ [])
  stopped :
      (k : ℕ) (w : RetryWarning)
      → IsWarning outcome k w
      → Alternates outcome k run_aborted (fetched k ∷ warned w ∷ [])
  next :
      (k : ℕ) (w : RetryWarning) (r : FetchResult) (rest : List Action)
      → IsWarning outcome k w
      → Alternates outcome (suc k) r rest
      → Alternates outcome k r (fetched k ∷ warned w ∷ rest)

abbrev pub is_worth_retry : FetchResult → Bool
is_worth_retry (returned s) = is_retryable_status s
is_worth_retry (thrown (network_error t)) = true
is_worth_retry r = false

-- At most `n` tries, which alternate with warnings; a result that is worth a retry comes only after all of them.
abbrev pub IsSpent : (ℕ → Outcome) → ℕ → ℕ → FetchRun → Type 0
IsSpent outcome n k (r, actions) =
    (tries actions ≤ n)
    × Alternates outcome k r actions
    × (is_worth_retry r ≡ true → tries actions ≡ n)

after_wait-IsSpent :
    (outcome : ℕ → Outcome) (aborted : Bool) (w : RetryWarning) (rest : FetchRun) (n k : ℕ)
    → IsWarning outcome k w
    → IsSpent outcome n (suc k) rest
    → IsSpent outcome (suc n) k (preceded (fetched k) (after_wait aborted w rest))
unfolding after_wait
after_wait-IsSpent outcome true w rest n k e (few, shape, final) =
    (omega arith, stopped k w e, λ h. cc)
after_wait-IsSpent outcome false w (r, actions) n k e (few, shape, final) =
    (omega (arith, few), next k w r actions e shape, λ h. omega (arith, final h))

module _ (outcome : ℕ → Outcome) (aborted : Bool) (delay k : ℕ) (rest : FetchRun) (n : ℕ) where
  round-IsSpent :
      (o : Outcome)
      → outcome k ≡ o
      → IsSpent outcome n (suc k) rest
      → IsSpent outcome (suc n) k (preceded (fetched k) (round o aborted delay k rest))
  unfolding round
  round-IsSpent (response s) e h = by_status (is_retryable_status s) refl
    where
      by_status :
          (b : Bool)
          → is_retryable_status s ≡ b
          → IsSpent outcome (suc n) k (
              preceded (fetched k) (
                if b
                then after_wait aborted
                    (record { failure = http s; delay_ms = delay; next_attempt = k + 2 })
                    rest
                else (returned s, [])))
      by_status true q =
          after_wait-IsSpent outcome aborted
            (record { failure = http s; delay_ms = delay; next_attempt = k + 2 }) rest n k
            (record {
              of_outcome = subst (λ o. IsFailure o (http s)) (sym e) (refl, q);
              names_next = refl;
            })
            h
      by_status false q = (omega arith, last k (returned s) (ap settled (sym e)), λ worth. cc)
  round-IsSpent abort_error e h =
      (omega arith, last k (thrown abort_error) (ap settled (sym e)), λ worth. cc)
  round-IsSpent (network_error t) e h =
      after_wait-IsSpent outcome aborted
        (record { failure = network t; delay_ms = delay; next_attempt = k + 2 }) rest n k
        (record {
          of_outcome = subst (λ o. IsFailure o (network t)) (sym e) refl;
          names_next = refl;
        })
        h

fetch_from-IsSpent :
    (outcome : ℕ → Outcome) (aborted : ℕ → Bool) (delays : List ℕ) (k : ℕ)
    → IsSpent outcome (suc (length delays)) k (fetch_from outcome aborted delays k)
unfolding fetch_from
fetch_from-IsSpent outcome aborted [] k =
    (omega arith, last k (settled (outcome k)) refl, λ worth. refl)
fetch_from-IsSpent outcome aborted (delay ∷ delays) k =
    let e : suc k ≡ k + 1 = omega arith in
    subst
      (λ j. IsSpent outcome (suc (suc (length delays))) k (
        preceded (fetched k)
          (round (outcome k) (aborted k) delay k (fetch_from outcome aborted delays j))))
      e
      (round-IsSpent outcome (aborted k) delay k (fetch_from outcome aborted delays (suc k))
        (suc (length delays)) (outcome k) refl (fetch_from-IsSpent outcome aborted delays (suc k)))

-- `fetch` is called at most three times, the attempts in order, with one warning between each two that names the failure
-- and the next attempt; the result is that of the last call, or the abort of the run behind one more warning; a response
-- whose status is worth a retry, or a network error, is handed on only after three calls.
pub fetch_with_retry-IsSpent :
    (outcome : ℕ → Outcome) (aborted : ℕ → Bool)
    → IsSpent outcome 3 0 (fetch_with_retry outcome aborted)
unfolding fetch_with_retry
fetch_with_retry-IsSpent outcome aborted = fetch_from-IsSpent outcome aborted retry_delays_ms 0
