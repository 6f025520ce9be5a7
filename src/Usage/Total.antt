-- ===== src/Usage/Total.antt =====
-- host/src/runtime/provider-run.ts: nothing that a provider counts is lost or counted twice.
use ontheia.Prelude.{ℕ, ◌+◌, ◌≤◌, ◌≡◌, sym, ap, ◌∙◌, Option, none, some, arith}
use Prim.Native.Nat.{max}
use ontheia.Usage.{
  ReportedUsage, NormalizedUsage, or_zero, less, raw_prompt, raw_completion, cached_subset,
  cache_write_subset, hidden_reasoning, normalized, normalize_usage,
}

abbrev pub total_of : NormalizedUsage → ℕ
total_of n = n.prompt + n.completion + n.cache_read + n.cache_creation

-- What the fields of a provider count: its prompt with the parts of it that were cached, the completion, and what
-- is reported beside the prompt.
abbrev pub counted : ReportedUsage → ℕ
counted u =
    or_zero (raw_prompt u)
    + or_zero (raw_completion u)
    + or_zero u.cache_read_input_tokens
    + or_zero u.cache_creation_input_tokens

less-add : (p n : ℕ) → n ≤ p → less p n + n ≡ p
less-add p n h = ground arith

hidden-max : (t : Option ℕ) (a : ℕ) → hidden_reasoning t a + a ≡ max (or_zero t) a
unfolding hidden_reasoning
hidden-max none a = ground arith
hidden-max (some t) a = ground arith

parts-counted :
    (u : ReportedUsage)
    → cached_subset u + cache_write_subset u ≤ or_zero (raw_prompt u)
    → total_of (normalized u) ≡ max (or_zero u.total_tokens) (counted u)
parts-counted u h =
    let p = or_zero (raw_prompt u) in
    let first = less-add p (cached_subset u) (omega (arith, h)) in
    let second =
      less-add (less p (cached_subset u)) (cache_write_subset u) (omega (arith, h, first)) in
    let prompt = less (less p (cached_subset u)) (cache_write_subset u) in
    let accounted_for =
      prompt
      + (or_zero u.cache_read_input_tokens + cached_subset u)
      + (or_zero u.cache_creation_input_tokens + cache_write_subset u)
      + or_zero (raw_completion u) in
    let same : accounted_for ≡ counted u = omega (arith, first, second) in
    let hidden = hidden-max u.total_tokens accounted_for in
    let sum : total_of (normalized u)
        ≡ hidden_reasoning u.total_tokens accounted_for + accounted_for =
      omega arith in
    sum ∙ (hidden ∙ ap (max (or_zero u.total_tokens)) same)

normalized_of :
    (u : ReportedUsage) (n : NormalizedUsage) → normalize_usage (some u) ≡ some n → normalized u ≡ n
unfolding normalize_usage
normalized_of u n = by_counts (raw_prompt u) (raw_completion u)
  where
    by_counts :
        (p c : Option ℕ)
        → elim p [
          | some k ↦ some (normalized u)
          | none ↦ elim c [ none ↦ none | some m ↦ some (normalized u) ]
        ]
          ≡ some n
        → normalized u ≡ n
    by_counts (some k) c e = ap (λ o. elim o [ none ↦ n | some m ↦ m ]) e
    by_counts none (some m) e = ap (λ o. elim o [ none ↦ n | some m ↦ m ]) e
    by_counts none none e = absurd (ground arith)

-- If the parts of the prompt that were cached are no more than the prompt, then the four counts together are what the
-- provider counts, or its total where that is more.
pub normalized_total :
    (u : ReportedUsage) (n : NormalizedUsage)
    → normalize_usage (some u) ≡ some n
    → cached_subset u + cache_write_subset u ≤ or_zero (raw_prompt u)
    → total_of n ≡ max (or_zero u.total_tokens) (counted u)
normalized_total u n e h = ap total_of (sym (normalized_of u n e)) ∙ parts-counted u h
