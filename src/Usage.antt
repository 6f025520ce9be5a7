-- ===== src/Usage.antt =====
-- host/src/runtime/provider-run.ts: `normalizeUsage`, which brings the token counts of the providers into one form. A count is
-- a natural number; `none` is a field that is missing or no number.
pub mod Total
mod Tests
use ontheia.Prelude.{ℕ, ◌+◌, ◌-◌, ltb, Bool, true, false, Option, none, some, if◌then◌else◌}

-- The fields of the answer that are read, those of the objects in it by their full path.
pub record ReportedUsage : Type 0 where
  pub prompt_tokens : Option ℕ
  pub input_tokens : Option ℕ
  pub completion_tokens : Option ℕ
  pub output_tokens : Option ℕ
  pub total_tokens : Option ℕ
  pub cached_tokens : Option ℕ
  pub prompt_details_cached_tokens : Option ℕ
  pub input_details_cached_tokens : Option ℕ
  pub input_details_cache_write_tokens : Option ℕ
  pub cache_read_input_tokens : Option ℕ
  pub cache_creation_input_tokens : Option ℕ
  pub completion_details_reasoning_tokens : Option ℕ
  pub output_details_reasoning_tokens : Option ℕ

pub record NormalizedUsage : Type 0 where
  pub prompt : ℕ
  pub completion : ℕ
  pub cache_read : ℕ
  pub cache_creation : ℕ
  pub reasoning : ℕ

abbrev pub else_count : Option ℕ → Option ℕ → Option ℕ
else_count none b = b
else_count (some n) b = some n

abbrev pub or_zero : Option ℕ → ℕ
or_zero none = 0
or_zero (some n) = n

unfoldable pub raw_prompt : ReportedUsage → Option ℕ
raw_prompt u = else_count u.prompt_tokens u.input_tokens

unfoldable pub raw_completion : ReportedUsage → Option ℕ
raw_completion u = else_count u.completion_tokens u.output_tokens

unfoldable pub cached_subset : ReportedUsage → ℕ
cached_subset u = or_zero (
    else_count u.prompt_details_cached_tokens
      (else_count u.input_details_cached_tokens u.cached_tokens))

unfoldable pub cache_write_subset : ReportedUsage → ℕ
cache_write_subset u = or_zero u.input_details_cache_write_tokens

-- `Math.max(0, prompt - n)` where `n` is above 0
abbrev pub less : ℕ → ℕ → ℕ
less prompt n = if ltb 0 n then prompt - n else prompt

-- What the total has beyond the parts.
unfoldable pub hidden_reasoning : Option ℕ → ℕ → ℕ
hidden_reasoning none accounted_for = 0
hidden_reasoning (some total) accounted_for = total - accounted_for

abbrev pub normalized : ReportedUsage → NormalizedUsage
normalized u =
    let prompt = less (less (or_zero (raw_prompt u)) (cached_subset u)) (cache_write_subset u) in
    let cache_read = or_zero u.cache_read_input_tokens + cached_subset u in
    let cache_creation = or_zero u.cache_creation_input_tokens + cache_write_subset u in
    let completion = or_zero (raw_completion u) in
    record {
      prompt = prompt;
      completion =
          completion
          + hidden_reasoning u.total_tokens (prompt + cache_read + cache_creation + completion);
      cache_read = cache_read;
      cache_creation = cache_creation;
      reasoning =
          or_zero
            (else_count u.completion_details_reasoning_tokens u.output_details_reasoning_tokens);
    }

-- `normalizeUsage`; `none` in front is a usage that is missing or no object.
unfoldable pub normalize_usage : Option ReportedUsage → Option NormalizedUsage
unfolding raw_prompt raw_completion cached_subset cache_write_subset hidden_reasoning
normalize_usage none = none
normalize_usage (some u) = elim (raw_prompt u) [
  | some n ↦ some (normalized u)
  | none ↦ elim (raw_completion u) [ none ↦ none | some m ↦ some (normalized u) ]
]
