-- ===== src/Usage/Tests.antt =====
-- Token counts at concrete values.
use ontheia.Prelude.{◌≡◌, refl, none, some, arith}
use ontheia.Usage.{
  ReportedUsage, NormalizedUsage, normalize_usage, raw_prompt, raw_completion, cached_subset,
  cache_write_subset, hidden_reasoning,
}
use ontheia.Usage.Total.{total_of, normalized_total}

-- A prompt of 61 tokens, 20 of them cached, and thinking that only the total shows.
abbrev gemini : ReportedUsage
gemini = record {
  prompt_tokens = some 61;
  input_tokens = none;
  completion_tokens = some 3;
  output_tokens = none;
  total_tokens = some 975;
  cached_tokens = none;
  prompt_details_cached_tokens = some 20;
  input_details_cached_tokens = none;
  input_details_cache_write_tokens = none;
  cache_read_input_tokens = none;
  cache_creation_input_tokens = none;
  completion_details_reasoning_tokens = none;
  output_details_reasoning_tokens = none;
}

abbrev gemini_counts : NormalizedUsage
gemini_counts = record {
  prompt = 41;
  completion = 914;
  cache_read = 20;
  cache_creation = 0;
  reasoning = 0;
}

gemini_test : normalize_usage (some gemini) ≡ some gemini_counts
unfolding normalize_usage raw_prompt raw_completion cached_subset cache_write_subset
    hidden_reasoning
gemini_test = refl

normalized_total_example : total_of gemini_counts ≡ 975
unfolding normalize_usage raw_prompt raw_completion cached_subset cache_write_subset
    hidden_reasoning
normalized_total_example = normalized_total gemini gemini_counts refl (omega arith)
