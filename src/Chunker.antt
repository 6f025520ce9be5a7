-- ===== src/Chunker.antt =====
-- host/src/runtime/ingest/chunker.ts: the division of a document into chunks.
-- `M` is the metadata of the caller. A chunk keeps its own fields beside it; the source spreads them into
-- one object, in which they replace those of the caller.
pub mod Lines
pub mod Sections
pub mod Windows
pub mod Kept
pub mod Sizes
pub mod Numbering
mod Tests
use ontheia.Prelude.{
  ℕ, zero, suc, ◌+◌, ◌*◌, ◌/◌, leb, ltb, Bool, true, false, not, ◌&&◌, ◌||◌, Option, none, some,
  List, [], ◌∷◌, ◌++◌, map, if◌then◌else◌, Text, codes, starts_with, split, trim, keep, length,
}
use mathlib.Core.List.{reverse}
use ontheia.Chunker.Lines.{is_blank, word_count, total_words, join, is_noise, is_toc_line}
use ontheia.Chunker.Sections.{Section, parse_into_sections}

pub record Chunk (M : Type 0) : Type 0 where
  pub content : Text
  pub base : M
  pub heading : Option Text
  pub breadcrumb : Option Text
  pub chunk_index : ℕ
  pub total_chunks : Option ℕ

abbrev pub newline : Text
newline = 10 ∷ []

-- The loop that takes lines from the end, given from the last to the first, until they have enough words.
unfoldable pub overlap : ℕ → ℕ → List Text → List Text → List Text
unfolding word_count
overlap overlap_words oc [] taken = taken
overlap overlap_words oc (l ∷ before) taken =
    if ltb oc overlap_words
    then overlap overlap_words (oc + word_count l) before (l ∷ taken)
    else taken

abbrev pub is_empty : List Text → Bool
is_empty [] = true
is_empty (_ ∷ _) = false

-- The loop over the lines: the groups of lines that are flushed, in order, with the last one.
unfoldable pub windows : ℕ → ℕ → List Text → ℕ → List Text → List (List Text)
unfolding word_count total_words overlap
windows max_words overlap_words current words [] = current ∷ []
windows max_words overlap_words current words (line ∷ lines) =
    let lw = word_count line in
    let kept = overlap overlap_words 0 (reverse current) [] in
    let split_here =
      windows max_words overlap_words (kept ++ line ∷ []) (total_words kept + lw) lines in
    let go_on = windows max_words overlap_words (current ++ line ∷ []) (words + lw) lines in
    if ltb max_words (words + lw) && not (is_empty current) then current ∷ split_here else go_on

unfoldable pub hashes : ℕ → Text
hashes zero = []
hashes (suc n) = b'#' ∷ hashes n

-- `#` once for each level, before the heading.
unfoldable pub breadcrumb_lines : ℕ → List Text → List Text
unfolding hashes
breadcrumb_lines level [] = []
breadcrumb_lines level (h ∷ headings) =
    (hashes level ++ b' ' ∷ h) ∷ breadcrumb_lines (level + 1) headings

unfoldable pub context_prefix : List Text → Text
unfolding join breadcrumb_lines
context_prefix [] = []
context_prefix (h ∷ headings) = join newline (breadcrumb_lines 1 (h ∷ headings)) ++ (10 ∷ (10 ∷ []))

abbrev pub if_full : Text → Option Text
if_full [] = none
if_full (c ∷ s) = some (c ∷ s)

abbrev pub joined_breadcrumb : List Text → Option Text
joined_breadcrumb [] = none
joined_breadcrumb (h ∷ headings) = some (join (codes " > ") (h ∷ headings))

unfoldable pub section_lines : Section → List Text
section_lines section =
    if is_blank section.heading then section.lines else section.heading ∷ section.lines

unfoldable pub content_lines : Text → Bool → List Text
unfolding is_noise is_toc_line split trim
content_lines text filter_toc =
    let lines = keep (λ l. not (is_noise (trim l))) (split 10 text) in
    if filter_toc then keep (λ l. not (is_toc_line l)) lines else lines

module _ {M : Type 0} where
  -- `flush` of the sliding window, for each group of lines.
  unfoldable pub flush_all : M → ℕ → List (List Text) → List (Chunk M)
  unfolding join trim
  flush_all metadata index [] = []
  flush_all metadata index (group ∷ groups) =
      let content = trim (join newline group) in
      let skipped = flush_all metadata index groups in
      let later = flush_all metadata (index + 1) groups in
      if is_blank content
      then skipped
      else record {
        content = content;
        base = metadata;
        heading = none;
        breadcrumb = none;
        chunk_index = index;
        total_chunks = none;
      }
        ∷ later

  unfoldable pub sliding_window_chunk : Text → M → ℕ → ℕ → List (Chunk M)
  unfolding split windows flush_all
  sliding_window_chunk text metadata max_words overlap_words =
      flush_all metadata 0 (windows max_words overlap_words [] 0 (split 10 text))

  -- `pushChunk`, for each group of lines.
  unfoldable pub push_all : M → Section → ℕ → List (List Text) → List (Chunk M)
  unfolding join trim context_prefix starts_with
  push_all metadata section index [] = []
  push_all metadata section index (group ∷ groups) =
      let body = trim (join newline group) in
      let skipped = push_all metadata section index groups in
      let later = push_all metadata section (index + 1) groups in
      if is_blank body
      then skipped
      else record {
        content =
            if not (is_empty section.breadcrumb) && not (starts_with (codes "#") body)
            then trim (context_prefix section.breadcrumb ++ body)
            else body;
        base = metadata;
        heading = if_full section.heading_text;
        breadcrumb = joined_breadcrumb section.breadcrumb;
        chunk_index = index;
        total_chunks = none;
      }
        ∷ later

  unfoldable pub chunks_from_section : Section → M → ℕ → ℕ → ℕ → List (Chunk M)
  unfolding section_lines total_words windows push_all
  chunks_from_section section metadata max_words overlap_words index =
      let lines = section_lines section in
      push_all metadata section index (
        if leb (total_words lines) max_words
        then lines ∷ []
        else windows max_words overlap_words [] 0 lines)

  unfoldable pub chunk_sections : List Section → M → ℕ → ℕ → ℕ → List (Chunk M)
  unfolding chunks_from_section
  chunk_sections [] metadata max_words overlap_words index = []
  chunk_sections (s ∷ sections) metadata max_words overlap_words index =
      let first = chunks_from_section s metadata max_words overlap_words index in
      first ++ chunk_sections sections metadata max_words overlap_words (index + length first)

  unfoldable pub semantic_chunk : Text → M → ℕ → ℕ → Bool → List (Chunk M)
  unfolding content_lines parse_into_sections chunk_sections
  semantic_chunk text metadata max_words overlap_words filter_toc =
      chunk_sections (parse_into_sections (content_lines text filter_toc)) metadata max_words
        overlap_words 0

  unfoldable pub with_total : ℕ → List (Chunk M) → List (Chunk M)
  with_total n [] = []
  with_total n (c ∷ chunks) = record c { total_chunks = some n } ∷ with_total n chunks

pub data Mode : Type 0 where
  semantic : Mode
  sliding_window : Mode

-- `Math.round(chunkSize * 0.75)`
unfoldable pub max_words_of : ℕ → ℕ
max_words_of chunk_size = (3 * chunk_size + 2) / 4

-- `rounded m p` is `Math.round(m * (p / 100))`, on floating-point numbers.
module _ {M : Type 0} (rounded : ℕ → ℕ → ℕ) where
  unfoldable pub chunk_mode : Text → M → ℕ → ℕ → Mode → Bool → List (Chunk M)
  unfolding semantic_chunk sliding_window_chunk
  chunk_mode text metadata max_words overlap_words semantic filter_toc =
      semantic_chunk text metadata max_words overlap_words filter_toc
  chunk_mode text metadata max_words overlap_words sliding_window filter_toc =
      sliding_window_chunk text metadata max_words overlap_words

  unfoldable pub chunk_text : Text → M → ℕ → ℕ → Mode → Bool → List (Chunk M)
  unfolding max_words_of chunk_mode with_total
  chunk_text text metadata chunk_size overlap_pct mode filter_toc =
      let max_words = max_words_of chunk_size in
      let chunks =
        chunk_mode text metadata max_words (rounded max_words overlap_pct) mode filter_toc in
      with_total (length chunks) chunks
