-- ===== src/Chunker/Numbering.antt =====
-- host/src/runtime/ingest/chunker.ts: the numbers that the chunks of a document carry.
use ontheia.Prelude.{
  ℕ, suc, ◌+◌, ◌≡◌, refl, sym, ap, subst, Bool, true, false, some, List, [], ◌∷◌, ◌++◌,
  if◌then◌else◌, Text, length, split, trim, leb, arith,
}
use ontheia.Chunker.{
  Chunk, Mode, semantic, sliding_window, newline, windows, flush_all, sliding_window_chunk,
  push_all, section_lines, chunks_from_section, chunk_sections, content_lines, semantic_chunk,
  with_total, max_words_of, chunk_mode, chunk_text,
}
use ontheia.Chunker.Lines.{is_blank, join, total_words}
use ontheia.Chunker.Sections.{Section, parse_into_sections}

module _ {M : Type 0} where
  -- The indices count up from `i`.
  abbrev pub CountsFrom : ℕ → List (Chunk M) → Type 0
  CountsFrom i [] = Unit
  CountsFrom i (c ∷ chunks) = (c.chunk_index ≡ i) × CountsFrom (i + 1) chunks

  -- They do, and each chunk holds the total.
  abbrev pub IsNumbered : ℕ → ℕ → List (Chunk M) → Type 0
  IsNumbered n i [] = Unit
  IsNumbered n i (c ∷ chunks) =
      (c.chunk_index ≡ i) × (c.total_chunks ≡ some n) × IsNumbered n (i + 1) chunks

  CountsFrom-append :
      (i : ℕ) (xs ys : List (Chunk M))
      → CountsFrom i xs
      → CountsFrom (i + length xs) ys
      → CountsFrom i (xs ++ ys)
  CountsFrom-append i [] ys h k = subst (λ n. CountsFrom n ys) (omega arith) k
  CountsFrom-append i (x ∷ xs) ys (e, h) k =
      (e, CountsFrom-append (i + 1) xs ys h (subst (λ n. CountsFrom n ys) (omega arith) k))

  if_skip :
      (b : Bool) (i : ℕ) (c : Chunk M) (skipped later : List (Chunk M))
      → c.chunk_index ≡ i
      → CountsFrom i skipped
      → CountsFrom (i + 1) later
      → CountsFrom i (if b then skipped else c ∷ later)
  if_skip true i c skipped later e h k = h
  if_skip false i c skipped later e h k = (e, k)

  flush_all-CountsFrom :
      (metadata : M) (i : ℕ) (groups : List (List Text))
      → CountsFrom i (flush_all metadata i groups)
  unfolding flush_all
  flush_all-CountsFrom metadata i [] = tt
  flush_all-CountsFrom metadata i (group ∷ groups) =
      if_skip (is_blank (trim (join newline group))) i _ (flush_all metadata i groups)
        (flush_all metadata (i + 1) groups) refl (flush_all-CountsFrom metadata i groups)
        (flush_all-CountsFrom metadata (i + 1) groups)

  push_all-CountsFrom :
      (metadata : M) (section : Section) (i : ℕ) (groups : List (List Text))
      → CountsFrom i (push_all metadata section i groups)
  unfolding push_all
  push_all-CountsFrom metadata section i [] = tt
  push_all-CountsFrom metadata section i (group ∷ groups) =
      if_skip (is_blank (trim (join newline group))) i _ (push_all metadata section i groups)
        (push_all metadata section (i + 1) groups) refl
        (push_all-CountsFrom metadata section i groups)
        (push_all-CountsFrom metadata section (i + 1) groups)

  chunk_sections-CountsFrom :
      (sections : List Section) (metadata : M) (max_words overlap_words i : ℕ)
      → CountsFrom i (chunk_sections sections metadata max_words overlap_words i)
  unfolding chunk_sections chunks_from_section
  chunk_sections-CountsFrom [] metadata max_words overlap_words i = tt
  chunk_sections-CountsFrom (s ∷ sections) metadata max_words overlap_words i =
      let first = chunks_from_section s metadata max_words overlap_words i in
      CountsFrom-append i first
        (chunk_sections sections metadata max_words overlap_words (i + length first))
        (push_all-CountsFrom metadata s i (
          if leb (total_words (section_lines s)) max_words
          then section_lines s ∷ []
          else windows max_words overlap_words [] 0 (section_lines s)))
        (chunk_sections-CountsFrom sections metadata max_words overlap_words (i + length first))

  with_total-IsNumbered :
      (n i : ℕ) (chunks : List (Chunk M))
      → CountsFrom i chunks
      → IsNumbered n i (with_total n chunks)
  unfolding with_total
  with_total-IsNumbered n i [] h = tt
  with_total-IsNumbered n i (c ∷ chunks) (e, h) =
      (e, refl, with_total-IsNumbered n (i + 1) chunks h)

  length-with_total :
      (n : ℕ) (chunks : List (Chunk M)) → length (with_total n chunks) ≡ length chunks
  unfolding with_total
  length-with_total n [] = refl
  length-with_total n (c ∷ chunks) = ap suc (length-with_total n chunks)

  chunk_mode-CountsFrom :
      (rounded : ℕ → ℕ → ℕ) (text : Text) (metadata : M) (max_words overlap_words : ℕ) (mode : Mode)
      (filter_toc : Bool)
      → CountsFrom 0 (chunk_mode rounded text metadata max_words overlap_words mode filter_toc)
  unfolding chunk_mode semantic_chunk sliding_window_chunk
  chunk_mode-CountsFrom rounded text metadata max_words overlap_words semantic filter_toc =
      chunk_sections-CountsFrom (parse_into_sections (content_lines text filter_toc)) metadata
        max_words overlap_words 0
  chunk_mode-CountsFrom rounded text metadata max_words overlap_words sliding_window filter_toc =
      flush_all-CountsFrom metadata 0 (windows max_words overlap_words [] 0 (split 10 text))

  -- In both modes the chunks are numbered from 0 in their order, over all sections and past the groups
  -- that are blank and skipped, and each holds the number of all chunks.
  pub chunk_text-IsNumbered :
      (rounded : ℕ → ℕ → ℕ) (text : Text) (metadata : M) (chunk_size overlap_pct : ℕ) (mode : Mode)
      (filter_toc : Bool)
      → IsNumbered
          (length (chunk_text rounded text metadata chunk_size overlap_pct mode filter_toc))
          0
          (chunk_text rounded text metadata chunk_size overlap_pct mode filter_toc)
  unfolding chunk_text
  chunk_text-IsNumbered rounded text metadata chunk_size overlap_pct mode filter_toc =
      let max_words = max_words_of chunk_size in
      let chunks =
        chunk_mode rounded text metadata max_words (rounded max_words overlap_pct) mode
          filter_toc in
      subst (λ n. IsNumbered n 0 (with_total (length chunks) chunks))
        (sym (length-with_total (length chunks) chunks))
        (with_total-IsNumbered (length chunks) 0 chunks (
          chunk_mode-CountsFrom rounded text metadata max_words (rounded max_words overlap_pct) mode
            filter_toc))
