-- ===== src/Chunker/Tests.antt =====
-- Tests of the chunker of host/src/runtime/ingest/chunker.ts, and examples of the theorems on it.
use ontheia.Prelude.{
  ℕ, ◌+◌, ◌*◌, ◌/◌, ◌≤◌, ◌≡◌, refl, inl, inr, true, false, List, [], ◌∷◌, ◌++◌, Text, codes, length,
  split, trim, All, arith,
}
use ontheia.Chunker.{semantic, windows, chunk_text, content_lines}
use ontheia.Chunker.Lines.{word_count, total_words, is_noise, is_toc_line}
use ontheia.Chunker.Sections.{parse_into_sections}
use ontheia.Chunker.Windows.{windows-InSome, InSome}
use ontheia.Chunker.Sizes.{windows_bounded}
use ontheia.Chunker.Numbering.{chunk_text-IsNumbered, IsNumbered}
use ontheia.Chunker.Kept.{document-InSection, InSection}

abbrev percent : ℕ → ℕ → ℕ
percent m p = (m * p + 50) / 100

abbrev text_lines : List Text
text_lines = codes "one two" ∷ codes "three" ∷ codes "four five" ∷ []

abbrev document : List Text
document =
    codes "intro" ∷ codes "# Top" ∷ codes "a b" ∷ codes "## Sub " ∷ codes "c" ∷ codes "# Next" ∷ []

toc_test : is_toc_line (codes "8.1 Bedienfeld . . . . 64 ") ≡ true
unfolding is_toc_line
toc_test = refl

windows_test :
    windows 3 1 [] 0 text_lines
    ≡ (codes "one two" ∷ codes "three" ∷ []) ∷ (codes "three" ∷ codes "four five" ∷ []) ∷ []
unfolding windows
windows_test = refl

sections_test :
    parse_into_sections document
    ≡ record {
      level = 0;
      heading = [];
      heading_text = [];
      breadcrumb = [];
      lines = codes "intro" ∷ [];
    }
      ∷ record {
        level = 1;
        heading = codes "# Top";
        heading_text = codes "Top";
        breadcrumb = codes "Top" ∷ [];
        lines = codes "a b" ∷ [];
      }
      ∷ record {
        level = 2;
        heading = codes "## Sub ";
        heading_text = codes "Sub";
        breadcrumb = codes "Top" ∷ codes "Sub" ∷ [];
        lines = codes "c" ∷ [];
      }
      ∷ record {
        level = 1;
        heading = codes "# Next";
        heading_text = codes "Next";
        breadcrumb = codes "Next" ∷ [];
        lines = [];
      }
      ∷ []
unfolding parse_into_sections
sections_test = refl

windows-InSome_example : InSome (codes "three") (windows 3 1 [] 0 text_lines)
windows-InSome_example = windows-InSome 3 1 [] 0 text_lines (codes "three") (inr (inr (inl refl)))

short_lines : All (λ l. word_count l ≤ 2) text_lines
unfolding word_count
short_lines = (omega arith, (omega arith, (omega arith, tt)))

windows_bounded_example : All (λ g. total_words g ≤ 5) (windows 3 1 [] 0 text_lines)
windows_bounded_example = windows_bounded 3 1 2 5 (omega arith) (omega arith) text_lines short_lines

abbrev file : ℕ
file = 7

abbrev page : Text
page = codes "intro" ++ (10 ∷ codes "# Top") ++ (10 ∷ codes "a b")

document-InSection_example :
    InSection (codes "# Top") (parse_into_sections (content_lines page true))
unfolding is_noise is_toc_line split trim
document-InSection_example =
    document-InSection (codes "# Top") page true (inr (inl refl)) refl refl refl

chunk_text-IsNumbered_example :
    IsNumbered
      (length (chunk_text percent page file 512 10 semantic false))
      0
      (chunk_text percent page file 512 10 semantic false)
chunk_text-IsNumbered_example = chunk_text-IsNumbered percent page file 512 10 semantic false

count_test : length (chunk_text percent page file 512 10 semantic false) ≡ 2
unfolding chunk_text
count_test = refl
