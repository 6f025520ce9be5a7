-- ===== src/Chunker/Sections.antt =====
-- host/src/runtime/ingest/chunker.ts: parseIntoSections, which cuts the lines at the headings of Markdown.
use ontheia.Prelude.{
  ℕ, zero, suc, ◌+◌, ◌==◌, leb, Bool, not, ◌&&◌, ◌||◌, Option, none, some, List, [], ◌∷◌, ◌++◌,
  if◌then◌else◌, Text, is_space, trim_start, trim, any, keep,
}
use ontheia.Chunker.Lines.{is_blank, is_line_end}

pub record Section : Type 0 where
  pub level : ℕ
  pub heading : Text
  pub heading_text : Text
  pub breadcrumb : List Text
  pub lines : List Text

unfoldable pub until_line_end : Text → Text
until_line_end [] = []
until_line_end (c ∷ s) = let rest = until_line_end s in if is_line_end c then [] else c ∷ rest

-- `\s+(.+)` behind the `#`: the group, trimmed. A line of white space alone matches if something that does
-- not end a line stands behind its first character; the group is then white space.
unfoldable pub heading_rest : Text → Option Text
unfolding is_space trim_start trim until_line_end
heading_rest [] = none
heading_rest (c ∷ s) =
    if not (is_space c)
    then none
    else if not (is_blank (trim_start s))
    then some (trim (until_line_end (trim_start s)))
    else if any (λ d. not (is_line_end d)) s
    then some []
    else none

-- The number of `#` at the front, with those already passed, and the heading behind them.
unfoldable pub heading_match : ℕ → Text → Option (ℕ × Text)
unfolding heading_rest
heading_match level [] = none
heading_match level (c ∷ s) =
    let deeper = heading_match (level + 1) s in
    if c == b'#'
    then deeper
    else if leb 1 level && leb level 6
    then elim (heading_rest (c ∷ s)) [ none ↦ none | some t ↦ some (level, t) ]
    else none

-- `stack[level] = heading`, and the levels below it are emptied; the list begins with level 1.
unfoldable pub set_level : ℕ → Text → List Text → List Text
set_level level t [] = []
set_level zero t (h ∷ stack) = [] ∷ set_level zero t stack
set_level (suc zero) t (h ∷ stack) = t ∷ set_level zero t stack
set_level (suc (suc level)) t (h ∷ stack) = h ∷ set_level (suc level) t stack

-- `stack.slice(1, level + 1).filter(Boolean)`
unfoldable pub crumbs : ℕ → List Text → List Text
crumbs zero stack = []
crumbs (suc level) [] = []
crumbs (suc level) (h ∷ stack) =
    let rest = crumbs level stack in if is_blank h then rest else h ∷ rest

abbrev pub preamble : Section
preamble = record { level = 0; heading = []; heading_text = []; breadcrumb = []; lines = [] }

abbrev pub or_preamble : Option Section → Section
or_preamble none = preamble
or_preamble (some s) = s

abbrev pub flush_section : Option Section → List Section → List Section
flush_section none later = later
flush_section (some s) later = s ∷ later

abbrev pub open_section : Text → ℕ → Text → List Text → Section
open_section line level t stack = record {
  level = level;
  heading = line;
  heading_text = t;
  breadcrumb = crumbs level stack;
  lines = [];
}

-- The loop over the lines, with the stack of headings and the current section.
unfoldable pub collect : List Text → Option Section → List Text → List Section
unfolding heading_match set_level crumbs
collect stack current [] = flush_section current []
collect stack current (line ∷ lines) = elim (heading_match 0 line) [
  | some m ↦
      let stack' = set_level m.0 m.1 stack in
      flush_section current (collect stack' (some (open_section line m.0 m.1 stack')) lines)
  | none ↦
      let s = or_preamble current in
      collect stack (some (record s { lines = s.lines ++ line ∷ [] })) lines
]

unfoldable pub is_kept : Section → Bool
unfolding trim
is_kept s = not (is_blank s.heading) || any (λ l. not (is_blank (trim l))) s.lines

unfoldable pub parse_into_sections : List Text → List Section
unfolding collect is_kept
parse_into_sections lines = keep is_kept (collect ([] ∷ [] ∷ [] ∷ [] ∷ [] ∷ [] ∷ []) none lines)
