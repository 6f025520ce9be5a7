-- ===== src/Chunker/Kept.antt =====
-- host/src/runtime/ingest/chunker.ts: cutting a document at its headings loses no line with text.
use ontheia.Prelude.{
  ℕ, ◌≡◌, refl, sym, subst, ◌⊎◌, inl, inr, Bool, true, false, not, ◌||◌, Option, none, some, List,
  [], ◌∷◌, ◌++◌, if◌then◌else◌, Text, Has, any, keep, trim, split, ◌&&◌, arith,
}
use ontheia.Chunker.{section_lines, content_lines}
use ontheia.Chunker.Lines.{is_blank, is_noise, is_toc_line}
use ontheia.Chunker.Sections.{
  Section, heading_match, set_level, open_section, or_preamble, flush_section, collect, is_kept,
  parse_into_sections,
}
use ontheia.Chunker.Windows.{Has-left, Has-last}

-- The lines of the section at hand.
abbrev held : Option Section → List Text
held none = []
held (some s) = section_lines s

-- A line of one of the sections.
abbrev pub InSection : Text → List Section → Type 0
InSection l sections = (s : Section) × Has s sections × Has l (section_lines s)

InSection-later :
    (l : Text) (current : Option Section) (later : List Section)
    → InSection l later
    → InSection l (flush_section current later)
InSection-later l none later h = h
InSection-later l (some c) later (s, m, k) = (s, inr m, k)

InSection-held :
    (l : Text) (current : Option Section) (later : List Section)
    → Has l (held current)
    → InSection l (flush_section current later)
InSection-held l none later h = absurd h
InSection-held l (some c) later h = (c, inl refl, h)

section_lines-append :
    (s : Section) (line : Text)
    → section_lines (record s { lines = s.lines ++ line ∷ [] }) ≡ section_lines s ++ line ∷ []
unfolding section_lines
section_lines-append s line = by_heading (is_blank s.heading) s.heading s.lines
  where
    by_heading :
        (b : Bool) (heading : Text) (lines : List Text)
        → (if b then lines ++ line ∷ [] else heading ∷ (lines ++ line ∷ []))
          ≡ (if b then lines else heading ∷ lines) ++ line ∷ []
    by_heading true heading lines = refl
    by_heading false heading lines = refl

opened_line :
    (line : Text) (m : ℕ × Text) (s : List Text)
    → heading_match 0 line ≡ some m
    → Has line (section_lines (open_section line m.0 m.1 s))
unfolding heading_match section_lines
opened_line [] m s e = cc
opened_line (c ∷ line) m s e = inl refl

-- A line that was held or is to come.
held-or_preamble :
    (l line : Text) (current : Option Section)
    → (Has l (held current)) ⊎ (line ≡ l)
    → Has l (
        section_lines
          (record (or_preamble current) { lines = (or_preamble current).lines ++ line ∷ [] }))
held-or_preamble l line current h =
    let s = or_preamble current in
    subst (Has l) (sym (section_lines-append s line)) (elim h [
      | inl k ↦ Has-left l (section_lines s) (line ∷ []) (of_held current k)
      | inr e ↦
          subst (λ x. Has l (section_lines s ++ x ∷ [])) (sym e) (Has-last l (section_lines s))
    ])
  where
    of_held :
        (current : Option Section)
        → Has l (held current)
        → Has l (section_lines (or_preamble current))
    of_held none h = absurd h
    of_held (some s) h = h

collect-InSection :
    (l : Text) (stack : List Text) (current : Option Section) (lines : List Text)
    → Has l (held current) ⊎ Has l lines
    → InSection l (collect stack current lines)
unfolding collect
collect-InSection l stack current [] (inl h) = InSection-held l current [] h
collect-InSection l stack current [] (inr h) = absurd h
collect-InSection l stack current (line ∷ lines) h =
    by_match (heading_match 0 line) refl (λ stack s k. collect-InSection l stack (some s) lines k) h
  where
    by_match :
        (o : Option (ℕ × Text))
        → heading_match 0 line ≡ o
        → ((stack : List Text) (s : Section)
            → Has l (section_lines s) ⊎ Has l lines
            → InSection l (collect stack (some s) lines))
        → Has l (held current) ⊎ Has l (line ∷ lines)
        → InSection l (elim o [
          | some m ↦ flush_section current (
              collect
                (set_level m.0 m.1 stack)
                (some (open_section line m.0 m.1 (set_level m.0 m.1 stack)))
                lines)
          | none ↦
              collect stack
                (some (record (or_preamble current) {
                  lines = (or_preamble current).lines ++ line ∷ [];
                }))
                lines
        ])
    by_match (some m) e ih (inl k) = InSection-held l current _ k
    by_match (some m) e ih (inr (inl same)) =
        let s = open_section line m.0 m.1 (set_level m.0 m.1 stack) in
        InSection-later l current _ (
          ih (set_level m.0 m.1 stack) s (
            inl (
              subst (λ x. Has x (section_lines s)) (sym same)
                (opened_line line m (set_level m.0 m.1 stack) e))))
    by_match (some m) e ih (inr (inr k)) =
        InSection-later l current _ (
          ih (set_level m.0 m.1 stack) (open_section line m.0 m.1 (set_level m.0 m.1 stack))
            (inr k))
    by_match none e ih (inl k) = ih stack _ (inl (held-or_preamble l line current (inl k)))
    by_match none e ih (inr (inl same)) =
        ih stack _ (inl (held-or_preamble l line current (inr (sym same))))
    by_match none e ih (inr (inr k)) = ih stack _ (inr k)

any_of :
    (l : Text) (lines : List Text)
    → Has l lines
    → is_blank (trim l) ≡ false
    → any (λ l. not (is_blank (trim l))) lines ≡ true
any_of l [] h e = absurd h
any_of l (x ∷ lines) (inl same) e =
    let k : is_blank (trim x) ≡ false = subst (λ x. is_blank (trim x) ≡ false) same e in
    ground arith
any_of l (x ∷ lines) (inr h) e = let k = any_of l lines h e in ground arith

text-is_kept :
    (l : Text) (s : Section)
    → Has l (section_lines s)
    → is_blank (trim l) ≡ false
    → is_kept s ≡ true
unfolding is_kept section_lines
text-is_kept l s h e = by_heading (is_blank s.heading) h
  where
    by_heading :
        (b : Bool)
        → Has l (if b then s.lines else s.heading ∷ s.lines)
        → (not b || any (λ l. not (is_blank (trim l))) s.lines) ≡ true
    by_heading true h = any_of l s.lines h e
    by_heading false h = refl

Has-keep :
    (s : Section) (sections : List Section)
    → Has s sections
    → is_kept s ≡ true
    → Has s (keep is_kept sections)
Has-keep s [] h e = absurd h
Has-keep s (x ∷ sections) h e = by_kept (is_kept x) refl (λ k. Has-keep s sections k e) h
  where
    by_kept :
        (b : Bool)
        → is_kept x ≡ b
        → (Has s sections → Has s (keep is_kept sections))
        → Has s (x ∷ sections)
        → Has s (elim b [ true ↦ x ∷ keep is_kept sections | false ↦ keep is_kept sections ])
    by_kept true k ih (inl same) = inl same
    by_kept true k ih (inr h) = inr (ih h)
    by_kept false k ih (inl same) =
        let q : is_kept x ≡ true = subst (λ x. is_kept x ≡ true) same e in cc
    by_kept false k ih (inr h) = ih h

-- Every line with text that is handed over stands in one of the sections.
parse-InSection :
    (l : Text) (lines : List Text)
    → Has l lines
    → is_blank (trim l) ≡ false
    → InSection l (parse_into_sections lines)
unfolding parse_into_sections
parse-InSection l lines h e =
    let (s, m, k) = collect-InSection l ([] ∷ [] ∷ [] ∷ [] ∷ [] ∷ [] ∷ []) none lines (inr h) in
    (
      s,
      Has-keep s (collect ([] ∷ [] ∷ [] ∷ [] ∷ [] ∷ [] ∷ []) none lines) m (text-is_kept l s k e),
      k,
    )

Has-keep_lines :
    (p : Text → Bool) (l : Text) (lines : List Text)
    → Has l lines
    → p l ≡ true
    → Has l (keep p lines)
Has-keep_lines p l [] h e = absurd h
Has-keep_lines p l (x ∷ lines) h e = by_test (p x) refl (λ k. Has-keep_lines p l lines k e) h
  where
    by_test :
        (b : Bool)
        → p x ≡ b
        → (Has l lines → Has l (keep p lines))
        → Has l (x ∷ lines)
        → Has l (elim b [ true ↦ x ∷ keep p lines | false ↦ keep p lines ])
    by_test true k ih (inl same) = inl same
    by_test true k ih (inr h) = inr (ih h)
    by_test false k ih (inl same) = let q : p x ≡ true = subst (λ x. p x ≡ true) same e in cc
    by_test false k ih (inr h) = ih h

Has-content_lines :
    (l text : Text) (filter_toc : Bool)
    → Has l (split 10 text)
    → is_noise (trim l) ≡ false
    → (filter_toc && is_toc_line l) ≡ false
    → Has l (content_lines text filter_toc)
unfolding content_lines
Has-content_lines l text false h plain e =
    Has-keep_lines (λ l. not (is_noise (trim l))) l (split 10 text) h (ground arith)
Has-content_lines l text true h plain e =
    Has-keep_lines (λ l. not (is_toc_line l)) l
      (keep (λ l. not (is_noise (trim l))) (split 10 text))
      (Has-keep_lines (λ l. not (is_noise (trim l))) l (split 10 text) h (ground arith))
      (ground arith)

-- Every line of a document that has any text, is no noise (a rule of three or more `-`, `*` or `_`, or a comment), and
-- is no line of a table of contents where these are filtered out, stands in one of the sections that the semantic mode cuts
-- into chunks, as its heading or among its lines.
pub document-InSection :
    (l text : Text) (filter_toc : Bool)
    → Has l (split 10 text)
    → is_blank (trim l) ≡ false
    → is_noise (trim l) ≡ false
    → (filter_toc && is_toc_line l) ≡ false
    → InSection l (parse_into_sections (content_lines text filter_toc))
document-InSection l text filter_toc h e plain no_toc =
    parse-InSection l (content_lines text filter_toc)
      (Has-content_lines l text filter_toc h plain no_toc) e
