-- ===== src/Chunker/Lines.antt =====
-- host/src/runtime/ingest/chunker.ts: what is asked of single lines.
use ontheia.Prelude.{
  ℕ, suc, ◌+◌, ◌==◌, leb, Bool, true, false, not, ◌&&◌, ◌||◌, List, [], ◌∷◌, ◌++◌, if◌then◌else◌,
  Text, codes, is_space, starts_with, ends_with, trim, drop, any,
}
use mathlib.Core.List.{reverse}

abbrev pub is_blank : Text → Bool
is_blank [] = true
is_blank (_ ∷ _) = false

-- The number of runs of characters that are no white space; `inside` says that one has begun.
unfoldable pub count_words : Bool → Text → ℕ
unfolding is_space
count_words inside [] = 0
count_words inside (c ∷ s) =
    let outside = count_words false s in
    let within = count_words true s in
    if is_space c then outside else if inside then within else suc within

-- `wordCount`: the trimmed line is split at white space.
unfoldable pub word_count : Text → ℕ
unfolding count_words
word_count line = count_words false line

unfoldable pub total_words : List Text → ℕ
unfolding word_count
total_words [] = 0
total_words (l ∷ lines) = word_count l + total_words lines

-- `lines.join(separator)`
unfoldable pub join : Text → List Text → Text
join separator [] = []
join separator (l ∷ []) = l
join separator (l ∷ m ∷ lines) = l ++ (separator ++ join separator (m ∷ lines))

abbrev pub is_digit : ℕ → Bool
is_digit c = leb b'0' c && leb c b'9'

abbrev pub is_line_end : ℕ → Bool
is_line_end c = c == 10 || (c == 13 || (c == 0x2028 || c == 0x2029))

-- The line from its end: the digits of the page number, then the dots among the dots and spaces before it.
unfoldable pub leader_dots : Text → ℕ
unfolding is_space
leader_dots [] = 0
leader_dots (c ∷ s) =
    let rest = leader_dots s in if c == b'.' then suc rest else if is_space c then rest else 0

unfoldable pub dots_before_number : Text → ℕ
unfolding leader_dots
dots_before_number [] = 0
dots_before_number (c ∷ s) = if is_digit c then dots_before_number s else leader_dots (c ∷ s)

abbrev pub begins_digit : Text → Bool
begins_digit [] = false
begins_digit (c ∷ s) = is_digit c

-- `isToCLine`
unfoldable pub is_toc_line : Text → Bool
unfolding trim dots_before_number
is_toc_line line =
    let reversed = reverse (trim line) in
    begins_digit reversed && leb 3 (dots_before_number reversed)

unfoldable pub all_are : ℕ → Text → Bool
all_are c [] = true
all_are c (d ∷ s) = d == c && all_are c s

-- Three or more times the same character.
unfoldable pub is_rule : ℕ → Text → Bool
unfolding all_are
is_rule c (x ∷ y ∷ z ∷ s) = all_are c (x ∷ y ∷ z ∷ s)
is_rule c _ = false

-- The two patterns of layout noise, on a trimmed line.
unfoldable pub is_noise : Text → Bool
unfolding is_rule starts_with ends_with
is_noise t =
    (is_rule b'-' t || (is_rule b'*' t || is_rule b'_' t))
    || (starts_with (codes "<!--") t
        && (ends_with (codes "-->") (drop 4 t) && not (any is_line_end t)))
