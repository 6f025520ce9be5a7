-- ===== src/McpConfig/Allowlist.antt =====
-- host/src/orchestrator/validator.ts, `matchesAllowlist` and `escapeRegex`.
-- The patterns that `matchesAllowlist` builds are regular expressions between `^` and `$`. The
-- model has the engine's meaning of plain characters, of `.` and of `.*`; a pattern with any other
-- syntax goes to the parameter `regex_other`, the engine itself, where `none` stands for the
-- `SyntaxError` of `new RegExp`.
use ontheia.Prelude.{
  ℕ, ◌==◌, Bool, true, false, not, ◌&&◌, ◌||◌, Option, none, some, List, [], ◌∷◌, ◌++◌, map,
  if◌then◌else◌, Text, codes, text_eq, split, any,
}

pub data Atom : Type 0 where
  literal : ℕ → Atom
  any_one : Atom
  any_run : Atom

-- The class in the source's pattern `/[.*+?^${}()|[\\]\\]/g`: it ends at the first `]`, so the
-- pattern asks for one of these characters, a backslash and a `]`.
abbrev escape_class : Text
escape_class = codes ".*+?^${}()|[\\"

abbrev pub is_in : ℕ → Text → Bool
is_in c s = any (λ d. c == d) s

abbrev backslash : ℕ
backslash = 92

-- A match at the front is `c`, `\` and `]`; what is replaced gets a backslash before it.
abbrev is_escaped : ℕ → Text → Bool
is_escaped c (d ∷ e ∷ s) = is_in c escape_class && (d == backslash && e == 93)
is_escaped c _ = false

unfoldable pub escape_regex : Text → Text
escape_regex [] = []
escape_regex (c ∷ s) =
    let rest = escape_regex s in if is_escaped c s then backslash ∷ c ∷ rest else c ∷ rest

-- `parts.join('.*')`.
unfoldable pub join_any : List Text → Text
join_any [] = []
join_any (part ∷ []) = part
join_any (part ∷ next ∷ parts) = part ++ (codes ".*" ++ join_any (next ∷ parts))

-- The source of the pattern, between `^` and `$`.
unfoldable pub pattern_of : Text → Text
unfolding join_any escape_regex split
pattern_of entry = join_any (map escape_regex (split b'*' entry))

-- The syntax characters of regular expressions, without `.` and `*`.
abbrev pub syntax_characters : Text
syntax_characters = codes "\\^$+?()[]{}|"

abbrev pub dot_before : Bool → List Atom → List Atom
dot_before true atoms = any_one ∷ atoms
dot_before false atoms = atoms

abbrev pub onto : (List Atom → List Atom) → Option (List Atom) → Option (List Atom)
onto f none = none
onto f (some atoms) = some (f atoms)

-- Reads a pattern; `dot` says that the last character was a `.` that no `*` has followed yet.
unfoldable pub read_pattern : Bool → Text → Option (List Atom)
read_pattern dot [] = some (dot_before dot [])
read_pattern dot (c ∷ s) =
    let after_dot = read_pattern true s in
    let after_other = read_pattern false s in
    if c == b'.'
    then onto (dot_before dot) after_dot
    else if c == b'*'
    then (if dot then onto (λ atoms. any_run ∷ atoms) after_other else none)
    else if is_in c syntax_characters
    then none
    else onto (λ atoms. dot_before dot (literal c ∷ atoms)) after_other

-- `.` stands for any code unit but the ends of lines.
abbrev pub is_line_end : ℕ → Bool
is_line_end c = c == 10 || (c == 13 || (c == 0x2028 || c == 0x2029))

-- The whole value is matched, as between `^` and `$`.
unfoldable pub match_atoms : List Atom → Text → Bool
match_atoms [] [] = true
match_atoms [] (_ ∷ _) = false
match_atoms (literal c ∷ atoms) [] = false
match_atoms (literal c ∷ atoms) (d ∷ s) = c == d && match_atoms atoms s
match_atoms (any_one ∷ atoms) [] = false
match_atoms (any_one ∷ atoms) (d ∷ s) = not (is_line_end d) && match_atoms atoms s
match_atoms (any_run ∷ atoms) [] = match_atoms atoms []
match_atoms (any_run ∷ atoms) (d ∷ s) = elim (match_atoms atoms (d ∷ s)) [
  | true ↦ true
  | false ↦ not (is_line_end d) && match_atoms (any_run ∷ atoms) s
]

module _ (regex_other : Text → Text → Option Bool) where
  unfoldable pub test_pattern : Option (List Atom) → Text → Text → Option Bool
  unfolding match_atoms
  test_pattern (some atoms) pattern value = some (match_atoms atoms value)
  test_pattern none pattern value = regex_other pattern value

  unfoldable pub matches_entry : Text → Text → Option Bool
  unfolding test_pattern read_pattern pattern_of text_eq
  matches_entry value entry =
      if not (is_in b'*' entry)
      then some (text_eq entry value)
      else test_pattern (read_pattern false (pattern_of entry)) (pattern_of entry) value

  -- `allowlist.some(…)`; an exception leaves the loop.
  unfoldable pub matches_allowlist : Text → List Text → Option Bool
  unfolding matches_entry
  matches_allowlist value [] = some false
  matches_allowlist value (entry ∷ allowlist) =
      let rest = matches_allowlist value allowlist in
      elim (matches_entry value entry) [ none ↦ none | some true ↦ some true | some false ↦ rest ]
