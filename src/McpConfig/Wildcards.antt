-- ===== src/McpConfig/Wildcards.antt =====
-- What an allowlist entry with a `*` at its end admits, in host/src/orchestrator/validator.ts.
use ontheia.Prelude.{
  ℕ, ◌==◌, ◌≡◌, refl, ◌↔◌, ◌∙◌, ap, Bool, true, false, not, ◌&&◌, Option, some, List, [], ◌∷◌, ◌++◌,
  map, Text, codes, split, All, arith, append_assoc,
}
use ontheia.McpConfig.Allowlist.{
  Atom, literal, any_one, any_run, escape_regex, join_any, pattern_of, read_pattern, dot_before,
  is_line_end, match_atoms, matches_entry, is_in, syntax_characters,
}

-- A character with no meaning of its own in a pattern.
abbrev pub is_plain : ℕ → Bool
is_plain c = not (c == b'.') && (not (c == b'*') && not (is_in c syntax_characters))

abbrev pub IsPlain : Text → Type 0
IsPlain s = All (λ c. is_plain c ≡ true) s

-- Text on one line.
abbrev pub IsLine : Text → Type 0
IsLine s = All (λ c. is_line_end c ≡ false) s

escape_regex-plain : (s : Text) → All (λ c. (c == 92) ≡ false) s → escape_regex s ≡ s
unfolding escape_regex
escape_regex-plain [] h = refl
escape_regex-plain (c ∷ []) h = refl
escape_regex-plain (c ∷ d ∷ []) h = refl
escape_regex-plain (c ∷ d ∷ e ∷ s) h = ground (arith, escape_regex-plain (d ∷ e ∷ s) h.1)

split-star :
    (s : Text) → All (λ c. (c == b'*') ≡ false) s → split b'*' (s ++ b'*' ∷ []) ≡ s ∷ [] ∷ []
unfolding split
split-star [] h = refl
split-star (c ∷ s) h = rw (h.0, split-star s h.1) refl

read_pattern-tail :
    (dot : Bool) (q : Text)
    → IsPlain q
    → read_pattern dot (q ++ codes ".*") ≡ some (dot_before dot (map literal q ++ any_run ∷ []))
unfolding read_pattern
read_pattern-tail true [] h = refl
read_pattern-tail false [] h = refl
read_pattern-tail dot (c ∷ q) h = ground (arith, read_pattern-tail false q h.1, h.0)

read_pattern-plain :
    (p s : Text) (atoms : List Atom)
    → IsPlain p
    → read_pattern false s ≡ some atoms
    → read_pattern false (p ++ s) ≡ some (map literal p ++ atoms)
unfolding read_pattern
read_pattern-plain [] s atoms h e = e
read_pattern-plain (c ∷ p) s atoms h e = ground (arith, read_pattern-plain p s atoms h.1 e, h.0)

match_atoms-literals :
    (p s : Text) (atoms : List Atom)
    → match_atoms (map literal p ++ atoms) (p ++ s) ≡ match_atoms atoms s
unfolding match_atoms
match_atoms-literals [] s atoms = refl
match_atoms-literals (c ∷ p) s atoms = ground (arith, match_atoms-literals p s atoms)

match_atoms-run : (r : Text) → IsLine r → match_atoms (any_run ∷ []) r ≡ true
unfolding match_atoms
match_atoms-run [] h = refl
match_atoms-run (c ∷ r) h = ground (arith, match_atoms-run r h.1, h.0)

match_atoms-run_inv : (r : Text) → match_atoms (any_run ∷ []) r ≡ true → IsLine r
unfolding match_atoms
match_atoms-run_inv [] e = tt
match_atoms-run_inv (c ∷ r) e = (ground arith, match_atoms-run_inv r (ground arith))

match_atoms-literals_inv :
    (p value : Text)
    → match_atoms (map literal p ++ any_run ∷ []) value ≡ true
    → (r : Text) × (value ≡ p ++ r) × IsLine r
unfolding match_atoms
match_atoms-literals_inv [] value e = (value, refl, match_atoms-run_inv value e)
match_atoms-literals_inv (c ∷ p) [] e = cc
match_atoms-literals_inv (c ∷ p) (d ∷ value) e =
    let (r, same, line) = match_atoms-literals_inv p value (ground arith) in (r, ground arith, line)

abbrev Simple : Text → Type 0
Simple s = All (λ c. (c == 92) ≡ false) s × All (λ c. (c == b'*') ≡ false) s

plain-Simple : (p : Text) → IsPlain p → Simple p
plain-Simple [] h = (tt, tt)
plain-Simple (c ∷ p) h =
    let (a, b) = plain-Simple p h.1 in ((ground (arith, h.0), a), (ground (arith, h.0), b))

append-Simple : (p q : Text) → Simple p → Simple q → Simple (p ++ q)
append-Simple [] q h k = k
append-Simple (c ∷ p) q h k =
    let (a, b) = append-Simple p q (h.0.1, h.1.1) k in ((h.0.0, a), (h.1.0, b))

-- The pattern of an entry that ends in its only `*`.
pattern_of-star : (s : Text) → Simple s → pattern_of (s ++ b'*' ∷ []) ≡ s ++ codes ".*"
unfolding pattern_of join_any
pattern_of-star s h =
    rw (split-star s h.1) (ap (λ (t : Text). t ++ codes ".*") (escape_regex-plain s h.0))

is_in-star : (s : Text) → is_in b'*' (s ++ b'*' ∷ []) ≡ true
is_in-star [] = refl
is_in-star (c ∷ s) = ground (arith, is_in-star s)

matches_entry-star :
    (regex_other : Text → Text → Option Bool) (s : Text) (atoms : List Atom) (value : Text)
    → Simple s
    → read_pattern false (s ++ codes ".*") ≡ some atoms
    → matches_entry regex_other value (s ++ b'*' ∷ []) ≡ some (match_atoms atoms value)
unfolding matches_entry
matches_entry-star regex_other s atoms value h e = rw (is_in-star s, pattern_of-star s h, e) refl

-- An entry of plain characters and a `*` at the end admits exactly the values that begin with these
-- characters and have no end of line behind them.
pub matches_entry_prefix :
    (regex_other : Text → Text → Option Bool) (p value : Text)
    → IsPlain p
    → (matches_entry regex_other value (p ++ b'*' ∷ []) ≡ some true)
      ↔ ((r : Text) × (value ≡ p ++ r) × IsLine r)
matches_entry_prefix regex_other p value h = (there, back)
  where
    run :
        matches_entry regex_other value (p ++ b'*' ∷ [])
        ≡ some (match_atoms (map literal p ++ any_run ∷ []) value)
    run =
        matches_entry-star regex_other p (map literal p ++ any_run ∷ []) value (plain-Simple p h)
          (read_pattern-tail false p h)

    there :
        matches_entry regex_other value (p ++ b'*' ∷ []) ≡ some true
        → (r : Text) × (value ≡ p ++ r) × IsLine r
    there e = match_atoms-literals_inv p value (ground (arith, run))

    back :
        (r : Text) × (value ≡ p ++ r) × IsLine r
        → matches_entry regex_other value (p ++ b'*' ∷ []) ≡ some true
    back (r, same, line) =
        run
        ∙ ap some (
            ap (match_atoms (map literal p ++ any_run ∷ [])) same
            ∙ (match_atoms-literals p r (any_run ∷ []) ∙ match_atoms-run r line))

-- In an entry with a `*` at the end a dot stands for any character: the entry also admits values
-- that have another character in the dot's place.
pub matches_entry-dot :
    (regex_other : Text → Text → Option Bool) (p q r : Text) (x : ℕ)
    → IsPlain p
    → IsPlain q
    → is_line_end x ≡ false
    → IsLine r
    → matches_entry regex_other (p ++ x ∷ (q ++ r)) ((p ++ b'.' ∷ q) ++ b'*' ∷ []) ≡ some true
matches_entry-dot regex_other p q r x hp hq hx hr =
    matches_entry-star regex_other (p ++ b'.' ∷ q)
      (map literal p ++ any_one ∷ (map literal q ++ any_run ∷ [])) _
      (append-Simple p (b'.' ∷ q) (plain-Simple p hp)
        (append-Simple (b'.' ∷ []) q ((refl, tt), (refl, tt)) (plain-Simple q hq)))
      (rw (append_assoc p (b'.' ∷ q) (codes ".*")) (
        read_pattern-plain p (b'.' ∷ (q ++ codes ".*")) _ hp
          (unfold read_pattern in ground (arith, read_pattern-tail true q hq))))
    ∙ ap some (match_atoms-literals p (x ∷ (q ++ r)) _ ∙ one)
  where
    one : match_atoms (any_one ∷ (map literal q ++ any_run ∷ [])) (x ∷ (q ++ r)) ≡ true
    one =
        unfold match_atoms in
        rw (hx, match_atoms-literals q r (any_run ∷ []), match_atoms-run r hr) refl
