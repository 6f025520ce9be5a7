-- ===== src/Prelude/Texts.antt =====
-- JavaScript strings as lists of UTF-16 code units, with the string methods that the source calls.
use Prim.Native.Nat.{ℕ, zero, suc, ◌+◌}
use Prim.Native.Char.{code}
use Prim.Native.String.{String}
use mathlib.Core.Path.{◌≡◌, refl}
use mathlib.Core.Bool.{Bool, true, false, ◌&&◌, ◌||◌}
use mathlib.Core.List.{List, [], ◌∷◌, ◌++◌, reverse}
use mathlib.Core.Option
use mathlib.Core.Option.{Option, none, some}
use native.Mathlib.Omega.{arith}
use ontheia.Prelude.Lists.{length}
use ontheia.Prelude.Tests.{◌==◌, leb, if◌then◌else◌}

abbrev pub Text : Type 0
Text = List ℕ

-- A literal of the source; all of them are ASCII where they are compared.
abbrev pub codes : String → Text
codes String.[] = []
codes (String.◌∷◌ c s) = code c ∷ codes s

unfoldable pub text_eq : Text → Text → Bool
text_eq [] [] = true
text_eq (a ∷ s) (b ∷ t) = (a == b) && text_eq s t
text_eq _ _ = false

pub text_eq_sound : (s t : Text) → text_eq s t ≡ true → s ≡ t
unfolding text_eq
text_eq_sound [] [] h = refl
text_eq_sound [] (b ∷ t) h = cc
text_eq_sound (a ∷ s) [] h = cc
text_eq_sound (a ∷ s) (b ∷ t) h = ground (arith, text_eq_sound s t)

pub text_eq_self : (s : Text) → text_eq s s ≡ true
unfolding text_eq
text_eq_self [] = refl
text_eq_self (a ∷ s) = ground (arith, text_eq_self s)

-- The code units that `trim` removes and `\s` matches: ECMAScript white space and line ends.
unfoldable pub is_space : ℕ → Bool
is_space c =
    (leb 9 c && leb c 13)
    || (c == 32)
    || (c == 0xa0)
    || (c == 0x1680)
    || (leb 0x2000 c && leb c 0x200a)
    || (c == 0x2028)
    || (c == 0x2029)
    || (c == 0x202f)
    || (c == 0x205f)
    || (c == 0x3000)
    || (c == 0xfeff)

unfoldable pub trim_start : Text → Text
unfolding is_space
trim_start [] = []
trim_start (c ∷ s) = let rest = trim_start s in if is_space c then rest else c ∷ s

-- `s.trim()`.
unfoldable pub trim : Text → Text
unfolding trim_start
trim s = reverse (trim_start (reverse (trim_start s)))

-- `s.startsWith(p)`, with the prefix first.
unfoldable pub starts_with : Text → Text → Bool
starts_with [] s = true
starts_with (c ∷ p) [] = false
starts_with (c ∷ p) (d ∷ s) = c == d && starts_with p s

-- `s.endsWith(p)`.
unfoldable pub ends_with : Text → Text → Bool
unfolding starts_with
ends_with p s = starts_with (reverse p) (reverse s)

-- `s.includes(p)`.
unfoldable pub includes : Text → Text → Bool
unfolding starts_with
includes p [] = starts_with p []
includes p (c ∷ s) = let later = includes p s in starts_with p (c ∷ s) || later

-- `list.includes(t)`.
unfoldable pub has_text : Text → List Text → Bool
unfolding text_eq
has_text t [] = false
has_text t (u ∷ us) = text_eq t u || has_text t us

-- The part before the first `c`, which is `s.split(c)[0]`, and the part after it.
unfoldable pub before : ℕ → Text → Text
before c [] = []
before c (d ∷ s) = let rest = before c s in if d == c then [] else d ∷ rest

unfoldable pub after : ℕ → Text → Text
after c [] = []
after c (d ∷ s) = if d == c then s else after c s

abbrev pub onto_first : ℕ → List Text → List Text
onto_first c [] = (c ∷ []) ∷ []
onto_first c (part ∷ parts) = (c ∷ part) ∷ parts

-- `s.split(c)`.
unfoldable pub split : ℕ → Text → List Text
split c [] = [] ∷ []
split c (d ∷ s) = let rest = split c s in if d == c then [] ∷ rest else onto_first d rest

pub starts_with-append : (p s : Text) → starts_with p (p ++ s) ≡ true
unfolding starts_with
starts_with-append [] s = refl
starts_with-append (c ∷ p) s = ground (arith, starts_with-append p s)

pub includes-middle : (a p b : Text) → includes p (a ++ (p ++ b)) ≡ true
unfolding includes
includes-middle [] [] [] = refl
includes-middle [] [] (c ∷ b) = refl
includes-middle [] (c ∷ p) b = ground (arith, starts_with-append (c ∷ p) b)
includes-middle (c ∷ a) p b = ground (arith, includes-middle a p b)

-- `s.toLowerCase()`: exact on ASCII; what it makes of the other code units is given by `fold`.
unfoldable pub to_lower : (ℕ → Text) → Text → Text
to_lower fold [] = []
to_lower fold (c ∷ s) =
    let rest = to_lower fold s in
    if leb 65 c && leb c 90 then (c + 32) ∷ rest else if leb c 127 then c ∷ rest else fold c ++ rest

-- The longest run of key characters at the front, which must end at a `}`.
unfoldable pub key_until_brace : (ℕ → Bool) → Text → Option Text
key_until_brace is_key [] = none
key_until_brace is_key (c ∷ s) =
    if is_key c
    then Option.map (λ k. c ∷ k) (key_until_brace is_key s)
    else if c == 125
    then some []
    else none

abbrev pub full_key : Option Text → Option Text
full_key none = none
full_key (some []) = none
full_key (some (c ∷ k)) = some (c ∷ k)

-- The key of a placeholder `${key}` that stands at the front, given the first character and the rest.
unfoldable pub placeholder_key : (ℕ → Bool) → ℕ → Text → Option Text
unfolding key_until_brace
placeholder_key is_key c [] = none
placeholder_key is_key c (d ∷ s) =
    if c == 36 && d == 123 then full_key (key_until_brace is_key s) else none

abbrev pub prepend : Text → Option Text → Option Text
prepend s none = none
prepend s (some t) = some (s ++ t)

-- `s.replace(/\$\{(…+)\}/g, (_, key) => f(key))`, over the characters of a key; `skip` counts those of
-- the last placeholder that are still to pass, and `none` is an exception of `f`.
unfoldable pub replace_placeholders : (ℕ → Bool) → (Text → Option Text) → ℕ → Text → Option Text
unfolding placeholder_key
replace_placeholders is_key f skip [] = some []
replace_placeholders is_key f (suc skip) (c ∷ s) = replace_placeholders is_key f skip s
replace_placeholders is_key f zero (c ∷ s) =
    let copied = replace_placeholders is_key f zero s in
    elim (placeholder_key is_key c s) [
      | none ↦ prepend (c ∷ []) copied
      | some key ↦
          let rest = replace_placeholders is_key f (length key + 2) s in
          elim (f key) [ none ↦ none | some value ↦ prepend value rest ]
    ]
