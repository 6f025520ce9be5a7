-- ===== src/Chunker/Windows.antt =====
-- host/src/runtime/ingest/chunker.ts: the groups of lines that the windows make lose no line and stay
-- within a number of words.
use ontheia.Prelude.{
  ℕ, ◌+◌, ◌≡◌, refl, subst, ◌⊎◌, inl, inr, ltb, Bool, true, false, not, ◌&&◌, List, [], ◌∷◌, ◌++◌,
  if◌then◌else◌, Text, Has, arith,
}
use mathlib.Core.List.{reverse}
use ontheia.Chunker.{overlap, windows, is_empty}
use ontheia.Chunker.Lines.{word_count, total_words}

pub Has-left : (l : Text) (xs ys : List Text) → Has l xs → Has l (xs ++ ys)
Has-left l [] ys h = absurd h
Has-left l (x ∷ xs) ys (inl e) = inl e
Has-left l (x ∷ xs) ys (inr h) = inr (Has-left l xs ys h)

pub Has-last : (l : Text) (xs : List Text) → Has l (xs ++ l ∷ [])
Has-last l [] = inl refl
Has-last l (x ∷ xs) = inr (Has-last l xs)

pub total_words-append :
    (xs ys : List Text) → total_words (xs ++ ys) ≡ total_words xs + total_words ys
unfolding total_words
total_words-append [] ys = omega arith
total_words-append (x ∷ xs) ys = omega (arith, total_words-append xs ys)

-- A line in one of the groups.
abbrev pub InSome : Text → List (List Text) → Type 0
InSome l groups = (g : List Text) × Has g groups × Has l g

InSome-later :
    (l : Text) (g : List Text) (groups : List (List Text)) → InSome l groups → InSome l (g ∷ groups)
InSome-later l g groups (h, m, k) = (h, inr m, k)

-- Every line, of those given and of those at hand, stands in one of the groups.
pub windows-InSome :
    (max_words overlap_words : ℕ) (current : List Text) (words : ℕ) (lines : List Text) (l : Text)
    → Has l current ⊎ Has l lines
    → InSome l (windows max_words overlap_words current words lines)
unfolding windows
windows-InSome max_words overlap_words current words [] l (inl h) = (current, inl refl, h)
windows-InSome max_words overlap_words current words [] l (inr h) = absurd h
windows-InSome max_words overlap_words current words (line ∷ lines) l h =
    by_split (ltb max_words (words + word_count line) && not (is_empty current))
      (λ k.
        windows-InSome max_words overlap_words
          (overlap overlap_words 0 (reverse current) [] ++ line ∷ [])
          (total_words (overlap overlap_words 0 (reverse current) []) + word_count line) lines l k)
      (λ k.
        windows-InSome max_words overlap_words (current ++ line ∷ []) (words + word_count line)
          lines l k)
      h
  where
    by_split :
        (b : Bool)
        → ((Has l (overlap overlap_words 0 (reverse current) [] ++ line ∷ []) ⊎ Has l lines)
            → InSome l (
                windows max_words overlap_words
                  (overlap overlap_words 0 (reverse current) [] ++ line ∷ [])
                  (total_words (overlap overlap_words 0 (reverse current) []) + word_count line)
                  lines))
        → ((Has l (current ++ line ∷ []) ⊎ Has l lines)
            → InSome l (
                windows max_words overlap_words
                  (current ++ line ∷ [])
                  (words + word_count line)
                  lines))
        → Has l current ⊎ Has l (line ∷ lines)
        → InSome l (
            if b
            then current
              ∷ windows max_words overlap_words
                  (overlap overlap_words 0 (reverse current) [] ++ line ∷ [])
                  (total_words (overlap overlap_words 0 (reverse current) []) + word_count line)
                  lines
            else windows max_words overlap_words
                (current ++ line ∷ [])
                (words + word_count line)
                lines)
    by_split true f g (inl k) = (current, inl refl, k)
    by_split true f g (inr (inl e)) =
        let kept = overlap overlap_words 0 (reverse current) [] in
        InSome-later l current _ (f (inl (subst (λ x. Has l (kept ++ x ∷ [])) e (Has-last l kept))))
    by_split true f g (inr (inr k)) = InSome-later l current _ (f (inr k))
    by_split false f g (inl k) = g (inl (Has-left l current (line ∷ []) k))
    by_split false f g (inr (inl e)) =
        g (inl (subst (λ x. Has l (current ++ x ∷ [])) e (Has-last l current)))
    by_split false f g (inr (inr k)) = g (inr k)
