-- ===== src/Chunker/Sizes.antt =====
-- host/src/runtime/ingest/chunker.ts: how many words the groups of lines hold that the windows make.
use ontheia.Prelude.{
  ℕ, ◌+◌, ◌*◌, ◌≤◌, ◌≡◌, refl, sym, subst, inl, inr, ltb, false, not, ◌&&◌, List, [], ◌∷◌, ◌++◌,
  if◌then◌else◌, Text, All, Bool-cases, arith,
}
use mathlib.Core.List.{reverse, reverse_aux}
use ontheia.Chunker.{overlap, windows, is_empty}
use ontheia.Chunker.Lines.{word_count, total_words}
use ontheia.Chunker.Windows.{total_words-append}

module _ (max_words overlap_words most b : ℕ) (whole : max_words ≤ b)
    (after_overlap : overlap_words + 2 * most ≤ b) where
  -- No line has more than `most` words.
  abbrev Short : List Text → Type 0
  Short lines = All (λ l. word_count l ≤ most) lines

  Short-append : (xs ys : List Text) → Short xs → Short ys → Short (xs ++ ys)
  Short-append [] ys h k = k
  Short-append (x ∷ xs) ys (p, h) k = (p, Short-append xs ys h k)

  Short-reverse_aux : (xs ys : List Text) → Short xs → Short ys → Short (reverse_aux xs ys)
  Short-reverse_aux [] ys h k = k
  Short-reverse_aux (x ∷ xs) ys (p, h) k = Short-reverse_aux xs (x ∷ ys) h (p, k)

  -- What the overlap takes is short, and has less than `most` words over the number asked for.
  overlap-Short :
      (oc : ℕ) (lines taken : List Text)
      → oc ≡ total_words taken
      → Short lines
      → Short taken
      → total_words taken ≤ overlap_words + most
      → Short (overlap overlap_words oc lines taken)
        × (total_words (overlap overlap_words oc lines taken) ≤ overlap_words + most)
  unfolding overlap total_words
  overlap-Short oc [] taken e h k n = (k, n)
  overlap-Short oc (l ∷ lines) taken e (p, h) k n = elim (Bool-cases (ltb oc overlap_words)) [
    | inl c ↦
        let more : total_words (l ∷ taken) ≤ overlap_words + most = ground arith in
        let r =
          overlap-Short (oc + word_count l) lines (l ∷ taken) (omega (arith, e)) h (p, k) more in
        subst
          (λ b.
            Short (if b then overlap overlap_words (oc + word_count l) lines (l ∷ taken) else taken)
            × (total_words
                  (if b then overlap overlap_words (oc + word_count l) lines (l ∷ taken) else taken)
                ≤ overlap_words + most))
          (sym c) r
    | inr c ↦
        subst
          (λ b.
            Short (if b then overlap overlap_words (oc + word_count l) lines (l ∷ taken) else taken)
            × (total_words
                  (if b then overlap overlap_words (oc + word_count l) lines (l ∷ taken) else taken)
                ≤ overlap_words + most))
          (sym c) (k, n)
  ]

  fits_lem :
      (current : List Text) (words lw : ℕ)
      → words ≡ total_words current
      → lw ≤ most
      → (ltb max_words (words + lw) && not (is_empty current)) ≡ false
      → words + lw ≤ b
  unfolding total_words
  fits_lem [] words lw e p t = omega (arith, e, p, after_overlap)
  fits_lem (l ∷ current) words lw e p t = ground (arith, whole)

  windows-fit :
      (current : List Text) (words : ℕ) (lines : List Text)
      → words ≡ total_words current
      → words ≤ b
      → Short current
      → Short lines
      → All (λ g. total_words g ≤ b) (windows max_words overlap_words current words lines)
  unfolding windows total_words
  windows-fit current words [] e n h k = (omega (arith, e, n), tt)
  windows-fit current words (line ∷ lines) e n h (p, k) =
      let kept = overlap overlap_words 0 (reverse current) [] in
      let (ks, kn) =
        overlap-Short 0 (reverse current) [] refl (Short-reverse_aux current [] h tt) tt
          (omega arith) in
      let lw = word_count line in
      let splits =
        windows-fit (kept ++ line ∷ []) (total_words kept + lw) lines
          (omega (arith, total_words-append kept (line ∷ []))) (omega (arith, kn, p, after_overlap))
          (Short-append kept (line ∷ []) ks (p, tt)) k in
      let goes : words + lw ≤ b
          → All (λ g. total_words g ≤ b)
              (windows max_words overlap_words (current ++ line ∷ []) (words + lw) lines) =
        λ fits.
          windows-fit (current ++ line ∷ []) (words + lw) lines
            (omega (arith, e, total_words-append current (line ∷ []))) fits
            (Short-append current (line ∷ []) h (p, tt)) k in
      let c = ltb max_words (words + lw) && not (is_empty current) in
      elim (Bool-cases c) [
        | inl t ↦
            subst
              (λ c.
                All (λ g. total_words g ≤ b)
                  (if c
                    then current
                      ∷ windows max_words overlap_words (kept ++ line ∷ []) (total_words kept + lw)
                          lines
                    else windows max_words overlap_words (current ++ line ∷ []) (words + lw) lines))
              (sym t) (omega (arith, e, n), splits)
        | inr t ↦
            subst
              (λ c.
                All (λ g. total_words g ≤ b)
                  (if c
                    then current
                      ∷ windows max_words overlap_words (kept ++ line ∷ []) (total_words kept + lw)
                          lines
                    else windows max_words overlap_words (current ++ line ∷ []) (words + lw) lines))
              (sym t) (goes (fits_lem current words lw e p t))
      ]

-- If no line has more than `most` words, then no group of lines has more words than `max_words`, or than
-- the overlap and two such lines if that is more.
pub windows_bounded :
    (max_words overlap_words most b : ℕ)
    → max_words ≤ b
    → overlap_words + 2 * most ≤ b
    → (lines : List Text) → All (λ l. word_count l ≤ most) lines
    → All (λ g. total_words g ≤ b) (windows max_words overlap_words [] 0 lines)
unfolding total_words
windows_bounded max_words overlap_words most b whole after_overlap lines short =
    windows-fit max_words overlap_words most b whole after_overlap [] 0 lines refl (omega arith) tt
      short
