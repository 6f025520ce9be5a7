-- ===== src/Namespace/Distance.antt =====
-- host/src/memory/namespaces.ts: the table of `editDistance` holds the least numbers of edits.
use Prim.Native.Nat.{min}
use ontheia.Prelude.{
  ℕ, suc, ◌+◌, ◌≤◌, ◌≡◌, refl, sym, ap, ◌∙◌, subst, ◌==◌, List, [], ◌∷◌, inl, inr, leb, Bool-cases,
  if◌then◌else◌, Text, length, arith,
}
use mathlib.Core.List.{reverse, reverse_aux, reverse-reverse}
use ontheia.Namespace.Patterns.{next_row, step_row, rows, count_from, last_or, edit_distance}

-- The second text arises from the first by this many replacements, insertions and deletions of characters.
pub data Edits : Text → Text → ℕ → Type 0 where
  done : Edits [] [] 0
  same : {a b : Text} {n : ℕ} (c : ℕ) → Edits a b n → Edits (c ∷ a) (c ∷ b) n
  replace : {a b : Text} {n : ℕ} (c d : ℕ) → Edits a b n → Edits (c ∷ a) (d ∷ b) (suc n)
  insert : {a b : Text} {n : ℕ} (d : ℕ) → Edits a b n → Edits a (d ∷ b) (suc n)
  delete : {a b : Text} {n : ℕ} (c : ℕ) → Edits a b n → Edits (c ∷ a) b (suc n)

-- The recursive distance.
distance : Text → Text → ℕ
distance [] b = length b
distance (c ∷ a) [] = suc (length a)
distance (c ∷ a) (d ∷ b) =
    min (distance a (d ∷ b) + 1)
      (min (distance (c ∷ a) b + 1) (distance a b + (if c == d then 0 else 1)))

distance-insert : (a b : Text) (d : ℕ) → distance a (d ∷ b) ≤ suc (distance a b)
unfolding distance
distance-insert [] b d = omega arith
distance-insert (c ∷ a) b d = omega arith

distance-delete : (a b : Text) (c : ℕ) → distance (c ∷ a) b ≤ suc (distance a b)
unfolding distance
distance-delete [] [] c = omega arith
distance-delete (d ∷ a) [] c = omega arith
distance-delete a (d ∷ b) c = omega arith

distance-le : {a b : Text} {n : ℕ} → Edits a b n → distance a b ≤ n
unfolding distance
distance-le done = omega arith
distance-le (same c e) = ground (arith, distance-le e)
distance-le (replace c d e) = ground (arith, distance-le e)
distance-le {a} (insert {b} d e) = omega (arith, distance-le e, distance-insert a b d)
distance-le {b} (delete {a} c e) = omega (arith, distance-le e, distance-delete a b c)

distance-nil : (a : Text) → distance a [] ≡ length a
unfolding distance
distance-nil [] = refl
distance-nil (c ∷ a) = refl

recount : {a b : Text} {m n : ℕ} → m ≡ n → Edits a b m → Edits a b n
recount {a} {b} e f = subst (λ k. Edits a b k) e f

min_either : {a b : Text} (x y : ℕ) → Edits a b x → Edits a b y → Edits a b (min x y)
min_either x y f g = elim (Bool-cases (leb x y)) [
  | inl e ↦ recount (ground arith) f
  | inr e ↦ recount (ground arith) g
]

Edits-front :
    {a b : Text} (n c d : ℕ) → Edits a b n → Edits (c ∷ a) (d ∷ b) (n + (if c == d then 0 else 1))
Edits-front {a} {b} n c d f = elim (Bool-cases (c == d)) [
  | inl e ↦
      let same_code : c ≡ d = ground arith in
      subst (λ d. Edits (c ∷ a) (d ∷ b) (n + (if c == d then 0 else 1))) same_code
        (recount (ground arith) (same c f))
  | inr e ↦ recount (ground arith) (replace c d f)
]

Edits-distance : (a b : Text) → Edits a b (distance a b)
unfolding distance
Edits-distance [] [] = done
Edits-distance [] (d ∷ b) = insert d (Edits-distance [] b)
Edits-distance (c ∷ a) [] = recount (ap suc (distance-nil a)) (delete c (Edits-distance a []))
Edits-distance (c ∷ a) (d ∷ b) =
    min_either (distance a (d ∷ b) + 1) _
      (recount (omega arith) (delete c (Edits-distance a (d ∷ b))))
      (min_either (distance (c ∷ a) b + 1) _
        (recount (omega arith) (insert d (Edits-distance (c ∷ a) b)))
        (Edits-front (distance a b) c d (Edits-distance a b)))

Edits-reverse_aux :
    {a b p q : Text} {m n : ℕ}
    → Edits a b m
    → Edits p q n
    → Edits (reverse_aux a p) (reverse_aux b q) (m + n)
Edits-reverse_aux done f = recount (omega arith) f
Edits-reverse_aux (same c e) f = Edits-reverse_aux e (same c f)
Edits-reverse_aux (replace c d e) f = recount (omega arith) (Edits-reverse_aux e (replace c d f))
Edits-reverse_aux (insert d e) f = recount (omega arith) (Edits-reverse_aux e (insert d f))
Edits-reverse_aux (delete c e) f = recount (omega arith) (Edits-reverse_aux e (delete c f))

Edits-reverse : {a b : Text} {n : ℕ} → Edits a b n → Edits (reverse a) (reverse b) n
Edits-reverse e = recount (omega arith) (Edits-reverse_aux e done)

-- The part of a row behind the prefix `q` of the second text; prefixes stand last character first.
row_behind : Text → Text → Text → List ℕ
row_behind p q [] = []
row_behind p q (d ∷ b) = distance p (d ∷ q) ∷ row_behind p (d ∷ q) b

next_row-row_behind :
    (c : ℕ) (p q b : Text)
    → next_row c (distance (c ∷ p) q) (distance p q) b (row_behind p q b) ≡ row_behind (c ∷ p) q b
unfolding next_row row_behind distance
next_row-row_behind c p q [] = refl
next_row-row_behind c p q (d ∷ b) =
    ap (λ r. distance (c ∷ p) (d ∷ q) ∷ r) (next_row-row_behind c p (d ∷ q) b)

last_or-row_behind :
    (p q b : Text) → last_or (distance p q) (row_behind p q b) ≡ distance p (reverse_aux b q)
unfolding row_behind
last_or-row_behind p q [] = refl
last_or-row_behind p q (d ∷ b) = last_or-row_behind p (d ∷ q) b

-- The row of the prefix `p` of the first text.
row_of : Text → Text → List ℕ
row_of p b = distance p [] ∷ row_behind p [] b

step_row-row_of :
    (c : ℕ) (p b : Text) → step_row (suc (length p)) c b (row_of p b) ≡ row_of (c ∷ p) b
unfolding row_of distance
step_row-row_of c p b = ap (λ r. suc (length p) ∷ r) (next_row-row_behind c p [] b)

rows-row_of :
    (a p b : Text) (i : ℕ)
    → i ≡ suc (length p)
    → rows i a b (row_of p b) ≡ row_of (reverse_aux a p) b
unfolding rows
rows-row_of [] p b i e = refl
rows-row_of (c ∷ a) p b i e =
    ap (rows (i + 1) a b) (ap (λ i. step_row i c b (row_of p b)) e ∙ step_row-row_of c p b)
    ∙ rows-row_of a (c ∷ p) b (i + 1) (omega (arith, e))

count_from-row_behind :
    (q b : Text) → count_from (length q) (length b) ≡ length q ∷ row_behind [] q b
unfolding count_from row_behind distance
count_from-row_behind q [] = refl
count_from-row_behind q (d ∷ b) =
    ap (λ r. length q ∷ r)
      (ap (λ i. count_from i (length b)) (add_one (length q)) ∙ count_from-row_behind (d ∷ q) b)
  where
    add_one : (n : ℕ) → n + 1 ≡ suc n
    add_one n = omega arith

edit_distance-distance : (a b : Text) → edit_distance a b ≡ distance (reverse a) (reverse b)
unfolding edit_distance row_of distance
edit_distance-distance a b =
    ap (λ r. last_or 0 (rows 1 a b r)) (count_from-row_behind [] b)
    ∙ (ap (last_or 0) (rows-row_of a [] b 1 refl) ∙ last_or-row_behind (reverse a) [] b)

-- The table gives the least number of replacements, insertions and deletions that make the second text
-- of the first: that many suffice, and no fewer do.
pub edit_distance-IsLeast :
    (a b : Text) → Edits a b (edit_distance a b) × ((n : ℕ) → Edits a b n → edit_distance a b ≤ n)
edit_distance-IsLeast a b =
    let e = edit_distance-distance a b in
    let back : Edits (reverse (reverse a)) (reverse (reverse b))
        (distance (reverse a) (reverse b)) =
      Edits-reverse (Edits-distance (reverse a) (reverse b)) in
    (
      recount (sym e) (
          subst (λ x. Edits x b (distance (reverse a) (reverse b))) (reverse-reverse a)
            (subst (λ y. Edits (reverse (reverse a)) y (distance (reverse a) (reverse b)))
              (reverse-reverse b) back)),
      λ n f. omega (arith, e, distance-le (Edits-reverse f)),
    )
