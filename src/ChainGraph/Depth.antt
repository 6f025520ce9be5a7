-- ===== src/ChainGraph/Depth.antt =====
-- The memoised depth of host/src/routes/chain-utils.ts: it is the length of the longest walk, it
-- is found where all walks end, and it has no value at a node of a cycle.
use Prim.Native.Nat.{max}
use mathlib.Core.WellFounded.{Acc}
use ontheia.Prelude.{
  ℕ, zero, suc, ◌+◌, ◌≤◌, ◌≡◌, ◌≢◌, refl, sym, subst, inl, inr, ◌⊎◌, Option, none, some, List, [],
  ◌∷◌, Text, text_eq_sound, Has, arith, ◌∙◌, ap,
}
use ontheia.ChainGraph.Search.{Cache, store, ◌>>=◌, depth_all, depth_new, depth, max_depth}
use ontheia.ChainGraph.Walks.{Next, Ends}

>>=-eq-some :
    {A B : Type 0} (o : Option A) (f : A → Option B) {b : B}
    → (o >>= f) ≡ some b
    → (a : A) × (o ≡ some a) × (f a ≡ some b)
>>=-eq-some none f h = cc
>>=-eq-some (some a) f h = (a, refl, h)

store-cases :
    (cache : Cache) (n : Text) (d : ℕ) (k : Text)
    → ((n ≡ k) × (store cache n d k ≡ some d)) ⊎ (store cache n d k ≡ cache k)
unfolding store
store-cases cache n d k = ground (arith, text_eq_sound n k)

module _ (adjacency : Text → List Text) where
  -- A walk of `k` edges from a node.
  abbrev pub Steps : Text → ℕ → Type 0
  Steps a zero = Unit
  Steps a (suc k) = (b : Text) × Next adjacency a b × Steps b k

  -- `d` counts the nodes of the longest walk from `a`.
  pub record IsDepth (a : Text) (d : ℕ) : Type 0 where
    pub edges : ℕ
    pub counted : d ≡ suc edges
    pub longest : Steps a edges
    pub bounded : (j : ℕ) → Steps a j → j ≤ edges

  Ends-of_bound : (k : ℕ) (a : Text) → ((j : ℕ) → Steps a j → j ≤ k) → Ends adjacency a
  Ends-of_bound zero a bound =
      Acc.intro a (λ b e. absurd (let le : 1 ≤ 0 = bound 1 (b, e, tt) in omega arith))
  Ends-of_bound (suc k) a bound = Acc.intro a (λ b e.
      Ends-of_bound k b (λ j s. let le : suc j ≤ suc k = bound (suc j) (b, e, s) in omega arith))

  pub IsDepth-Ends : {a : Text} {d : ℕ} → IsDepth a d → Ends adjacency a
  IsDepth-Ends {a} i = Ends-of_bound i.edges a i.bounded

  abbrev Remembers : Cache → Type 0
  Remembers cache = (k : Text) (d : ℕ) → cache k ≡ some d → IsDepth k d

  store-Remembers :
      (cache : Cache) (n : Text) (d : ℕ)
      → IsDepth n d
      → Remembers cache
      → Remembers (store cache n d)
  store-Remembers cache n d i ok k e h = elim (store-cases cache n d k) [
    | inl both ↦
        subst (λ j. IsDepth j e) both.0
          (let same : d ≡ e = ground arith in subst (IsDepth n) same i)
    | inr same ↦ ok k e (sym same ∙ h)
  ]

  abbrev Finds : (Text → Cache → Option (ℕ × Cache)) → Type 0
  Finds go =
      (n : Text) (cache : Cache) (d : ℕ) (cache' : Cache)
      → Remembers cache
      → go n cache ≡ some (d, cache')
      → Remembers cache' × IsDepth n d

  -- The largest of the depths of some nodes, and of a number given beforehand.
  pub record IsMost (nodes : List Text) (before : ℕ) (m : ℕ) : Type 0 where
    pub above : before ≤ m
    pub each : (b : Text) → Has b nodes → (d : ℕ) × IsDepth b d × (d ≤ m)
    pub reached : (m ≡ before) ⊎ ((b : Text) × Has b nodes × IsDepth b m)

  depth_all-Finds :
      (go : Text → Cache → Option (ℕ × Cache)) (nodes : List Text) (most : ℕ) (cache : Cache)
      (m : ℕ) (cache' : Cache)
      → Finds go
      → Remembers cache
      → depth_all go nodes most cache ≡ some (m, cache')
      → Remembers cache' × IsMost nodes most m
  unfolding depth_all
  depth_all-Finds go [] most cache m cache' finds ok e =
      let same : most ≡ m = ground arith in
      let kept : cache ≡ cache' = ground arith in
      (
        subst Remembers kept ok,
        record { above = omega arith; each = λ b h. absurd h; reached = inl (sym same) },
      )
  depth_all-Finds go (n ∷ nodes) most cache m cache' finds ok e =
      let (r, called, rest) =
        >>=-eq-some (go n cache) (λ r. depth_all go nodes (max most r.0) r.1) e in
      let (ok₁, i) = finds n cache r.0 r.1 ok called in
      let (ok₂, most') = depth_all-Finds go nodes (max most r.0) r.1 m cache' finds ok₁ rest in
      (ok₂, widen r.0 i most')
    where
      widen : (d : ℕ) → IsDepth n d → IsMost nodes (max most d) m → IsMost (n ∷ nodes) most m
      widen d i w = record {
        above = omega (arith, w.above);
        each = λ b h. elim h [
          | inl same ↦ (d, subst (λ a. IsDepth a d) (sym same) i, omega (arith, w.above))
          | inr later ↦ w.each b later
        ];
        reached = elim w.reached [
          | inl e ↦ at_most (le_or most d) e
          | inr (b, h, j) ↦ inr (b, inr h, j)
        ];
      }
        where
          le_or : (x y : ℕ) → (max x y ≡ x) ⊎ (max x y ≡ y)
          le_or x y = grind arith

          at_most :
              (max most d ≡ most) ⊎ (max most d ≡ d)
              → m ≡ max most d
              → (m ≡ most) ⊎ ((b : Text) × Has b (n ∷ nodes) × IsDepth b m)
          at_most (inl p) q = inl (q ∙ p)
          at_most (inr p) q = inr (n, inl refl, subst (IsDepth n) (sym (q ∙ p)) i)

  IsDepth-leaf : (node : Text) → adjacency node ≡ [] → IsDepth node 1
  IsDepth-leaf node none_next = record {
    edges = 0;
    counted = refl;
    longest = tt;
    bounded = bounded;
  }
    where
      bounded : (j : ℕ) → Steps node j → j ≤ 0
      bounded zero s = omega arith
      bounded (suc j) (b, e, s) = absurd (subst (Has b) none_next e)

  IsDepth-inner :
      (node : Text) (nexts : List Text) (m : ℕ)
      → adjacency node ≡ nexts
      → nexts ≢ []
      → IsMost nexts 0 m
      → IsDepth node (1 + m)
  IsDepth-inner node nexts m all some_next w = record {
    edges = m;
    counted = omega arith;
    longest = from_reached w.reached;
    bounded = bounded;
  }
    where
      inside : (b : Text) → Next adjacency node b → Has b nexts
      inside b e = subst (Has b) all e

      from_reached : (m ≡ 0) ⊎ ((b : Text) × Has b nexts × IsDepth b m) → Steps node m
      from_reached (inl empty) = by_nexts nexts refl
        where
          by_nexts : (l : List Text) → nexts ≡ l → Steps node m
          by_nexts [] q = absurd (some_next q)
          by_nexts (b ∷ l) q =
              let (d, i, le) = w.each b (subst (Has b) (sym q) (inl refl)) in
              absurd (omega (arith, i.counted, empty, le))
      from_reached (inr (b, h, i)) =
          subst (Steps node) (sym i.counted) (b, subst (Has b) (sym all) h, i.longest)

      bounded : (j : ℕ) → Steps node j → j ≤ m
      bounded zero s = omega arith
      bounded (suc j) (b, e, s) =
          let (d, i, le) = w.each b (inside b e) in omega (arith, i.bounded j s, i.counted, le)

  depth_new-Finds :
      (go : Text → Cache → Option (ℕ × Cache)) (node : Text) (nexts : List Text) (cache : Cache)
      (d : ℕ) (cache' : Cache)
      → Finds go
      → adjacency node ≡ nexts
      → Remembers cache
      → depth_new adjacency go node nexts cache ≡ some (d, cache')
      → Remembers cache' × IsDepth node d
  unfolding depth_new
  depth_new-Finds go node [] cache d cache' finds all ok e =
      let i = IsDepth-leaf node all in
      let same : 1 ≡ d = ground arith in
      let kept : store cache node 1 ≡ cache' = ground arith in
      (subst Remembers kept (store-Remembers cache node 1 i ok), subst (IsDepth node) same i)
  depth_new-Finds go node (n ∷ nexts) cache d cache' finds all ok e =
      let (r, called, rest) =
        >>=-eq-some (depth_all go (n ∷ nexts) 0 cache)
          (λ r. some (1 + r.0, store r.1 node (1 + r.0))) e in
      let (ok₁, w) = depth_all-Finds go (n ∷ nexts) 0 cache r.0 r.1 finds ok called in
      let i = IsDepth-inner node (n ∷ nexts) r.0 all (λ q. cc) w in
      let same : 1 + r.0 ≡ d = ground arith in
      let kept : store r.1 node (1 + r.0) ≡ cache' = ground arith in
      (subst Remembers kept (store-Remembers r.1 node (1 + r.0) i ok₁), subst (IsDepth node) same i)

  depth-Finds : (fuel : ℕ) → Finds (depth adjacency fuel)
  unfolding depth
  depth-Finds zero n cache d cache' ok e = absurd (ground arith)
  depth-Finds (suc fuel) n cache d cache' ok e = by_cache (depth-Finds fuel) (cache n) refl
    where
      by_cache :
          Finds (depth adjacency fuel)
          → (o : Option ℕ) → cache n ≡ o
          → Remembers cache' × IsDepth n d
      by_cache finds none u =
          depth_new-Finds (depth adjacency fuel) n (adjacency n) cache d cache' finds refl ok
            (rw (u, depth) at e)
      by_cache finds (some k) u =
          let same : k ≡ d = ground arith in
          let kept : cache ≡ cache' = ground arith in
          (subst Remembers kept ok, ok n d (u ∙ ap some same))

  -- What `maxDepth` reports is the number of nodes of a longest walk from any of the nodes, or 0
  -- without nodes.
  pub max_depth-IsMost :
      (fuel : ℕ) (n : Text) (nodes : List Text) (m : ℕ)
      → max_depth adjacency fuel (n ∷ nodes) ≡ some m
      → IsMost (n ∷ nodes) 1 m
  unfolding max_depth
  max_depth-IsMost fuel n nodes m e =
      let (r, called, rest) =
        >>=-eq-some (depth_all (depth adjacency fuel) (n ∷ nodes) 1 (λ _. none)) (λ r. some r.0)
          e in
      let (_, w) =
        depth_all-Finds (depth adjacency fuel) (n ∷ nodes) 1 (λ _. none) r.0 r.1 (depth-Finds fuel)
          (λ k d h. cc) called in
      let same : r.0 ≡ m = ground arith in subst (IsMost (n ∷ nodes) 1) same w
