-- ===== src/ChainGraph/DepthReturns.antt =====
-- The memoised depth of host/src/routes/chain-utils.ts returns where all walks end.
use Prim.Native.Nat.{max}
use mathlib.Core.WellFounded.{Acc}
use ontheia.Prelude.{
  ℕ, zero, suc, ◌+◌, ◌≤◌, ◌≡◌, refl, inl, inr, Option, none, some, List, [], ◌∷◌, Text, Has, arith,
}
use ontheia.ChainGraph.Search.{Cache, store, depth_all, depth_new, depth, max_depth}
use ontheia.ChainGraph.Walks.{Ends}

module _ (adjacency : Text → List Text) where
  -- From this much fuel on, the depth of the node is returned, whatever the cache holds.
  abbrev Ready : Text → ℕ → Type 0
  Ready n enough =
      (fuel : ℕ)
      → enough ≤ fuel
      → (cache : Cache) → (r : ℕ × Cache) × (depth adjacency fuel n cache ≡ some r)

  abbrev AllReady : List Text → ℕ → Type 0
  AllReady nodes enough =
      (fuel : ℕ)
      → enough ≤ fuel
      → (most : ℕ) (cache : Cache)
      → (r : ℕ × Cache) × (depth_all (depth adjacency fuel) nodes most cache ≡ some r)

  depth_all_returns :
      (nodes : List Text)
      → ((b : Text) → Has b nodes → (enough : ℕ) × Ready b enough)
      → (enough : ℕ) × AllReady nodes enough
  unfolding depth_all
  depth_all_returns [] ready = (0, λ fuel le most cache. ((most, cache), refl))
  depth_all_returns (n ∷ nodes) ready =
      both (ready n (inl refl)) (depth_all_returns nodes (λ b h. ready b (inr h)))
    where
      both :
          (enough : ℕ) × Ready n enough
          → (enough : ℕ) × AllReady nodes enough
          → (enough : ℕ) × AllReady (n ∷ nodes) enough
      both (k, one) (l, more) = (
        max k l,
        λ fuel le most cache.
            let (r, e) = one fuel (omega arith) cache in
            let (q, e') = more fuel (omega arith) (max most r.0) r.1 in (q, rw e e'),
      )

  depth_new_returns :
      (fuel : ℕ) (node : Text) (nexts : List Text) (cache : Cache)
      → ((most : ℕ) (cache : Cache)
          → (r : ℕ × Cache) × (depth_all (depth adjacency fuel) nexts most cache ≡ some r))
      → (r : ℕ × Cache) × (depth_new adjacency (depth adjacency fuel) node nexts cache ≡ some r)
  unfolding depth_new
  depth_new_returns fuel node [] cache all = (_, refl)
  depth_new_returns fuel node (n ∷ nexts) cache all =
      let (r, e) = all 0 cache in ((1 + r.0, store r.1 node (1 + r.0)), rw e refl)

  depth-Ready :
      (n : Text) → (enough : ℕ) × AllReady (adjacency n) enough → (enough : ℕ) × Ready n enough
  unfolding depth
  depth-Ready n (k, all) = (suc k, ready)
    where
      ready : Ready n (suc k)
      ready zero le cache = absurd (omega arith)
      ready (suc fuel) le cache = by_cache (cache n) refl
        where
          by_cache :
              (o : Option ℕ)
              → cache n ≡ o
              → (r : ℕ × Cache) × (depth adjacency (suc fuel) n cache ≡ some r)
          by_cache none u =
              let (r, e) = depth_new_returns fuel n (adjacency n) cache (all fuel (omega arith)) in
              (r, rw (u, depth) e)
          by_cache (some d) u = ((d, cache), rw (u, depth) refl)

  depth_returns : (n : Text) → Ends adjacency n → (enough : ℕ) × Ready n enough
  depth_returns n (Acc.intro _ below) =
      depth-Ready n (depth_all_returns (adjacency n) (λ b e. depth_returns b (below b e)))

  -- If all walks from the nodes end, `maxDepth` returns, from some fuel on.
  pub max_depth_returns :
      (nodes : List Text)
      → ((n : Text) → Has n nodes → Ends adjacency n)
      → (enough : ℕ) × ((fuel : ℕ)
          → enough ≤ fuel
          → (m : ℕ) × (max_depth adjacency fuel nodes ≡ some m))
  unfolding max_depth
  max_depth_returns [] ends = (0, λ fuel le. (0, refl))
  max_depth_returns (n ∷ nodes) ends =
      let (k, all) = depth_all_returns (n ∷ nodes) (λ b h. depth_returns b (ends b h)) in
      (k, λ fuel le. let (r, e) = all fuel le 1 (λ _. none) in (r.0, rw e refl))
