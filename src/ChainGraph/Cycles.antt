-- ===== src/ChainGraph/Cycles.antt =====
-- The search for a cycle in host/src/routes/chain-utils.ts: its answer no is right.
use mathlib.Core.WellFounded.{Acc}
use ontheia.Prelude.{
  ℕ, zero, suc, ◌≡◌, sym, subst, inl, inr, ◌⊎◌, Bool, false, Option, some, List, [], ◌∷◌, Text, Has,
  arith, ◌∙◌,
}
use ontheia.ChainGraph.Search.{
  Mark, unseen, visiting, visited, State, mark, visit, dfs, sweep, has_cycle,
}
use ontheia.ChainGraph.Walks.{Next, Ends}
use ontheia.ChainGraph.Rounds.{
  mark-cases, back_edge, skipped, found, searched, visit-Round, known, hit, miss, sweep-Turn,
}

module _ (adjacency : Text → List Text) where
  -- All that is marked as visited is known to end.
  abbrev VisitedEnd : State → Type 0
  VisitedEnd state = (k : Text) → state k ≡ visited → Ends adjacency k

  mark-VisitedEnd :
      (state : State) (n : Text) (m : Mark)
      → (m ≡ visited → Ends adjacency n)
      → VisitedEnd state
      → VisitedEnd (mark state n m)
  mark-VisitedEnd state n m h good k e = elim (mark-cases state n m k) [
    | inl both ↦ subst (Ends adjacency) both.0 (h (sym both.1 ∙ e))
    | inr same ↦ good k (sym same ∙ e)
  ]

  -- What holds of a call of `dfs` that returns false.
  abbrev Sound : (Text → State → Option (Bool × State)) → Type 0
  Sound go =
      (n : Text) (state state' : State)
      → VisitedEnd state
      → go n state ≡ some (false, state')
      → VisitedEnd state' × Ends adjacency n

  visit-Sound :
      (go : Text → State → Option (Bool × State)) (node : Text) (nexts : List Text)
      (state state' : State)
      → Sound go
      → VisitedEnd state
      → ((m : Text) → Next adjacency node m → Ends adjacency m ⊎ Has m nexts)
      → visit adjacency go node nexts state ≡ some (false, state')
      → VisitedEnd state' × Ends adjacency node
  unfolding visit
  visit-Sound go node [] state state' sound good rest e =
      let ends : Ends adjacency node =
        Acc.intro node (λ m h. elim (rest m h) [ inl k ↦ k | inr none_left ↦ absurd none_left ]) in
      let same : mark state node visited ≡ state' = ground arith in
      (subst (VisitedEnd) same (mark-VisitedEnd state node visited (λ _. ends) good), ends)
  visit-Sound go node (x ∷ nexts) state state' sound good rest e =
      elim (visit-Round adjacency go node x nexts state (false, state') e) [
        | back_edge _ q ↦ absurd (ground arith)
        | found s _ _ q ↦ absurd (ground arith)
        | skipped v k ↦ visit-Sound go node nexts state state' sound good (settled (good x v)) k
        | searched s _ c k ↦
            let (good', ends) = sound x state s good c in
            visit-Sound go node nexts s state' sound good' (settled ends) k
      ]
    where
      settled :
          Ends adjacency x → (m : Text) → Next adjacency node m → Ends adjacency m ⊎ Has m nexts
      settled ends m h = elim (rest m h) [
        | inl k ↦ inl k
        | inr (inl same) ↦ inl (subst (Ends adjacency) (sym same) ends)
        | inr (inr later) ↦ inr later
      ]

  dfs-Sound : (fuel : ℕ) → Sound (dfs adjacency fuel)
  unfolding dfs
  dfs-Sound zero n state state' good e = cc
  dfs-Sound (suc fuel) n state state' good e =
      visit-Sound (dfs adjacency fuel) n (adjacency n) (mark state n visiting) state'
        (dfs-Sound fuel) (mark-VisitedEnd state n visiting (λ k. cc) good) (λ m h. inr h) e

  sweep_sound :
      (fuel : ℕ) (nodes : List Text) (state : State)
      → VisitedEnd state
      → sweep adjacency fuel nodes state ≡ some false
      → (n : Text) → Has n nodes
      → Ends adjacency n
  sweep_sound fuel [] state good e n h = absurd h
  sweep_sound fuel (x ∷ nodes) state good e n h =
      elim (sweep-Turn adjacency fuel x nodes state false e) [
        | known v k ↦ here_or (good x v) (sweep_sound fuel nodes state good k n) h
        | hit s c q ↦ absurd (ground arith)
        | miss s c k ↦
            let (good', ends) = dfs-Sound fuel x state s good c in
            here_or ends (sweep_sound fuel nodes s good' k n) h
      ]
    where
      here_or :
          Ends adjacency x
          → (Has n nodes → Ends adjacency n)
          → (n ≡ x) ⊎ Has n nodes
          → Ends adjacency n
      here_or ends later (inl same) = subst (Ends adjacency) (sym same) ends
      here_or ends later (inr m) = later m

  pub has_cycle-false :
      (fuel : ℕ) (nodes : List Text)
      → has_cycle adjacency fuel nodes ≡ some false
      → (n : Text) → Has n nodes
      → Ends adjacency n
  unfolding has_cycle
  has_cycle-false fuel nodes e n h = sweep_sound fuel nodes (λ _. unseen) (λ k. cc) e n h
