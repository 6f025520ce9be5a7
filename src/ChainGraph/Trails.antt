-- ===== src/ChainGraph/Trails.antt =====
-- The search for a cycle in host/src/routes/chain-utils.ts: its answer yes is right.
use ontheia.Prelude.{
  ℕ, zero, suc, ◌≡◌, ◌≢◌, refl, sym, subst, inl, inr, ◌⊎◌, Bool, true, false, Option, some, List,
  [], ◌∷◌, Text, Has, arith, ◌∙◌,
}
use ontheia.ChainGraph.Search.{unseen, visiting, visited, State, mark, visit, dfs, sweep, has_cycle}
use ontheia.ChainGraph.Walks.{Next, Walk, edge, snoc}
use ontheia.ChainGraph.Rounds.{
  mark_self, mark-cases, back_edge, skipped, found, searched, visit-Round, known, hit, miss,
  sweep-Turn,
}

module _ (adjacency : Text → List Text) where
  -- A call that answers no leaves no node newly marked as being visited, its own among them.
  abbrev pub Closes : (Text → State → Option (Bool × State)) → Type 0
  Closes go =
      (n : Text) (state state' : State)
      → go n state ≡ some (false, state')
      → (k : Text) → state' k ≡ visiting
      → (state k ≡ visiting) × (k ≢ n)

  mark-visited-visiting :
      (state : State) (n k : Text)
      → mark state n visited k ≡ visiting
      → (state k ≡ visiting) × (k ≢ n)
  mark-visited-visiting state n k e = (
    elim (mark-cases state n visited k) [
      | inl both ↦ absurd (unequal (sym both.1 ∙ e))
      | inr same ↦ sym same ∙ e
    ],
    λ q.
        unequal
          (sym (mark_self state n visited) ∙ subst (λ j. mark state n visited j ≡ visiting) q e),
  )
    where
      unequal : ¬ (visited ≡ visiting)
      unequal h = cc

  visit-Closes :
      (go : Text → State → Option (Bool × State)) (node : Text) (nexts : List Text)
      (state state' : State)
      → Closes go
      → visit adjacency go node nexts state ≡ some (false, state')
      → (k : Text) → state' k ≡ visiting
      → (state k ≡ visiting) × (k ≢ node)
  unfolding visit
  visit-Closes go node [] state state' closes e k v =
      let same : mark state node visited ≡ state' = ground arith in
      mark-visited-visiting state node k (subst (λ (s : State). s k ≡ visiting) (sym same) v)
  visit-Closes go node (x ∷ nexts) state state' closes e k v =
      elim (visit-Round adjacency go node x nexts state (false, state') e) [
        | back_edge _ q ↦ absurd (ground arith)
        | found s _ _ q ↦ absurd (ground arith)
        | skipped u rest ↦ visit-Closes go node nexts state state' closes rest k v
        | searched s u c rest ↦
            let (before, other) = visit-Closes go node nexts s state' closes rest k v in
            ((closes x state s c k before).0, other)
      ]

  pub dfs-Closes : (fuel : ℕ) → Closes (dfs adjacency fuel)
  unfolding dfs
  dfs-Closes zero n state state' e k v = cc
  dfs-Closes (suc fuel) n state state' e k v =
      let (before, other) =
        visit-Closes (dfs adjacency fuel) n (adjacency n) (mark state n visiting) state'
          (dfs-Closes fuel) e k v in
      (
        elim (mark-cases state n visiting k) [
          | inl both ↦ absurd (other (sym both.0))
          | inr same ↦ sym same ∙ before
        ],
        other,
      )

  -- While `dfs` is called at a node, each node marked as being visited has a walk to it.
  abbrev Trail : Text → State → Type 0
  Trail n state = (k : Text) → state k ≡ visiting → Walk adjacency k n

  abbrev pub Cycle : Type 0
  Cycle = (n : Text) × Walk adjacency n n

  abbrev Correct : (Text → State → Option (Bool × State)) → Type 0
  Correct go =
      (n : Text) (state state' : State) → Trail n state → go n state ≡ some (true, state') → Cycle

  visit_correct :
      (go : Text → State → Option (Bool × State)) (node : Text) (nexts : List Text)
      (state state' : State)
      → Closes go
      → Correct go
      → ((m : Text) → Has m nexts → Next adjacency node m)
      → ((k : Text) → state k ≡ visiting → (k ≡ node) ⊎ Walk adjacency k node)
      → visit adjacency go node nexts state ≡ some (true, state')
      → Cycle
  unfolding visit
  visit_correct go node [] state state' closes correct edges trail e = absurd (ground arith)
  visit_correct go node (x ∷ nexts) state state' closes correct edges trail e =
      elim (visit-Round adjacency go node x nexts state (true, state') e) [
        | back_edge v q ↦ (x, walk_to x v)
        | found s u c q ↦ correct x state s walk_to c
        | skipped u rest ↦
            visit_correct go node nexts state state' closes correct (λ m h. edges m (inr h)) trail
              rest
        | searched s u c rest ↦
            visit_correct go node nexts s state' closes correct (λ m h. edges m (inr h))
              (λ k v. trail k (closes x state s c k v).0) rest
      ]
    where
      walk_to : (k : Text) → state k ≡ visiting → Walk adjacency k x
      walk_to k v = elim (trail k v) [
        | inl same ↦ edge (subst (λ a. Next adjacency a x) (sym same) (edges x (inl refl)))
        | inr w ↦ snoc adjacency w (edges x (inl refl))
      ]

  dfs-Correct : (fuel : ℕ) → Correct (dfs adjacency fuel)
  unfolding dfs
  dfs-Correct zero n state state' trail e = absurd (ground arith)
  dfs-Correct (suc fuel) n state state' trail e =
      visit_correct (dfs adjacency fuel) n (adjacency n) (mark state n visiting) state'
        (dfs-Closes fuel) (dfs-Correct fuel) (λ m h. h)
        (λ k v. elim (mark-cases state n visiting k) [
          | inl both ↦ inl (sym both.0)
          | inr same ↦ inr (trail k (sym same ∙ v))
        ])
        e

  sweep_correct :
      (fuel : ℕ) (nodes : List Text) (state : State)
      → ((k : Text) → state k ≢ visiting)
      → sweep adjacency fuel nodes state ≡ some true
      → Cycle
  unfolding sweep
  sweep_correct fuel [] state idle e = absurd (ground arith)
  sweep_correct fuel (x ∷ nodes) state idle e =
      elim (sweep-Turn adjacency fuel x nodes state true e) [
        | known v k ↦ sweep_correct fuel nodes state idle k
        | hit s c q ↦ dfs-Correct fuel x state s (λ k v. absurd (idle k v)) c
        | miss s c k ↦
            sweep_correct fuel nodes s (λ j v. idle j (dfs-Closes fuel x state s c j v).0) k
      ]

  pub has_cycle-true :
      (fuel : ℕ) (nodes : List Text) → has_cycle adjacency fuel nodes ≡ some true → Cycle
  unfolding has_cycle
  has_cycle-true fuel nodes e = sweep_correct fuel nodes (λ _. unseen) (λ k. cc) e
