-- ===== src/ChainGraph/Fuel.antt =====
-- The search for a cycle in host/src/routes/chain-utils.ts: it ends, with one call for each node at most.
use ontheia.Prelude.{
  ℕ, zero, suc, ◌≤◌, ◌<◌, ◌≡◌, ◌≢◌, refl, sym, inl, inr, Bool, true, false, Option, some, List, [],
  ◌∷◌, Text, Has, length, arith, ◌∙◌, ap,
}
use ontheia.ChainGraph.Search.{
  Mark, unseen, visiting, visited, State, mark, visit, dfs, sweep, has_cycle,
}
use ontheia.ChainGraph.Walks.{Next}
use ontheia.ChainGraph.Trails.{dfs-Closes}
use ontheia.ChainGraph.Rounds.{mark_self, mark-cases}

-- How many entries of the list are not marked yet.
count_unseen : List Text → State → ℕ
count_unseen [] state = 0
count_unseen (n ∷ nodes) state =
    let rest = count_unseen nodes state in elim (state n) [ unseen ↦ suc rest | _ ↦ rest ]

-- No mark is taken back.
abbrev Keeps : State → State → Type 0
Keeps state state' = (k : Text) → state' k ≡ unseen → state k ≡ unseen

mark-Keeps : (state : State) (n : Text) (m : Mark) → m ≢ unseen → Keeps state (mark state n m)
mark-Keeps state n m marked k e = elim (mark-cases state n m k) [
  | inl both ↦ absurd (marked (sym both.1 ∙ e))
  | inr same ↦ sym same ∙ e
]

count_unseen-le :
    (nodes : List Text) (state state' : State)
    → Keeps state state'
    → count_unseen nodes state' ≤ count_unseen nodes state
unfolding count_unseen
count_unseen-le [] state state' keeps = omega arith
count_unseen-le (n ∷ nodes) state state' keeps =
    ground (arith, count_unseen-le nodes state state' keeps, keeps n)

count_unseen-lt :
    (nodes : List Text) (state state' : State) (n : Text)
    → Keeps state state'
    → Has n nodes
    → state n ≡ unseen
    → state' n ≢ unseen
    → count_unseen nodes state' < count_unseen nodes state
unfolding count_unseen
count_unseen-lt [] state state' n keeps h u m = absurd h
count_unseen-lt (x ∷ nodes) state state' n keeps (inl same) u m =
    ground (arith, count_unseen-le nodes state state' keeps, ap state same, ap state' same)
count_unseen-lt (x ∷ nodes) state state' n keeps (inr h) u m =
    ground (arith, count_unseen-lt nodes state state' n keeps h u m, keeps x)

count_unseen-le-length :
    (nodes : List Text) (state : State) → count_unseen nodes state ≤ length nodes
unfolding count_unseen
count_unseen-le-length [] state = omega arith
count_unseen-le-length (n ∷ nodes) state = ground (arith, count_unseen-le-length nodes state)

module _ (adjacency : Text → List Text) (nodes : List Text)
    (closed : (a b : Text) → Next adjacency a b → Has b nodes) where
  abbrev Returned : Option (Bool × State) → State → Type 0
  Returned o state = (r : Bool × State) × (o ≡ some r) × Keeps state r.1

  abbrev Returns : ℕ → (Text → State → Option (Bool × State)) → Type 0
  Returns fuel go =
      (n : Text) (state : State)
      → Has n nodes
      → state n ≡ unseen
      → count_unseen nodes state ≤ fuel
      → Returned (go n state) state

  visit-Returns :
      (fuel : ℕ) (go : Text → State → Option (Bool × State)) (node : Text) (nexts : List Text)
      (state : State)
      → Returns fuel go
      → ((m : Text) → Has m nexts → Has m nodes)
      → count_unseen nodes state ≤ fuel
      → Returned (visit adjacency go node nexts state) state
  unfolding visit
  visit-Returns fuel go node [] state returns inside few =
      ((false, mark state node visited), refl, mark-Keeps state node visited (λ e. cc))
  visit-Returns fuel go node (x ∷ nexts) state returns inside few =
      by_mark (state x) refl (λ s keeps.
        let le : count_unseen nodes s ≤ fuel = omega (arith, count_unseen-le nodes state s keeps) in
        let (r, e, k) = visit-Returns fuel go node nexts s returns (λ m h. inside m (inr h)) le in
        (r, e, λ j u. keeps j (k j u)))
    where
      Later : Type 0
      Later = (s : State) → Keeps state s → Returned (visit adjacency go node nexts s) state

      by_call :
          Returned (go x state) state
          → state x ≡ unseen
          → Later
          → Returned (visit adjacency go node (x ∷ nexts) state) state
      by_call ((true, s), e, k) u later = ((true, s), ground arith, k)
      by_call ((false, s), e, k) u later = let (r, e', k') = later s k in (r, ground arith, k')

      by_mark :
          (m : Mark)
          → state x ≡ m
          → Later
          → Returned (visit adjacency go node (x ∷ nexts) state) state
      by_mark visiting u later = ((true, state), ground arith, λ j k. k)
      by_mark visited u later = let (r, e, k) = later state (λ j k. k) in (r, ground arith, k)
      by_mark unseen u later = by_call (returns x state (inside x (inl refl)) u few) u later

  dfs-Returns : (fuel : ℕ) → Returns fuel (dfs adjacency fuel)
  unfolding dfs
  dfs-Returns zero n state h u few =
      let lt =
        count_unseen-lt nodes state (mark state n visiting) n
          (mark-Keeps state n visiting (λ e. cc)) h u (rw (mark_self state n visiting) (λ e. cc)) in
      absurd (omega (arith, lt))
  dfs-Returns (suc fuel) n state h u few =
      let keeps = mark-Keeps state n visiting (λ e. cc) in
      let lt =
        count_unseen-lt nodes state (mark state n visiting) n keeps h u
          (rw (mark_self state n visiting) (λ e. cc)) in
      let (r, e, k) =
        visit-Returns fuel (dfs adjacency fuel) n (adjacency n) (mark state n visiting)
          (dfs-Returns fuel) (λ m g. closed n m g) (omega (arith, lt)) in
      (r, e, λ j v. keeps j (k j v))

  sweep_returns :
      (fuel : ℕ) (rest : List Text) (state : State)
      → ((m : Text) → Has m rest → Has m nodes)
      → ((k : Text) → state k ≢ visiting)
      → count_unseen nodes state ≤ fuel
      → (b : Bool) × (sweep adjacency fuel rest state ≡ some b)
  unfolding sweep
  sweep_returns fuel [] state inside idle few = (false, refl)
  sweep_returns fuel (x ∷ rest) state inside idle few = by_mark (state x) refl (λ s keeps still.
      sweep_returns fuel rest s (λ m h. inside m (inr h)) still
        (omega (arith, count_unseen-le nodes state s keeps)))
    where
      Later : Type 0
      Later =
          (s : State)
          → Keeps state s
          → ((k : Text) → s k ≢ visiting)
          → (b : Bool) × (sweep adjacency fuel rest s ≡ some b)

      by_call :
          Returned (dfs adjacency fuel x state) state
          → state x ≡ unseen
          → Later
          → (b : Bool) × (sweep adjacency fuel (x ∷ rest) state ≡ some b)
      by_call ((true, s), e, k) u later = (true, ground arith)
      by_call ((false, s), e, k) u later =
          let (b, e') = later s k (λ j v. idle j (dfs-Closes adjacency fuel x state s e j v).0) in
          (b, ground arith)

      by_mark :
          (m : Mark)
          → state x ≡ m
          → Later
          → (b : Bool) × (sweep adjacency fuel (x ∷ rest) state ≡ some b)
      by_mark visiting u later = absurd (idle x u)
      by_mark visited u later = let (b, e) = later state (λ j k. k) idle in (b, ground arith)
      by_mark unseen u later =
          by_call (dfs-Returns fuel x state (inside x (inl refl)) u few) u later

  pub has_cycle_returns :
      (fuel : ℕ) → length nodes ≤ fuel → (b : Bool) × (has_cycle adjacency fuel nodes ≡ some b)
  unfolding has_cycle
  has_cycle_returns fuel enough =
      sweep_returns fuel nodes (λ _. unseen) (λ m h. h) (λ k e. cc)
        (omega (arith, count_unseen-le-length nodes (λ _. unseen)))
