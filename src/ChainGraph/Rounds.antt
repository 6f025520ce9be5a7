-- ===== src/ChainGraph/Rounds.antt =====
-- The steps of the search in host/src/routes/chain-utils.ts: marks, and one round of its loops.
use ontheia.Prelude.{
  ℕ, ◌≡◌, refl, ◌⊎◌, Bool, true, false, Option, none, some, List, ◌∷◌, Text, text_eq_sound,
  text_eq_self, arith,
}
use ontheia.ChainGraph.Search.{
  Mark, unseen, visiting, visited, State, mark, ◌>>=◌, visit, dfs, sweep,
}

pub mark_self : (state : State) (n : Text) (m : Mark) → mark state n m n ≡ m
unfolding mark
mark_self state n m = ground (arith, text_eq_self n)

-- What a marked state says of a node: it is the marked one, or as before.
pub mark-cases :
    (state : State) (n : Text) (m : Mark) (k : Text)
    → ((n ≡ k) × (mark state n m k ≡ m)) ⊎ (mark state n m k ≡ state k)
unfolding mark
mark-cases state n m k = ground (arith, text_eq_sound n k)

-- How a round of the loop over the successors came to its result.
pub data Round (go : Text → State → Option (Bool × State)) (rest : State → Option (Bool × State))
    (x : Text) (state : State) (r : Bool × State) : Type 0 where
  back_edge : state x ≡ visiting → r ≡ (true, state) → Round go rest x state r
  skipped : state x ≡ visited → rest state ≡ some r → Round go rest x state r
  found :
      (s : State)
      → state x ≡ unseen
      → go x state ≡ some (true, s)
      → r ≡ (true, s)
      → Round go rest x state r
  searched :
      (s : State)
      → state x ≡ unseen
      → go x state ≡ some (false, s)
      → rest s ≡ some r
      → Round go rest x state r

pub visit-Round :
    (adjacency : Text → List Text) (go : Text → State → Option (Bool × State)) (node x : Text)
    (nexts : List Text) (state : State) (r : Bool × State)
    → visit adjacency go node (x ∷ nexts) state ≡ some r
    → Round go (visit adjacency go node nexts) x state r
unfolding visit
visit-Round adjacency go node x nexts state r e = by_mark (state x) refl
  where
    by_call :
        (o : Option (Bool × State))
        → state x ≡ unseen
        → go x state ≡ o
        → (o >>= λ (q : Bool × State). elim q.0 [
          | true ↦ some (true, q.1)
          | false ↦ visit adjacency go node nexts q.1
        ])
          ≡ some r
        → Round go (visit adjacency go node nexts) x state r
    by_call none u c h = cc
    by_call (some (true, s)) u c h = found s u c (ground arith)
    by_call (some (false, s)) u c h = searched s u c h

    by_mark : (m : Mark) → state x ≡ m → Round go (visit adjacency go node nexts) x state r
    by_mark unseen u = by_call (go x state) u refl (rw (u, visit) at e)
    by_mark visiting u = back_edge u (ground arith)
    by_mark visited u = skipped u (ground arith)

-- How a round of the loop over all nodes came to its result.
pub data Turn (go : Text → State → Option (Bool × State)) (rest : State → Option Bool) (x : Text)
    (state : State) (b : Bool) : Type 0 where
  known : state x ≡ visited → rest state ≡ some b → Turn go rest x state b
  hit : (s : State) → go x state ≡ some (true, s) → b ≡ true → Turn go rest x state b
  miss : (s : State) → go x state ≡ some (false, s) → rest s ≡ some b → Turn go rest x state b

pub sweep-Turn :
    (adjacency : Text → List Text) (fuel : ℕ) (x : Text) (nodes : List Text) (state : State)
    (b : Bool)
    → sweep adjacency fuel (x ∷ nodes) state ≡ some b
    → Turn (dfs adjacency fuel) (sweep adjacency fuel nodes) x state b
unfolding sweep
sweep-Turn adjacency fuel x nodes state b e = by_mark (state x) refl
  where
    by_call :
        (o : Option (Bool × State))
        → dfs adjacency fuel x state ≡ o
        → (o >>= λ (q : Bool × State). elim q.0 [
          | true ↦ some true
          | false ↦ sweep adjacency fuel nodes q.1
        ])
          ≡ some b
        → Turn (dfs adjacency fuel) (sweep adjacency fuel nodes) x state b
    by_call none c h = cc
    by_call (some (true, s)) c h = hit s c (ground arith)
    by_call (some (false, s)) c h = miss s c h

    by_mark :
        (m : Mark) → state x ≡ m → Turn (dfs adjacency fuel) (sweep adjacency fuel nodes) x state b
    by_mark visited u = known u (ground arith)
    by_mark unseen u = by_call (dfs adjacency fuel x state) refl (rw (u, sweep) at e)
    by_mark visiting u = by_call (dfs adjacency fuel x state) refl (rw (u, sweep) at e)
