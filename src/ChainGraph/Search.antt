-- ===== src/ChainGraph/Search.antt =====
-- host/src/routes/chain-utils.ts: the depth-first search for a cycle and the memoised depth, over
-- the maps `adjacency`, `state` and `depthCache`. A map is a function; a recursive call takes one
-- unit of fuel, and `none` means that the stack is used up.
use ontheia.Prelude.{
  ℕ, zero, suc, ◌+◌, Bool, true, false, Option, none, some, List, [], ◌∷◌, ◌++◌, if◌then◌else◌,
  Text, text_eq,
}
use Prim.Native.Nat.{max}

unfoldable pub push_to : Text → Text → (Text → List Text) → Text → List Text
unfolding text_eq
push_to from to adjacency node =
    if text_eq from node then adjacency node ++ to ∷ [] else adjacency node

pub data Mark : Type 0 where
  unseen visiting visited : Mark

abbrev pub State : Type 0
State = Text → Mark

unfoldable pub mark : State → Text → Mark → State
unfolding text_eq
mark state node m k = if text_eq node k then m else state k

infixl 5 ◌>>=◌
abbrev pub ◌>>=◌ : {A B : Type 0} → Option A → (A → Option B) → Option B
none >>= f = none
some a >>= f = f a

module _ (adjacency : Text → List Text) where
  -- The loop of `dfs` over the successors, with the recursive call as an argument.
  unfoldable pub visit :
      (Text → State → Option (Bool × State)) → Text → List Text → State → Option (Bool × State)
  unfolding mark
  visit go node [] state = some (false, mark state node visited)
  visit go node (next ∷ nexts) state = elim (state next) [
    | visiting ↦ some (true, state)
    | visited ↦ visit go node nexts state
    | unseen ↦ go next state >>= λ r. elim r.0 [
      | true ↦ some (true, r.1)
      | false ↦ visit go node nexts r.1
    ]
  ]

  unfoldable pub dfs : ℕ → Text → State → Option (Bool × State)
  unfolding visit mark
  dfs zero node state = none
  dfs (suc fuel) node state = visit (dfs fuel) node (adjacency node) (mark state node visiting)

  -- The loop of `hasCycle` over the nodes.
  unfoldable pub sweep : ℕ → List Text → State → Option Bool
  unfolding dfs
  sweep fuel [] state = some false
  sweep fuel (n ∷ nodes) state = elim (state n) [
    | visited ↦ sweep fuel nodes state
    | _ ↦ dfs fuel n state >>= λ r. elim r.0 [ true ↦ some true | false ↦ sweep fuel nodes r.1 ]
  ]

  unfoldable pub has_cycle : ℕ → List Text → Option Bool
  unfolding sweep
  has_cycle fuel nodes = sweep fuel nodes (λ _. unseen)

abbrev pub Cache : Type 0
Cache = Text → Option ℕ

unfoldable pub store : Cache → Text → ℕ → Cache
unfolding text_eq
store cache node d k = if text_eq node k then some d else cache k

-- `Math.max(...nexts.map(depth))`, with the largest value so far.
unfoldable pub depth_all :
    (Text → Cache → Option (ℕ × Cache)) → List Text → ℕ → Cache → Option (ℕ × Cache)
depth_all go [] most cache = some (most, cache)
depth_all go (n ∷ nexts) most cache = go n cache >>= λ r. depth_all go nexts (max most r.0) r.1

module _ (adjacency : Text → List Text) where
  -- `depth`, for a node whose depth is not in the cache.
  unfoldable pub depth_new :
      (Text → Cache → Option (ℕ × Cache)) → Text → List Text → Cache → Option (ℕ × Cache)
  unfolding depth_all store
  depth_new go node [] cache = some (1, store cache node 1)
  depth_new go node (n ∷ nexts) cache =
      depth_all go (n ∷ nexts) 0 cache >>= λ r. some (1 + r.0, store r.1 node (1 + r.0))

  unfoldable pub depth : ℕ → Text → Cache → Option (ℕ × Cache)
  unfolding depth_new
  depth zero node cache = none
  depth (suc fuel) node cache = elim (cache node) [
    | some d ↦ some (d, cache)
    | none ↦ depth_new (depth fuel) node (adjacency node) cache
  ]

  -- `maxDepth`: 0 without nodes, else the largest depth, which is at least 1.
  unfoldable pub max_depth : ℕ → List Text → Option ℕ
  unfolding depth depth_all
  max_depth fuel [] = some 0
  max_depth fuel (n ∷ nodes) = depth_all (depth fuel) (n ∷ nodes) 1 (λ _. none) >>= λ r. some r.0
