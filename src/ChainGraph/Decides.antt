-- ===== src/ChainGraph/Decides.antt =====
-- The search `hasCycle` of host/src/routes/chain-utils.ts as a decision.
use ontheia.Prelude.{ℕ, ◌≤◌, ◌≡◌, Bool, true, false, some, List, Text, Has, length, ap, ◌∙◌}
use ontheia.ChainGraph.Search.{has_cycle}
use ontheia.ChainGraph.Walks.{Next, Walk, Ends-acyclic}
use ontheia.ChainGraph.Cycles.{has_cycle-false}
use ontheia.ChainGraph.Trails.{Cycle, has_cycle-true}
use ontheia.ChainGraph.Fuel.{has_cycle_returns}

-- On a graph whose edges lead to listed nodes the search ends, with one nested call for each node
-- at most; it answers true only if some walk returns to its start, and false only if no walk from a
-- listed node does.
pub has_cycle-decides :
    (adjacency : Text → List Text) (nodes : List Text)
    → ((a b : Text) → Next adjacency a b → Has b nodes)
    → (fuel : ℕ) → length nodes ≤ fuel
    → (answer : Bool) × (has_cycle adjacency fuel nodes ≡ some answer)
      × (answer ≡ true → Cycle adjacency)
      × (answer ≡ false → (n : Text) → Has n nodes → ¬ Walk adjacency n n)
has_cycle-decides adjacency nodes closed fuel enough =
    let (answer, e) = has_cycle_returns adjacency nodes closed fuel enough in
    (
      answer,
      e,
      λ y. has_cycle-true adjacency fuel nodes (e ∙ ap some y),
      λ n k h. Ends-acyclic adjacency k (has_cycle-false adjacency fuel nodes (e ∙ ap some n) k h),
    )
