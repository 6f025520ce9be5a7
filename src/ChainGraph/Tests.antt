-- ===== src/ChainGraph/Tests.antt =====
-- Specifications with and without a cycle, for host/src/routes/chain-utils.ts.
use ontheia.Prelude.{
  ℕ, ◌≤◌, ◌<◌, ltb, ◌≡◌, refl, inl, inr, Bool, true, false, none, some, List, [], ◌∷◌, ◌++◌,
  if◌then◌else◌, Text, codes, String, Has, All, arith,
}
use ontheia.ChainGraph.{
  Step, Edge, Spec, too_deep, step_ids, check_edges, adjacency_of, max_depth_allowed,
  validate_chain_graph_spec,
}
use ontheia.ChainGraph.Search.{has_cycle}
use ontheia.ChainGraph.Walks.{Next, Walk, edge, step}
use ontheia.ChainGraph.Trails.{Cycle}
use ontheia.ChainGraph.Depth.{Steps}
use ontheia.ChainGraph.Decides.{has_cycle-decides}
use ontheia.ChainGraph.Verdict.{validate-cyclic, validate-acyclic, validate-inv, IsLongest}
use ontheia.ChainGraph.Errors.{IsWired, validate-accepts}

abbrev step_named : String → Step
step_named s = record { id = some (codes s); inputs = none; outputs = some (codes "out" ∷ []) }

abbrev link : String → String → Edge
link a b = record { from = some (codes a); to = some (codes b); map = [] }

abbrev ring : Spec
ring = record {
  steps = step_named "a" ∷ step_named " b " ∷ [];
  edges = link "a" "b" ∷ link "b" "a" ∷ [];
}

abbrev line : Spec
line = record {
  steps = step_named "a" ∷ step_named "b" ∷ [];
  edges = link "input" "a" ∷ link "a" "b" ∷ link "b" "output" ∷ [];
}

line_accepted : validate_chain_graph_spec 5 (some line) ≡ some []
unfolding validate_chain_graph_spec
line_accepted = refl

wrong_edges :
    validate_chain_graph_spec 5 (
      some (record {
        steps = step_named "a" ∷ [];
        edges =
            link "a" "c"
            ∷ record {
              from = some (codes "a");
              to = some (codes "a ");
              map = (codes "x", codes "y") ∷ [];
            }
            ∷ [];
      }))
    ≡ none
unfolding validate_chain_graph_spec
wrong_edges = refl

ring_Cycle : Cycle (adjacency_of ring)
unfolding adjacency_of
ring_Cycle = (codes "a", step {b = codes "b"} (inl refl) (edge (inl refl)))

validate-cyclic_example : validate_chain_graph_spec 10000 (some ring) ≡ none
validate-cyclic_example = validate-cyclic ring 10000 ring_Cycle

line_acyclic : (n : Text) → ¬ Walk (adjacency_of line) n n
line_acyclic n w = (validate-inv line 5 [] line_accepted).0 (n, w)

validate-acyclic_example :
    (enough : ℕ) × ((fuel : ℕ)
      → enough ≤ fuel
      → (m : ℕ) × IsLongest (adjacency_of line) (step_ids line) m
        × (validate_chain_graph_spec fuel (some line)
            ≡ some (
                check_edges line.steps (step_ids line) line.edges
                ++ (if ltb max_depth_allowed m then too_deep m ∷ [] else []))))
validate-acyclic_example = validate-acyclic line line_acyclic

validate-accepts_example :
    All (IsWired (step_ids line)) line.edges
    × (¬ Cycle (adjacency_of line))
    × ((n : Text) (j : ℕ) → Has n (step_ids line) → Steps (adjacency_of line) n j → j < 50)
validate-accepts_example = validate-accepts line 5 line_accepted

abbrev two_way : Text → List Text
two_way n = codes "b" ∷ codes "a" ∷ []

two_way_closed : (x y : Text) → Next two_way x y → Has y (codes "a" ∷ codes "b" ∷ [])
two_way_closed x y (inl e) = inr (inl e)
two_way_closed x y (inr (inl e)) = inl e
two_way_closed x y (inr (inr h)) = elim h [ ]

has_cycle-decides_example :
    (answer : Bool) × (has_cycle two_way 2 (codes "a" ∷ codes "b" ∷ []) ≡ some answer)
    × (answer ≡ true → Cycle two_way)
    × (answer ≡ false → (n : Text) → Has n (codes "a" ∷ codes "b" ∷ []) → ¬ Walk two_way n n)
has_cycle-decides_example =
    has_cycle-decides two_way (codes "a" ∷ codes "b" ∷ []) two_way_closed 2 (omega arith)
