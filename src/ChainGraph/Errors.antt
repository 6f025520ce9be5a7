-- ===== src/ChainGraph/Errors.antt =====
-- The errors that `validateChainGraphSpec` of host/src/routes/chain-utils.ts reports.
use ontheia.Prelude.{
  has_text, ℕ, ◌≤◌, ◌<◌, ltb, ◌≡◌, ◌≢◌, refl, sym, subst, inl, inr, ◌⊎◌, Bool, true, false, Option,
  some, List, [], ◌∷◌, ◌++◌, Text, codes, text_eq_sound, Has, Has-append, append-eq-nil, All, arith,
  Bool-cases,
}
use ontheia.ChainGraph.{
  Step, Edge, Spec, GraphError, cycle, too_deep, missing_target, missing_source, has_no_target,
  has_no_source, trimmed, step_ids, check_edge, check_edges, check_map, adjacency_of, when, lacks,
  max_depth_allowed, validate_chain_graph_spec, unknown_output, unknown_input,
}
use ontheia.ChainGraph.Trails.{Cycle}
use ontheia.ChainGraph.Depth.{Steps}
use ontheia.ChainGraph.Verdict.{validate-inv, has_text-Has}

record Lacks (errs : List GraphError) : Type 0 where
  lacks_it : ¬ Has cycle errs

when-Lacks : (b : Bool) (e : GraphError) → e ≢ cycle → Lacks (when b e)
unfolding when
when-Lacks true e other = record {
  lacks_it = λ h. elim h [ inl same ↦ other (sym same) | inr k ↦ k ];
}
when-Lacks false e other = record { lacks_it = λ h. h }

append-Lacks : {xs ys : List GraphError} → Lacks xs → Lacks ys → Lacks (xs ++ ys)
append-Lacks {xs} {ys} x y = record {
  lacks_it = λ h. elim (Has-append cycle xs ys h) [ inl k ↦ x.lacks_it k | inr k ↦ y.lacks_it k ];
}

check_map-Lacks :
    (outs ins : Option (List Text)) (from to : Text) (entries : List (Text × Text))
    → Lacks (check_map outs ins from to entries)
unfolding check_map
check_map-Lacks outs ins from to [] = record { lacks_it = λ h. h }
check_map-Lacks outs ins from to ((src, dst) ∷ entries) =
    append-Lacks (when-Lacks (lacks outs src) (unknown_output from to src) (λ e. cc)) (
      append-Lacks (when-Lacks (lacks ins dst) (unknown_input from to dst) (λ e. cc))
        (check_map-Lacks outs ins from to entries))

check_edge-Lacks : (steps : List Step) (ids : List Text) (e : Edge) → Lacks (check_edge steps ids e)
unfolding check_edge
check_edge-Lacks steps ids e =
    append-Lacks
      (when-Lacks (has_no_target ids (trimmed e.to)) (missing_target (trimmed e.to)) (λ q. cc))
      (append-Lacks
        (when-Lacks (has_no_source ids (trimmed e.from)) (missing_source (trimmed e.from))
          (λ q. cc))
        (check_map-Lacks _ _ (trimmed e.from) (trimmed e.to) e.map))

check_edges-Lacks :
    (steps : List Step) (ids : List Text) (edges : List Edge) → Lacks (check_edges steps ids edges)
unfolding check_edges
check_edges-Lacks steps ids [] = record { lacks_it = λ h. h }
check_edges-Lacks steps ids (e ∷ edges) =
    append-Lacks (check_edge-Lacks steps ids e) (check_edges-Lacks steps ids edges)

-- The error for a cycle is in no answer, whatever the specification.
cycle-unreported :
    (spec : Spec) (fuel : ℕ) (errs : List GraphError)
    → validate_chain_graph_spec fuel (some spec) ≡ some errs
    → ¬ Has cycle errs
cycle-unreported spec fuel errs e h =
    let (_, d, _, same) = validate-inv spec fuel errs e in
    let told =
      append-Lacks (check_edges-Lacks spec.steps (step_ids spec) spec.edges)
        (when-Lacks (ltb max_depth_allowed d) (too_deep d) (λ q. cc)) in
    told.lacks_it (subst (Has cycle) same h)

-- The edge leads to a step or to "output", from a step, from "input" or from nowhere.
pub record IsWired (ids : List Text) (e : Edge) : Type 0 where
  pub target : trimmed e.to ≢ []
  pub leads : Has (trimmed e.to) ids ⊎ (trimmed e.to ≡ codes "output")
  pub comes : (trimmed e.from ≡ []) ⊎ ((trimmed e.from ≡ codes "input") ⊎ Has (trimmed e.from) ids)

when-eq-nil : (b : Bool) (e : GraphError) → when b e ≡ [] → b ≡ false
unfolding when
when-eq-nil true e h = cc
when-eq-nil false e h = refl

has_no_target-false :
    (ids : List Text) (to : Text)
    → has_no_target ids to ≡ false
    → (to ≢ []) × (Has to ids ⊎ (to ≡ codes "output"))
unfolding has_no_target
has_no_target-false ids [] e = cc
has_no_target-false ids (c ∷ to) e = (
  λ q. cc,
  elim (Bool-cases (has_text (c ∷ to) ids)) [
    | inl y ↦ inl (has_text-Has (c ∷ to) ids y)
    | inr n ↦ inr (text_eq_sound (c ∷ to) (codes "output") (ground arith))
  ],
)

has_no_source-false :
    (ids : List Text) (from : Text)
    → has_no_source ids from ≡ false
    → (from ≡ []) ⊎ ((from ≡ codes "input") ⊎ Has from ids)
unfolding has_no_source
has_no_source-false ids [] e = inl refl
has_no_source-false ids (c ∷ from) e = inr (elim (Bool-cases (has_text (c ∷ from) ids)) [
  | inl y ↦ inr (has_text-Has (c ∷ from) ids y)
  | inr n ↦ inl (text_eq_sound (c ∷ from) (codes "input") (ground arith))
])

check_edge-IsWired :
    (steps : List Step) (ids : List Text) (e : Edge) → check_edge steps ids e ≡ [] → IsWired ids e
unfolding check_edge
check_edge-IsWired steps ids e none_found =
    let (no_target, more) = append-eq-nil _ _ none_found in
    let (no_source, _) = append-eq-nil _ _ more in
    let (full, leads) =
      has_no_target-false ids (trimmed e.to)
        (when-eq-nil _ (missing_target (trimmed e.to)) no_target) in
    record {
      target = full;
      leads = leads;
      comes =
          has_no_source-false ids (trimmed e.from)
            (when-eq-nil _ (missing_source (trimmed e.from)) no_source);
    }

check_edges-IsWired :
    (steps : List Step) (ids : List Text) (edges : List Edge)
    → check_edges steps ids edges ≡ []
    → All (IsWired ids) edges
unfolding check_edges
check_edges-IsWired steps ids [] e = tt
check_edges-IsWired steps ids (x ∷ edges) e =
    let (first, rest) = append-eq-nil (check_edge steps ids x) _ e in
    (check_edge-IsWired steps ids x first, check_edges-IsWired steps ids edges rest)

-- A specification that is accepted without an error has only edges that are wired to its steps, no
-- cycle, and no walk of more than 50 nodes.
pub validate-accepts :
    (spec : Spec) (fuel : ℕ)
    → validate_chain_graph_spec fuel (some spec) ≡ some []
    → All (IsWired (step_ids spec)) spec.edges
      × (¬ Cycle (adjacency_of spec))
      × ((n : Text) (j : ℕ) → Has n (step_ids spec) → Steps (adjacency_of spec) n j → j < 50)
validate-accepts spec fuel e =
    let (acyclic, d, longest, same) = validate-inv spec fuel [] e in
    let (no_edge, no_depth) =
      append-eq-nil (check_edges spec.steps (step_ids spec) spec.edges) _ (sym same) in
    let shallow = when-eq-nil (ltb max_depth_allowed d) (too_deep d) no_depth in
    let le : d ≤ 50 = ground arith in
    (
      check_edges-IsWired spec.steps (step_ids spec) spec.edges no_edge,
      acyclic,
      λ n j h s. omega (arith, longest.bounded n j h s, le),
    )
