-- ===== src/ChainGraph/Verdict.antt =====
-- What `validateChainGraphSpec` of host/src/routes/chain-utils.ts returns, and when it does not.
use ontheia.Prelude.{
  has_text, ℕ, ◌+◌, ◌-◌, ◌≤◌, ◌<◌, ltb, ◌≡◌, refl, sym, subst, inl, inr, ◌⊎◌, Bool, true, false,
  not, ◌||◌, Option, none, some, List, [], ◌∷◌, ◌++◌, if◌then◌else◌, Text, text_eq, text_eq_sound,
  Has, Has-append, length, arith, Bool-cases, Option-cases, ◌∙◌,
}
use ontheia.ChainGraph.{
  Edge, Spec, GraphError, cycle, too_deep, is_blank, trimmed, step_ids, check_edges, add_edge,
  add_edges, adjacency_of, when, max_depth_allowed, search_then, report, validate_chain_graph_spec,
}
use ontheia.ChainGraph.Search.{has_cycle, max_depth, push_to}
use ontheia.ChainGraph.Walks.{Next, Walk, edge, step, Ends-acyclic}
use ontheia.ChainGraph.Cycles.{has_cycle-false}
use ontheia.ChainGraph.Trails.{Cycle, has_cycle-true}
use ontheia.ChainGraph.Fuel.{has_cycle_returns}
use ontheia.ChainGraph.Depth.{Steps, IsDepth, IsDepth-Ends, IsMost, max_depth-IsMost}
use ontheia.ChainGraph.DepthReturns.{max_depth_returns}

pub has_text-Has : (t : Text) (ts : List Text) → has_text t ts ≡ true → Has t ts
unfolding has_text
has_text-Has t [] e = cc
has_text-Has t (x ∷ ts) e = elim (Bool-cases (text_eq t x)) [
  | inl same ↦ inl (text_eq_sound t x same)
  | inr other ↦ inr (has_text-Has t ts (ground arith))
]

push_to-Has :
    (from to : Text) (adjacency : Text → List Text) (a b : Text)
    → Has b (push_to from to adjacency a)
    → (b ≡ to) ⊎ Has b (adjacency a)
unfolding push_to
push_to-Has from to adjacency a b h = elim (Bool-cases (text_eq from a)) [
  | inl e ↦ elim (Has-append b (adjacency a) (to ∷ []) (rw e at h)) [
    | inl k ↦ inr k
    | inr (inl k) ↦ inl k
    | inr (inr k) ↦ absurd k
  ]
  | inr e ↦ inr (rw e at h)
]

-- Edges lead to nodes only.
abbrev IsClosed : List Text → (Text → List Text) → Type 0
IsClosed ids adjacency = (a b : Text) → Next adjacency a b → Has b ids

add_edge-IsClosed :
    (ids : List Text) (e : Edge) (adjacency : Text → List Text)
    → IsClosed ids adjacency
    → IsClosed ids (add_edge ids e adjacency)
unfolding add_edge
add_edge-IsClosed ids e adjacency closed a b h =
    by_tests (is_blank to || not (has_text to ids)) _ (λ k. has_text-Has to ids (ground arith)) h
  where
    from : Text
    from = trimmed e.from

    to : Text
    to = trimmed e.to

    by_tests :
        (skip linked : Bool)
        → (skip ≡ false → Has to ids)
        → Has b (
            (if skip then adjacency else if linked then push_to from to adjacency else adjacency) a)
        → Has b ids
    by_tests true linked inside k = closed a b k
    by_tests false false inside k = closed a b k
    by_tests false true inside k = elim (push_to-Has from to adjacency a b k) [
      | inl same ↦ subst (λ x. Has x ids) (sym same) (inside refl)
      | inr old ↦ closed a b old
    ]

add_edges-IsClosed :
    (ids : List Text) (edges : List Edge) (adjacency : Text → List Text)
    → IsClosed ids adjacency
    → IsClosed ids (add_edges ids edges adjacency)
unfolding add_edges
add_edges-IsClosed ids [] adjacency closed = closed
add_edges-IsClosed ids (e ∷ edges) adjacency closed =
    add_edges-IsClosed ids edges (add_edge ids e adjacency)
      (add_edge-IsClosed ids e adjacency closed)

adjacency-IsClosed : (spec : Spec) → IsClosed (step_ids spec) (adjacency_of spec)
unfolding adjacency_of
adjacency-IsClosed spec =
    add_edges-IsClosed (step_ids spec) spec.edges (λ _. []) (λ a b h. absurd h)

-- A cycle runs through the nodes.
cycle-Has : (spec : Spec) → (c : Cycle (adjacency_of spec)) → Has c.0 (step_ids spec)
cycle-Has spec (n, w) = target w
  where
    target : {a b : Text} → Walk (adjacency_of spec) a b → Has b (step_ids spec)
    target (edge e) = adjacency-IsClosed spec _ _ e
    target (step e w) = target w

max_depth-cyclic :
    (adjacency : Text → List Text) (fuel : ℕ) (ids : List Text) (n : Text)
    → Has n ids
    → Walk adjacency n n
    → max_depth adjacency fuel ids ≡ none
max_depth-cyclic adjacency fuel [] n h w = absurd h
max_depth-cyclic adjacency fuel (x ∷ ids) n h w =
    elim (Option-cases (max_depth adjacency fuel (x ∷ ids))) [
      | inl e ↦ e
      | inr (m, e) ↦
          let (d, i, _) = (max_depth-IsMost adjacency fuel x ids m e).each n h in
          absurd (Ends-acyclic adjacency n (IsDepth-Ends adjacency i) w)
    ]

search_then-none : (errors : List GraphError) (b : Option Bool) → search_then errors b none ≡ none
unfolding search_then report
search_then-none errors none = refl
search_then-none errors (some b) = refl

-- A specification whose edges form a cycle gets no answer at all: however deep the stack may grow,
-- it is used up, since the depth is computed also where a cycle was found.
pub validate-cyclic :
    (spec : Spec) (fuel : ℕ)
    → Cycle (adjacency_of spec)
    → validate_chain_graph_spec fuel (some spec) ≡ none
unfolding validate_chain_graph_spec
validate-cyclic spec fuel c =
    rw (max_depth-cyclic (adjacency_of spec) fuel (step_ids spec) c.0 (cycle-Has spec c) c.1)
      (search_then-none _ _)

-- The longest walk from any of these nodes has `m` nodes, and `m` is 0 without nodes.
pub record IsLongest (adjacency : Text → List Text) (ids : List Text) (m : ℕ) : Type 0 where
  pub bounded : (n : Text) (j : ℕ) → Has n ids → Steps adjacency n j → j < m
  pub reached : ((m ≡ 0) × (ids ≡ [])) ⊎ ((n : Text) × Has n ids × Steps adjacency n (m - 1))

IsMost-IsLongest :
    (adjacency : Text → List Text) (x : Text) (ids : List Text) (m : ℕ)
    → IsMost adjacency (x ∷ ids) 1 m
    → IsLongest adjacency (x ∷ ids) m
IsMost-IsLongest adjacency x ids m w = record {
  bounded = λ n j h s. let (d, i, le) = w.each n h in omega (arith, i.bounded j s, i.counted);
  reached = inr (attained w.reached);
}
  where
    Attained : Type 0
    Attained = (n : Text) × Has n (x ∷ ids) × Steps adjacency n (m - 1)

    attained : (m ≡ 1) ⊎ ((b : Text) × Has b (x ∷ ids) × IsDepth adjacency b m) → Attained
    attained (inl e) =
        let z : 0 ≡ m - 1 = omega arith in (x, inl refl, subst (Steps adjacency x) z tt)
    attained (inr (b, h, i)) =
        let z : i.edges ≡ m - 1 = omega (arith, i.counted) in
        (b, h, subst (Steps adjacency b) z i.longest)

max_depth-IsLongest :
    (adjacency : Text → List Text) (fuel : ℕ) (ids : List Text) (m : ℕ)
    → max_depth adjacency fuel ids ≡ some m
    → IsLongest adjacency ids m
unfolding max_depth
max_depth-IsLongest adjacency fuel [] m e = record {
  bounded = λ n j h s. absurd h;
  reached = inl (ground arith, refl);
}
max_depth-IsLongest adjacency fuel (x ∷ ids) m e =
    IsMost-IsLongest adjacency x ids m (max_depth-IsMost adjacency fuel x ids m e)

has_cycle-acyclic :
    (spec : Spec) (fuel : ℕ)
    → ((n : Text) → ¬ Walk (adjacency_of spec) n n)
    → length (step_ids spec) ≤ fuel
    → has_cycle (adjacency_of spec) fuel (step_ids spec) ≡ some false
has_cycle-acyclic spec fuel acyclic enough =
    let (b, e) =
      has_cycle_returns (adjacency_of spec) (step_ids spec) (adjacency-IsClosed spec) fuel enough in
    by_answer b e
  where
    by_answer :
        (b : Bool)
        → has_cycle (adjacency_of spec) fuel (step_ids spec) ≡ some b
        → has_cycle (adjacency_of spec) fuel (step_ids spec) ≡ some false
    by_answer true e =
        let (n, w) = has_cycle-true (adjacency_of spec) fuel (step_ids spec) e in
        absurd (acyclic n w)
    by_answer false e = e

search_then-acyclic :
    (errors : List GraphError) (m : ℕ)
    → search_then errors (some false) (some m)
      ≡ some (errors ++ (if ltb max_depth_allowed m then too_deep m ∷ [] else []))
unfolding search_then report when
search_then-acyclic errors m = ground arith

-- Without a cycle the function returns, given a stack that is deep enough for the specification:
-- the errors of the single edges, and one more exactly if the longest walk has over 50 nodes. That
-- one carries the number of its nodes.
pub validate-acyclic :
    (spec : Spec)
    → ((n : Text) → ¬ Walk (adjacency_of spec) n n)
    → (enough : ℕ) × ((fuel : ℕ)
        → enough ≤ fuel
        → (m : ℕ) × IsLongest (adjacency_of spec) (step_ids spec) m
          × (validate_chain_graph_spec fuel (some spec)
              ≡ some (
                  check_edges spec.steps (step_ids spec) spec.edges
                  ++ (if ltb max_depth_allowed m then too_deep m ∷ [] else []))))
unfolding validate_chain_graph_spec
validate-acyclic spec acyclic =
    let ends =
      has_cycle-false (adjacency_of spec) (length (step_ids spec)) (step_ids spec)
        (has_cycle-acyclic spec (length (step_ids spec)) acyclic (omega arith)) in
    let (k, deep) = max_depth_returns (adjacency_of spec) (step_ids spec) ends in
    (
      k + length (step_ids spec),
      λ fuel le.
          let (m, e) = deep fuel (omega arith) in
          (
            m,
            max_depth-IsLongest (adjacency_of spec) fuel (step_ids spec) m e,
            rw (has_cycle-acyclic spec fuel acyclic (omega arith), e) (search_then-acyclic _ m),
          ),
    )

search_then-inv :
    (errors errs : List GraphError) (b : Option Bool) (m : Option ℕ)
    → search_then errors b m ≡ some errs
    → (c : Bool) × (b ≡ some c)
      × (d : ℕ) × (m ≡ some d)
      × (errs ≡ errors ++ (when c cycle ++ when (ltb max_depth_allowed d) (too_deep d)))
unfolding search_then report
search_then-inv errors errs none m e = cc
search_then-inv errors errs (some c) none e = cc
search_then-inv errors errs (some c) (some d) e = (c, refl, d, refl, ground arith)

-- What is known of any answer.
pub validate-inv :
    (spec : Spec) (fuel : ℕ) (errs : List GraphError)
    → validate_chain_graph_spec fuel (some spec) ≡ some errs
    → (¬ Cycle (adjacency_of spec))
      × (d : ℕ) × IsLongest (adjacency_of spec) (step_ids spec) d
      × (errs
          ≡ check_edges spec.steps (step_ids spec) spec.edges
            ++ when (ltb max_depth_allowed d) (too_deep d))
unfolding validate_chain_graph_spec
validate-inv spec fuel errs e =
    let (c, answer, d, deepest, same) = search_then-inv _ errs _ _ e in
    let acyclic : ¬ Cycle (adjacency_of spec) =
      λ k. absurd_some (sym e ∙ validate-cyclic spec fuel k) in
    (
      acyclic,
      d,
      max_depth-IsLongest (adjacency_of spec) fuel (step_ids spec) d deepest,
      by_answer d c acyclic answer same,
    )
  where
    absurd_some : ¬ (some errs ≡ none)
    absurd_some h = cc

    by_answer :
        (d : ℕ) (c : Bool)
        → ¬ Cycle (adjacency_of spec)
        → has_cycle (adjacency_of spec) fuel (step_ids spec) ≡ some c
        → errs
          ≡ check_edges spec.steps (step_ids spec) spec.edges
            ++ (when c cycle ++ when (ltb max_depth_allowed d) (too_deep d))
        → errs
          ≡ check_edges spec.steps (step_ids spec) spec.edges
            ++ when (ltb max_depth_allowed d) (too_deep d)
    by_answer d true acyclic answer same =
        absurd (acyclic (has_cycle-true (adjacency_of spec) fuel (step_ids spec) answer))
    by_answer d false acyclic answer same = unfold when in same
