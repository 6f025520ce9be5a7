-- ===== src/ChainGraph.antt =====
-- host/src/routes/chain-utils.ts: the graph checks on a chain specification. `Search` has the two
-- recursive searches of `validateChainGraphSpec`, and this file the rest of it.
-- A step is read through `id` (absent unless it is a string) and the keys of `inputs` and `outputs`
-- (absent unless these are objects); an edge through `from`, `to` and the entries of `map`. A
-- specification that is no object, or has no array of steps, is `none`. Left out: steps whose id is
-- the name of a property of `Object.prototype`, which the source looks up in plain objects.
-- `fuel` is the depth that the call stack allows; `none` stands for the `RangeError` of JavaScript
-- on a stack that is used up.
pub mod Search
pub mod Walks
mod Rounds
pub mod Cycles
pub mod Trails
pub mod Fuel
pub mod Depth
pub mod DepthReturns
pub mod Decides
pub mod Verdict
pub mod Errors
mod Tests
use ontheia.Prelude.{
  ℕ, ◌+◌, ltb, Bool, true, false, not, ◌&&◌, ◌||◌, Option, none, some, List, [], ◌∷◌, ◌++◌, map,
  if◌then◌else◌, Text, codes, text_eq, trim, has_text,
}
use ontheia.ChainGraph.Search.{has_cycle, max_depth, push_to}

pub record Step : Type 0 where
  pub id : Option Text
  pub inputs : Option (List Text)
  pub outputs : Option (List Text)

pub record Edge : Type 0 where
  pub from : Option Text
  pub to : Option Text
  pub map : List (Text × Text)

pub record Spec : Type 0 where
  pub steps : List Step
  pub edges : List Edge

-- The templates of `errors.push`.
pub data GraphError : Type 0 where
  missing_target : Text → GraphError
  missing_source : Text → GraphError
  unknown_output : Text → Text → Text → GraphError
  unknown_input : Text → Text → Text → GraphError
  cycle : GraphError
  too_deep : ℕ → GraphError

unfoldable pub trimmed : Option Text → Text
unfolding trim
trimmed none = []
trimmed (some s) = trim s

abbrev pub is_blank : Text → Bool
is_blank [] = true
is_blank (_ ∷ _) = false

-- `stepIds.add(id)`.
add_id : Text → List Text → List Text
unfolding has_text
add_id id ids = if is_blank id || has_text id ids then ids else ids ++ id ∷ []

collect_ids : List Step → List Text → List Text
unfolding add_id trimmed
collect_ids [] ids = ids
collect_ids (s ∷ steps) ids = collect_ids steps (add_id (trimmed s.id) ids)

unfoldable pub step_ids : Spec → List Text
unfolding collect_ids
step_ids spec = collect_ids spec.steps []

-- A later step of the same id has replaced an earlier one.
later_or : Option Step → Bool → Step → Option Step
later_or (some later) here s = some later
later_or none true s = some s
later_or none false s = none

-- `stepById[id]`.
find_step : Text → List Step → Option Step
unfolding trimmed later_or text_eq
find_step id [] = none
find_step id (s ∷ steps) =
    later_or (find_step id steps) (text_eq (trimmed s.id) id && not (is_blank id)) s

-- `key in object`, for an object with these own keys.
abbrev object_prototype_keys : List Text
object_prototype_keys =
    codes "constructor"
    ∷ codes "__proto__"
    ∷ codes "__defineGetter__"
    ∷ codes "__defineSetter__"
    ∷ codes "__lookupGetter__"
    ∷ codes "__lookupSetter__"
    ∷ codes "hasOwnProperty"
    ∷ codes "isPrototypeOf"
    ∷ codes "propertyIsEnumerable"
    ∷ codes "toLocaleString"
    ∷ codes "toString"
    ∷ codes "valueOf"
    ∷ []

is_key : Text → List Text → Bool
unfolding has_text
is_key key own = has_text key own || has_text key object_prototype_keys

lacks : Option (List Text) → Text → Bool
unfolding is_key
lacks none key = false
lacks (some own) key = not (is_key key own)

outputs_of : Option Step → Option (List Text)
outputs_of none = none
outputs_of (some s) = s.outputs

inputs_of : Option Step → Option (List Text)
inputs_of none = none
inputs_of (some s) = s.inputs

unfoldable pub when : Bool → GraphError → List GraphError
when true e = e ∷ []
when false e = []

check_map :
    Option (List Text) → Option (List Text) → Text → Text → List (Text × Text) → List GraphError
unfolding lacks when
check_map outs ins from to [] = []
check_map outs ins from to ((src, dst) ∷ entries) =
    when (lacks outs src) (unknown_output from to src)
    ++ (when (lacks ins dst) (unknown_input from to dst) ++ check_map outs ins from to entries)

has_no_target : List Text → Text → Bool
unfolding has_text
has_no_target ids to = is_blank to || (not (has_text to ids) && not (text_eq to (codes "output")))

has_no_source : List Text → Text → Bool
unfolding has_text
has_no_source ids from =
    not (is_blank from) && (not (text_eq from (codes "input")) && not (has_text from ids))

check_edge : List Step → List Text → Edge → List GraphError
unfolding check_map trimmed find_step outputs_of inputs_of has_no_target has_no_source when
check_edge steps ids e =
    let from = trimmed e.from in
    let to = trimmed e.to in
    let source = if text_eq from (codes "input") then none else find_step from steps in
    when (has_no_target ids to) (missing_target to)
    ++ (when (has_no_source ids from) (missing_source from)
        ++ check_map (outputs_of source) (inputs_of (find_step to steps)) from to e.map)

pub check_edges : List Step → List Text → List Edge → List GraphError
unfolding check_edge
check_edges steps ids [] = []
check_edges steps ids (e ∷ edges) = check_edge steps ids e ++ check_edges steps ids edges

-- One round of the loop that fills `adjacency`.
add_edge : List Text → Edge → (Text → List Text) → Text → List Text
unfolding trimmed has_text push_to
add_edge ids e adjacency =
    let from = trimmed e.from in
    let to = trimmed e.to in
    if is_blank to || not (has_text to ids)
    then adjacency
    else if not (is_blank from) && (text_eq from (codes "input") || has_text from ids)
    then push_to from to adjacency
    else adjacency

add_edges : List Text → List Edge → (Text → List Text) → Text → List Text
unfolding add_edge
add_edges ids [] adjacency = adjacency
add_edges ids (e ∷ edges) adjacency = add_edges ids edges (add_edge ids e adjacency)

unfoldable pub adjacency_of : Spec → Text → List Text
unfolding add_edges step_ids
adjacency_of spec = add_edges (step_ids spec) spec.edges (λ _. [])

abbrev pub max_depth_allowed : ℕ
max_depth_allowed = 50

-- The rest of the function, after the search for a cycle: the depth is computed in either case.
report : List GraphError → Bool → Option ℕ → Option (List GraphError)
report errors cyclic none = none
report errors cyclic (some deepest) =
    some (errors ++ (when cyclic cycle ++ when (ltb max_depth_allowed deepest) (too_deep deepest)))

search_then : List GraphError → Option Bool → Option ℕ → Option (List GraphError)
search_then errors none deepest = none
search_then errors (some cyclic) deepest = report errors cyclic deepest

unfoldable pub validate_chain_graph_spec : ℕ → Option Spec → Option (List GraphError)
unfolding check_edges adjacency_of step_ids search_then report has_cycle max_depth when
validate_chain_graph_spec fuel none = some []
validate_chain_graph_spec fuel (some spec) =
    let ids = step_ids spec in
    let adjacency = adjacency_of spec in
    search_then (check_edges spec.steps ids spec.edges) (has_cycle adjacency fuel ids)
      (max_depth adjacency fuel ids)
