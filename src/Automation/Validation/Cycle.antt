-- ===== src/Automation/Validation/Cycle.antt =====
-- The search for cycles at the end of `validateAutomationGraph`
-- (src/lib/automation/graph-validation.ts), outside the bodies of loops and maps, and the whole
-- validation. The sets are lists of their members. The depth of the recursion is bounded by fuel.
pub mod Visits
pub mod Ends
pub mod Absent
pub mod Laws
use provence.Prelude.{
  ℕ, zero, suc, String, Bool, true, false, Option, none, some, List, [], ◌∷◌, ◌++◌, map, select,
  length, if◌then◌else◌, str_eq,
}
use provence.Automation.Graph.{AutomationNode, AutomationEdge, AutomationGraph}
use provence.Automation.Run.{top_nodes, top_edges}
use provence.Automation.Validation.{Issue, has, structural_issues}

-- What a search comes to: a cycle, the set `visited` without one, or no more fuel.
pub data Search : Type 0 where
  cycle : Search
  clear : List String → Search
  exhausted : Search

infixl 5 ◌>>=◌
abbrev pub ◌>>=◌ : Search → (List String → Search) → Search
cycle >>= f = cycle
clear visited >>= f = f visited
exhausted >>= f = exhausted

-- `adjacency.get(id) ?? []`
abbrev pub targets_of : List AutomationEdge → String → List String
targets_of edges id = map (λ edge. edge.target) (select (λ edge. str_eq edge.source id) edges)

-- A loop that searches from each identifier in turn, up to the first cycle.
unfoldable pub each : (String → List String → Search) → List String → List String → Search
each search [] visited = clear visited
each search (id ∷ ids) visited = search id visited >>= λ visited'. each search ids visited'

-- `hasCycle(id)`
unfoldable pub has_cycle : List AutomationEdge → ℕ → List String → String → List String → Search
unfolding each
has_cycle edges zero visiting id visited = exhausted
has_cycle edges (suc fuel) visiting id visited =
    let below =
      each (λ next visited'. has_cycle edges fuel (id ∷ visiting) next visited')
        (targets_of edges id) visited in
    if has id visiting
    then cycle
    else if has id visited
    then clear visited
    else (below >>= λ visited'. clear (id ∷ visited'))

abbrev pub ids_of_top : AutomationGraph → List String
ids_of_top graph = map (λ node. node.id) (top_nodes graph)

unfoldable pub find_cycle : AutomationGraph → Search
unfolding has_cycle top_edges top_nodes
find_cycle graph =
    let edges = top_edges graph in
    each (has_cycle edges (suc (length edges)) []) (ids_of_top graph) []

unfoldable pub validate_automation_graph : AutomationGraph → Option (List Issue)
unfolding find_cycle structural_issues
validate_automation_graph graph = elim (find_cycle graph) [
  | cycle ↦ some (structural_issues graph ++ (Issue.cyclic ∷ []))
  | clear visited ↦ some (structural_issues graph)
  | exhausted ↦ none
]
