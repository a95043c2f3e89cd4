-- ===== src/Automation/Validation/Cycle/Laws.antt =====
-- What the search for cycles (src/lib/automation/graph-validation.ts) says of a graph.
use provence.Prelude.{
  suc, ◌≤◌, ◌≢◌, refl, ◌↔◌, String, Bool, not, List, [], ◌∷◌, count_if, length, All, arith,
}
use provence.Automation.Graph.{AutomationEdge, AutomationGraph}
use provence.Automation.Run.{top_edges}
use provence.Automation.Validation.{has}
use provence.Automation.Validation.Cycle.{
  Search, cycle, clear, exhausted, each, has_cycle, ids_of_top, find_cycle,
}
use provence.Automation.Validation.Cycle.Visits.{
  IsIn, IsOrdered, Visits, each-Visits, has_cycle-Visits,
}
use provence.Automation.Validation.Cycle.Ends.{HasEnded, each-HasEnded, has_cycle-HasEnded}
use provence.Automation.Validation.Cycle.Absent.{NoCycle, each-NoCycle, has_cycle-NoCycle}

count_if-length : (p : AutomationEdge → Bool) (es : List AutomationEdge) → count_if p es ≤ length es
count_if-length p [] = omega arith
count_if-length p (edge ∷ es) = ground (arith, count_if-length p es)

-- What the outcome of a search from some identifiers means.
order_iff :
    (edges : List AutomationEdge) (ids : List String) (r : Search)
    → HasEnded edges r
    → Visits edges ids [] r
    → ((order : List String) → IsOrdered edges order → All (IsIn order) ids → NoCycle edges r)
    → (r ≢ exhausted)
      × ((r ≢ cycle) ↔ ((order : List String) × IsOrdered edges order × All (IsIn order) ids))
order_iff edges ids exhausted ended visits none_there = absurd ended
order_iff edges ids cycle ended visits none_there = (
  λ e. absurd (ground (arith, e)),
  (λ h. absurd (h refl), λ (order, o, m) e. none_there order o m),
)
order_iff edges ids (clear visited) ended (o, m, _) none_there =
    (λ e. absurd (ground (arith, e)), (λ h. (visited, o, m), λ order e. absurd (ground (arith, e))))

-- The search for cycles ends before its fuel. It finds a cycle exactly when the nodes outside the bodies
-- of loops and maps have no order in which every edge between them leads from a node to a later one.
pub find_cycle_iff :
    (graph : AutomationGraph)
    → (find_cycle graph ≢ exhausted)
      × ((find_cycle graph ≢ cycle) ↔ (
          (order : List String) × IsOrdered (top_edges graph) order
          × All (IsIn order) (ids_of_top graph)))
unfolding find_cycle
find_cycle_iff graph =
    let edges = top_edges graph in
    let search = has_cycle edges (suc (length edges)) [] in
    let enough = count_if-length (λ edge. not (has edge.source [])) edges in
    order_iff edges (ids_of_top graph) (each search (ids_of_top graph) [])
      (each-HasEnded edges search (ids_of_top graph) [] (λ _ id visited.
        has_cycle-HasEnded edges (suc (length edges)) [] id visited (omega (arith, enough))))
      (each-Visits edges search
        (λ id visited o. has_cycle-Visits edges (suc (length edges)) [] id visited o)
        (ids_of_top graph) [] tt)
      (λ order o m.
        each-NoCycle edges search order (ids_of_top graph) []
          (λ id visited k.
            has_cycle-NoCycle edges (suc (length edges)) [] id visited order o k
              (λ i v. absurd (ground (arith, v))))
          m)
