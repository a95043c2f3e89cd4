-- ===== src/Tests/Validation.antt =====
-- src/lib/automation/graph-validation.ts on small graphs.
use provence.Prelude.{◌≢◌, ◌↔◌, String, List, ◌≡◌, refl, true, none, some, [], ◌∷◌, any, All}
use provence.Workflow.Rule.{Rule}
use provence.Automation.Graph.{AutomationGraph, NodeData}
use provence.Automation.RunState.Ready.{Distinct}
use provence.Automation.Validation.{
  structural_issues, self_edge, unknown_target, no_end, ids_of, is_trigger, is_end,
}
use provence.Automation.Run.{top_edges, top_nodes}
use provence.Automation.Validation.Cycle.{
  cycle, clear, exhausted, each, has_cycle, find_cycle, ids_of_top,
}
use provence.Automation.Validation.Cycle.Visits.{IsOrdered, IsIn}
use provence.Automation.Validation.Cycle.Laws.{find_cycle_iff}
use provence.Automation.Validation.Laws.{Connects, IsComplete, structural_issues-nil}

abbrev graph : AutomationGraph
graph = record {
  nodes =
      record { id = "a"; data_of = NodeData.trigger "t" none }
      ∷ record { id = "b"; data_of = NodeData.condition Rule.always }
      ∷ record { id = "c"; data_of = NodeData.end }
      ∷ [];
  edges =
      record { id = "1"; source = "a"; target = "b"; branch = none }
      ∷ record { id = "2"; source = "b"; target = "c"; branch = some "true" }
      ∷ [];
}

no_issue : structural_issues graph ≡ []
unfolding structural_issues
no_issue = refl

abbrev broken : AutomationGraph
broken = record {
  nodes = record { id = "a"; data_of = NodeData.trigger "t" none } ∷ [];
  edges =
      record { id = "1"; source = "a"; target = "a"; branch = none }
      ∷ record { id = "2"; source = "a"; target = "z"; branch = none }
      ∷ [];
}

three_issues : structural_issues broken ≡ no_end ∷ self_edge "1" "a" ∷ unknown_target "2" "z" ∷ []
unfolding structural_issues
three_issues = refl

structural_issues-nil_example :
    Distinct graph.nodes
    × (any is_trigger graph.nodes ≡ true)
    × (any is_end graph.nodes ≡ true)
    × All (Connects (ids_of graph.nodes)) graph.edges
    × All (λ node. IsComplete node.id (ids_of graph.nodes) graph.edges node.data_of) graph.nodes
structural_issues-nil_example = structural_issues-nil graph no_issue

is_acyclic : find_cycle graph ≡ clear ("a" ∷ "b" ∷ "c" ∷ [])
unfolding find_cycle each has_cycle top_edges top_nodes
is_acyclic = refl

abbrev looping : AutomationGraph
looping = record graph {
  edges = record { id = "3"; source = "b"; target = "a"; branch = none } ∷ graph.edges;
}

is_cyclic : find_cycle looping ≡ cycle
unfolding find_cycle each has_cycle top_edges top_nodes
is_cyclic = refl

find_cycle_iff_example :
    (find_cycle looping ≢ exhausted)
    × ((find_cycle looping ≢ cycle) ↔ (
        (order : List String) × IsOrdered (top_edges looping) order
        × All (IsIn order) (ids_of_top looping)))
find_cycle_iff_example = find_cycle_iff looping
