-- ===== src/Automation/Nodes/Top/Join.antt =====
-- Join nodes: their readiness (src/lib/automation/executor/run-state.ts) and their dispatch
-- (`dispatchJoinNode` of src/lib/automation/executor/job-executor.ts).
use provence.Prelude.{◌≡◌, refl, true, false, Option, none, some, List, [], ◌∷◌, All, lookup}
use provence.Automation.Graph.{AutomationNode, AutomationEdge, JoinMode, NodeData}
use provence.Automation.RunState.{
  NodeStatus, NodeState, NodeStates, incoming_of, is_node_ready, ready_by, join_ready, every_edge,
  some_edge, edge_is_satisfied, satisfied_by, source_is_terminal, ready, is_blank, has_policy,
}
use provence.Automation.Tick.{DispatchResult, done}
use provence.Automation.Nodes.Top.{has_succeeded, join_settled, join_satisfied, dispatch_join}

-- The source has a state, with an ignored failure, and the edge has no branch.
abbrev pub ComesFromIgnored : NodeStates → AutomationEdge → Type 0
ComesFromIgnored states edge =
    (source : NodeState) × (lookup edge.source states ≡ some source)
    × (source.status ≡ NodeStatus.skipped)
    × (has_policy "ignore" source.error ≡ true)
    × (is_blank edge.branch ≡ true)

ignored-every_terminal :
    (states : NodeStates) (edges : List AutomationEdge)
    → All (ComesFromIgnored states) edges
    → every_edge source_is_terminal edges states ≡ some true
unfolding every_edge
ignored-every_terminal states [] h = refl
ignored-every_terminal states (edge ∷ edges) ((source, found, skipped, _, _), hs) =
    rw (found, every_edge) (rw skipped (ignored-every_terminal states edges hs))

ignored-none_succeeded :
    (states : NodeStates) (edges : List AutomationEdge)
    → All (ComesFromIgnored states) edges
    → some_edge has_succeeded edges states ≡ some false
unfolding some_edge
ignored-none_succeeded states [] h = refl
ignored-none_succeeded states (edge ∷ edges) ((source, found, skipped, _, _), hs) =
    rw (found, some_edge) (rw skipped (ignored-none_succeeded states edges hs))

satisfied-ignored :
    (edge : AutomationEdge) (source : NodeState)
    → source.status ≡ NodeStatus.skipped
    → has_policy "ignore" source.error ≡ true
    → is_blank edge.branch ≡ true
    → edge_is_satisfied edge source ≡ true
unfolding edge_is_satisfied satisfied_by
satisfied-ignored edge source skipped ignored blank = rw skipped (rw (ignored, blank) refl)

ignored-ready :
    (mode : Option JoinMode) (edge : AutomationEdge) (incoming : List AutomationEdge)
    (states : NodeStates)
    → All (ComesFromIgnored states) (edge ∷ incoming)
    → ready_by (NodeData.join mode) (edge ∷ incoming) states ≡ some ready
unfolding ready_by join_ready some_edge
ignored-ready (some JoinMode.all) edge incoming states h =
    rw (ignored-every_terminal states (edge ∷ incoming) h) refl
ignored-ready none edge incoming states ((source, found, skipped, ignored, blank), hs) =
    rw (found, some_edge)
      (rw (satisfied-ignored edge source skipped ignored blank) (rw skipped refl))
ignored-ready (some JoinMode.any) edge incoming states
      ((source, found, skipped, ignored, blank), hs) =
    rw (found, some_edge)
      (rw (satisfied-ignored edge source skipped ignored blank) (rw skipped refl))

-- A join with incoming edges that have no branch, all from nodes whose failure its policy ignores, is
-- ready, as another node in its place is, but its dispatch settles it as skipped.
pub dispatch_join_ignored :
    {W : Type 0} (node : AutomationNode) (mode : Option JoinMode) (edges : List AutomationEdge)
    (edge : AutomationEdge) (incoming : List AutomationEdge) (states : NodeStates) (w : W)
    → node.data_of ≡ NodeData.join mode
    → incoming_of node edges ≡ edge ∷ incoming
    → All (ComesFromIgnored states) (edge ∷ incoming)
    → (is_node_ready node (edge ∷ incoming) states ≡ some ready)
      × (dispatch_join mode node edges states w
          ≡ done (DispatchResult.settled (join_settled mode false)) w)
unfolding is_node_ready dispatch_join join_satisfied
dispatch_join_ignored node mode edges edge incoming states w is_join into h = (
  rw is_join (ignored-ready mode edge incoming states h),
  rw (into, dispatch_join)
      (rw (ignored-none_succeeded states (edge ∷ incoming) h, dispatch_join) refl),
)
