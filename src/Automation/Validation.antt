-- ===== src/Automation/Validation.antt =====
-- The structural checks of src/lib/automation/graph-validation.ts (`validateAutomationGraph` up to its
-- search for cycles), which an automation passes before it is stored. An issue is its kind and the
-- texts that its message names.
pub mod Laws
pub mod Cycle
use provence.Prelude.{
  String, Bool, true, false, not, ◌&&◌, ◌||◌, Option, none, some, List, [], ◌∷◌, ◌++◌, map, any,
  select, if◌then◌else◌, str_eq,
}
use provence.Automation.Graph.{
  AutomationNode, AutomationEdge, AutomationGraph, NodeData, SwitchCase, ActionNodeData,
}

pub data Issue : Type 0 where
  duplicate_id : String → Issue
  no_trigger no_end cyclic : Issue
  unknown_source unknown_target self_edge : String → String → Issue
  no_condition_branch no_job_type no_automation_key contains_itself : String → Issue
  no_switch_branch unknown_body : String → String → Issue

abbrev pub issue_if : Bool → Issue → List Issue
issue_if true issue = issue ∷ []
issue_if false issue = []

abbrev pub has : String → List String → Bool
has id ids = any (λ other. str_eq other id) ids

-- `issues.push` in a loop, in the loop's order.
abbrev pub issues_of {ℓ} : {A : Type ℓ} → (A → List Issue) → List A → List Issue
issues_of check [] = []
issues_of check (x ∷ xs) = check x ++ issues_of check xs

-- The loop that fills the set `ids`.
unfoldable pub duplicate_issues : List AutomationNode → List String → List Issue
duplicate_issues [] ids = []
duplicate_issues (node ∷ nodes) ids =
    issue_if (has node.id ids) (duplicate_id node.id) ++ duplicate_issues nodes (node.id ∷ ids)

abbrev pub ids_of : List AutomationNode → List String
ids_of nodes = map (λ node. node.id) nodes

abbrev pub is_trigger : AutomationNode → Bool
is_trigger node = elim node.data_of [ NodeData.trigger key config ↦ true | _ ↦ false ]

abbrev pub is_end : AutomationNode → Bool
is_end node = elim node.data_of [ NodeData.end ↦ true | _ ↦ false ]

unfoldable pub edge_issues : List String → AutomationEdge → List Issue
edge_issues ids edge =
    issue_if (not (has edge.source ids)) (unknown_source edge.id edge.source)
    ++ issue_if (not (has edge.target ids)) (unknown_target edge.id edge.target)
    ++ issue_if (str_eq edge.source edge.target) (self_edge edge.id edge.source)

-- `e.branch === branch`
abbrev pub has_branch : String → AutomationEdge → Bool
has_branch branch edge = elim edge.branch [ none ↦ false | some b ↦ str_eq b branch ]

abbrev pub outgoing_of : String → List AutomationEdge → List AutomationEdge
outgoing_of id edges = select (λ edge. str_eq edge.source id) edges

abbrev pub body_issues : String → List String → List String → List Issue
body_issues id ids body =
    issue_if (has id body) (contains_itself id)
    ++ issues_of (λ b. issue_if (not (has b ids)) (unknown_body id b)) body

unfoldable pub data_issues : String → List String → List AutomationEdge → NodeData → List Issue
data_issues id ids edges (NodeData.condition rule) =
    let outgoing = outgoing_of id edges in
    issue_if (not (any (has_branch "true") outgoing) && not (any (has_branch "false") outgoing))
      (no_condition_branch id)
data_issues id ids edges (NodeData.switch cases) =
    let outgoing = outgoing_of id edges in
    issues_of
      (λ c. issue_if (not (any (has_branch c.branch) outgoing)) (no_switch_branch id c.branch))
      cases
data_issues id ids edges (NodeData.action d) = issue_if (str_eq d.job_type "") (no_job_type id)
data_issues id ids edges (NodeData.subautomation key input) =
    issue_if (str_eq key "") (no_automation_key id)
data_issues id ids edges (NodeData.loop d) = body_issues id ids d.body_node_ids
data_issues id ids edges (NodeData.map d) = body_issues id ids d.body_node_ids
data_issues id ids edges _ = []

unfoldable pub structural_issues : AutomationGraph → List Issue
unfolding duplicate_issues edge_issues data_issues
structural_issues graph =
    let ids = ids_of graph.nodes in
    duplicate_issues graph.nodes []
    ++ issue_if (not (any is_trigger graph.nodes)) no_trigger
    ++ issue_if (not (any is_end graph.nodes)) no_end
    ++ issues_of (edge_issues ids) graph.edges
    ++ issues_of (λ node. data_issues node.id ids graph.edges node.data_of) graph.nodes
