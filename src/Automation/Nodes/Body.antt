-- ===== src/Automation/Nodes/Body.antt =====
-- The nodes that the body of a loop or of a map may have: `dispatchBodyNode` and `pollBodyNode` of
-- src/lib/automation/executor/job-executor.ts.
use Prim.Native.String.{◌++◌}
use provence.Prelude.{ℕ, String, false}
use provence.Workflow.VariableContext.{VariableContext}
use provence.Automation.Graph.{AutomationNode, NodeData}
use provence.Automation.RunState.{NodeStates}
use provence.Automation.Tick.{DispatchResult, PollResult, pending, Run, done, thrown}
use provence.Automation.Nodes.{
  RunRef, Database, Environment, dispatch_condition, dispatch_switch, dispatch_end,
  dispatch_action_node, poll_action_node,
}

abbrev pub type_name : NodeData → String
type_name (NodeData.trigger key filter) = "trigger"
type_name (NodeData.condition rule) = "condition"
type_name (NodeData.switch cases) = "switch"
type_name (NodeData.action d) = "action"
type_name (NodeData.loop d) = "loop"
type_name (NodeData.map d) = "map"
type_name (NodeData.wait delay until) = "wait"
type_name (NodeData.join mode) = "join"
type_name (NodeData.subautomation key input) = "subautomation"
type_name NodeData.end = "end"

abbrev pub unsupported : NodeData → String → String
unsupported (NodeData.wait delay until) id =
    "Le noeud \"wait\" n'est pas pris en charge dans le corps d'une boucle/\"map\" (noeud \"" ++ id
    ++ "\")."
unsupported d id =
    "Le noeud \""
    ++ type_name d
    ++ "\" n'est pas pris en charge imbriqué dans une boucle/\"map\" (noeud \""
    ++ id
    ++ "\") — un seul niveau d'imbrication est pris en charge dans cette phase."

module _ (e : Environment) (run : RunRef) (now : ℕ) where
  unfoldable pub dispatch_body :
      NodeData → String → VariableContext → String → Database → Run Database DispatchResult
  unfolding dispatch_condition dispatch_switch dispatch_action_node
  dispatch_body (NodeData.condition rule) id ctx job_node_id db = dispatch_condition e rule ctx db
  dispatch_body (NodeData.switch cases) id ctx job_node_id db = dispatch_switch e cases ctx db
  dispatch_body NodeData.end id ctx job_node_id db = dispatch_end e ctx db
  dispatch_body (NodeData.action d) id ctx job_node_id db =
      dispatch_action_node e run now d ctx job_node_id db
  dispatch_body d id ctx job_node_id db = thrown (unsupported d id) db

  abbrev pub dispatch_body_node :
      AutomationNode → VariableContext → String → Database → Run Database DispatchResult
  dispatch_body_node node ctx job_node_id db = dispatch_body node.data_of node.id ctx job_node_id db

  unfoldable pub poll_body : NodeData → String → NodeStates → Database → Run Database PollResult
  unfolding poll_action_node
  poll_body (NodeData.action d) id states db = poll_action_node e run now id d states db
  poll_body _ id states db = done (pending false) db

  abbrev pub poll_body_node : AutomationNode → NodeStates → Database → Run Database PollResult
  poll_body_node node states db = poll_body node.data_of node.id states db
