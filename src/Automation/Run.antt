-- ===== src/Automation/Run.antt =====
-- One advance of an automation's run: `advanceAutomationRun` of
-- src/lib/automation/executor/job-executor.ts. The row of the run is a record; `save` writes it to the
-- database, which is part of the world, like the progress of loops and maps that `dispatch` and `poll`
-- keep in the run's context. Logs are left out. Times are milliseconds.
pub mod States
pub mod Laws
use provence.Prelude.{
  ℕ, zero, suc, String, Bool, true, false, not, ◌&&◌, ◌||◌, Option, none, some, List, [], ◌∷◌,
  lookup, insert, every, any, select, if◌then◌else◌, str_eq,
}
use provence.Json.{Json, null, bool, obj, Fields}
use provence.Workflow.VariableContext.{Scope, VariableContext, create_empty_variable_context}
use provence.Automation.Graph.{AutomationNode, AutomationEdge, AutomationGraph, NodeData}
use provence.Automation.RunState.{
  NodeStatus, NodeError, NodeState, NodeStates, is_terminal, is_failed, has_policy,
  collect_subordinate_node_ids,
}
use provence.Automation.Tick.{
  DispatchResult, PollResult, Run, done, thrown, ◌>>=◌, Suspended, TickResult, TickState,
  tick_graph,
}

pub data RunStatus : Type 0 where
  queued running waiting succeeded failed cancelled timed_out : RunStatus

-- `TERMINAL_RUN_STATUSES.has(status)`
abbrev pub is_over : RunStatus → Bool
is_over succeeded = true
is_over failed = true
is_over cancelled = true
is_over timed_out = true
is_over _ = false

pub data RunTrigger : Type 0 where
  manual scheduled event webhook api automation : RunTrigger

pub record AutomationRun : Type 0 where
  pub id : String
  pub organization_id : String
  pub workspace_id : String
  pub automation_id : String
  pub automation_version_id : String
  pub trigger : RunTrigger
  pub created_by_id : Option String
  pub parent_run_id : Option String
  pub status : RunStatus
  pub attempt : ℕ
  pub started_at : Option ℕ
  pub finished_at : Option ℕ
  pub resume_at : Option ℕ
  pub input : Option Scope
  pub output : Option Json
  pub error : Option NodeError
  pub variables : Scope
  pub node_states : NodeStates

abbrev pub is_member : String → List String → Bool
is_member id ids = any (λ other. str_eq other id) ids

unfoldable pub top_nodes : AutomationGraph → List AutomationNode
unfolding collect_subordinate_node_ids
top_nodes graph =
    let inner = collect_subordinate_node_ids graph.nodes in
    select (λ node. not (is_member node.id inner)) graph.nodes

unfoldable pub top_edges : AutomationGraph → List AutomationEdge
unfolding collect_subordinate_node_ids
top_edges graph =
    let inner = collect_subordinate_node_ids graph.nodes in
    select (λ edge. not (is_member edge.source inner) && not (is_member edge.target inner))
      graph.edges

abbrev pub pending_state : NodeState
pending_state = record { status = NodeStatus.pending; output = null; error = none }

-- The states of the nodes that have none yet.
unfoldable pub fill : List AutomationNode → NodeStates → NodeStates
fill [] states = states
fill (node ∷ nodes) states = elim (lookup node.id states) [
  | none ↦ fill nodes (insert node.id pending_state states)
  | some state ↦ fill nodes states
]

abbrev pub resumed_state : NodeState
resumed_state = record {
  status = NodeStatus.succeeded;
  output = obj (Fields.field "resumed" (bool true) Fields.end);
  error = none;
}

abbrev pub is_wait : NodeData → Bool
is_wait (NodeData.wait delay until) = true
is_wait _ = false

abbrev pub is_waiting : Option NodeState → Bool
is_waiting none = false
is_waiting (some state) = elim state.status [ NodeStatus.waiting ↦ true | _ ↦ false ]

-- The wait nodes that wait are over.
unfoldable pub resume_waits : List AutomationNode → NodeStates → NodeStates
resume_waits [] states = states
resume_waits (node ∷ nodes) states =
    if is_wait node.data_of && is_waiting (lookup node.id states)
    then resume_waits nodes (insert node.id resumed_state states)
    else resume_waits nodes states

-- `ctx.results`: the outputs of the nodes that have succeeded.
unfoldable pub results_of : NodeStates → Scope
results_of [] = []
results_of ((id, state) ∷ states) = elim state.status [
  | NodeStatus.succeeded ↦ (id, some state.output) ∷ results_of states
  | _ ↦ results_of states
]

abbrev pub or_empty : Option Scope → Scope
or_empty none = []
or_empty (some scope) = scope

unfoldable pub context_of : AutomationRun → NodeStates → VariableContext
unfolding create_empty_variable_context results_of
context_of run states =
    record (create_empty_variable_context run.organization_id run.workspace_id none) {
      context = or_empty run.input;
      form = or_empty run.input;
      workflow = run.variables;
      results = results_of states;
    }

-- `nodeStates.get(id)!`, of a node that `fill` has given a state.
abbrev pub state_of : AutomationNode → NodeStates → NodeState
state_of node states = elim (lookup node.id states) [ none ↦ pending_state | some state ↦ state ]

unfoldable pub is_halting_failure : NodeStates → AutomationNode → Bool
is_halting_failure states node =
    let state = state_of node states in
    is_failed state.status && not (has_policy "alternative_branch" state.error)

-- `nodes.find(test)`
unfoldable pub find : (AutomationNode → Bool) → List AutomationNode → Option AutomationNode
find test [] = none
find test (node ∷ nodes) = if test node then some node else find test nodes

abbrev pub is_end : AutomationNode → Bool
is_end node = elim node.data_of [ NodeData.end ↦ true | _ ↦ false ]

unfoldable pub outputs_of : List AutomationNode → NodeStates → Fields
outputs_of [] states = Fields.end
outputs_of (node ∷ nodes) states =
    Fields.field node.id (state_of node states).output (outputs_of nodes states)

unfoldable pub output_of : List AutomationNode → NodeStates → Json
unfolding find outputs_of
output_of nodes states = elim (find is_end nodes) [
  | some node ↦ (state_of node states).output
  | none ↦ obj (outputs_of nodes states)
]

-- The row with the context that a tick leaves.
abbrev pub with_context : TickState → AutomationRun → AutomationRun
with_context t run = record run { variables = t.ctx.workflow; node_states = t.states }

-- What follows the tick: the row is suspended, failed, left as it is or finished.
unfoldable pub conclude :
    List AutomationNode → ℕ → AutomationRun → TickState → Option Suspended → AutomationRun
unfolding is_halting_failure find output_of
conclude nodes now run t (some s) = record (with_context t run) {
  status = RunStatus.waiting;
  resume_at = some s.resume_at;
}
conclude nodes now run t none = elim (find (is_halting_failure t.states) nodes) [
  | some node ↦ record (with_context t run) {
    status = RunStatus.failed;
    finished_at = some now;
    error = (state_of node t.states).error;
  }
  | none ↦
      if every (λ node. is_terminal (state_of node t.states).status) nodes
      then record (with_context t run) {
        status = RunStatus.succeeded;
        finished_at = some now;
        output = some (output_of nodes t.states);
      }
      else with_context t run
]

abbrev pub or_now : ℕ → Option ℕ → ℕ
or_now now none = now
or_now now (some time) = time

abbrev pub start : ℕ → AutomationRun → AutomationRun
start now run = record run {
  status = RunStatus.running;
  started_at = some (or_now now run.started_at);
  attempt = suc run.attempt;
}

abbrev pub is_queued : RunStatus → Bool
is_queued queued = true
is_queued _ = false

module _ {W : Type 0} (dispatch : AutomationNode → TickState → W → Run W DispatchResult)
    (poll : AutomationNode → TickState → W → Run W PollResult) (save : AutomationRun → W → W) where
  -- A run that is not over, from the point where its status is known to be past QUEUED.
  unfoldable pub progress : AutomationGraph → ℕ → AutomationRun → W → Run W AutomationRun
  unfolding top_nodes top_edges fill resume_waits context_of tick_graph conclude
  progress graph now run w =
      let nodes = top_nodes graph in
      let states = resume_waits nodes (fill nodes run.node_states) in
      tick_graph dispatch poll nodes (top_edges graph)
        (record { states = states; ctx = context_of run states }) w
      >>= λ ticked w'.
          let run' = conclude nodes now run ticked.0 ticked.1.suspended in done run' (save run' w')

  unfoldable pub advance_automation_run :
      AutomationGraph → ℕ → AutomationRun → W → Run W AutomationRun
  unfolding progress
  advance_automation_run graph now run w =
      if is_over run.status
      then done run w
      else if is_queued run.status
      then progress graph now (start now run) (save (start now run) w)
      else progress graph now run w
