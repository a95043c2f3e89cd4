-- ===== src/Tests/Nodes.antt =====
-- Nodes of an automation (src/lib/automation/executor/job-executor.ts).
use provence.Prelude.{
  map, true, ◌≡◌, refl, String, false, none, some, List, [], ◌∷◌, lookup, insert,
  lookup-insert_self,
}
use provence.Prelude.Int.{pos}
use provence.Json.{num, arr, nil, cons, null, str, end}
use provence.Workflow.Rule.{Expr}
use provence.Workflow.VariableContext.{VariableContext, create_empty_variable_context}
use provence.Automation.Graph.{
  ActionNodeData, LoopNodeData, MapNodeData, ErrorPolicy, NodeData, AutomationNode, AutomationEdge,
  AutomationGraph,
}
use provence.Automation.RunState.{NodeStatus, NodeState, is_node_ready, compute_ready_nodes, ready}
use provence.Automation.Retry.{or_default}
use provence.Automation.Tick.{
  DispatchResult, in_flight, done, after_dispatch, TickState, tick_graph,
}
use provence.Automation.Tick.Phases.{Ensures}
use provence.Automation.Tick.World.{Leaves}
use provence.Automation.Job.{AutomationJob, JobStatus}
use provence.Automation.Nodes.{
  RunRef, AutomationStatus, Automation, Database, Environment, dispatch_action_node,
  poll_action_node, poll_job, new_job, field_of,
}
use provence.Automation.Nodes.Action.{
  NewJob, dispatch_action_node-poll_action_node, Routes, poll_job-Routes,
}
use provence.Automation.Nodes.Body.{dispatch_body}
use provence.Automation.Nodes.Loop.{LoopState, start_loop, poll_loop}
use provence.Automation.Nodes.Parallel.{Slot, new_slot, slot_done, poll_map}
use provence.Automation.Nodes.Child.{
  dispatch_child, find_active, create_automation_run, poll_child, child_answer, queued_run,
  child_of,
}
use provence.Automation.Run.{AutomationRun}
use provence.Automation.Nodes.Child.Laws.{NewChild, dispatch_child-poll_child}
use provence.Automation.Nodes.Top.{
  World, dispatch_kind, poll_kind, dispatch_top_node, poll_top_node, join_settled, dispatch_join,
}
use provence.Automation.Nodes.Top.Join.{dispatch_join_ignored}
use provence.Tests.Rules.{host}
use provence.Tests.Job.{job}

abbrev env : Environment
env = record {
  host = host;
  stringify = λ v. "…";
  fresh_id = λ n. "new";
  agents = record {
    find_director = λ workspace_id db. none;
    create_agent_run = λ director input db. done "agent" db;
    execute_agent_run = λ id db. db;
  };
  run_refused = λ organization_id db. none;
}

abbrev run : RunRef
run = record {
  id = "r";
  organization_id = "o";
  workspace_id = "w";
  automation_id = "a";
  created_by_id = none;
}

abbrev target : Automation
target = record {
  id = "b";
  workspace_id = some "w";
  key = "child";
  status = AutomationStatus.active;
  active_version_id = some "v2";
}

abbrev db : Database
db = record { jobs = []; runs = []; automations = target ∷ []; notifications = []; created = 0 }

abbrev ctx : VariableContext
ctx = create_empty_variable_context "o" "w" none

abbrev mail : ActionNodeData
mail = record {
  job_type = "mail";
  input = none;
  timeout_ms = none;
  priority = none;
  retry_policy = none;
  lock_key = none;
  concurrency_key = none;
  concurrency_limit = none;
  rate_limit_key = none;
  on_error = some ErrorPolicy.ignore;
  compensate_job_type = none;
}

abbrev node : String → NodeData → AutomationNode
node id d = record { id = id; data_of = d }

abbrev state : NodeStatus → NodeState
state s = record { status = s; output = null; error = none }

abbrev before : TickState
before = record { states = []; ctx = ctx }

-- The row that the action node creates.
abbrev row : AutomationJob
row = new_job env run 5 mail end "n" "new"

abbrev after_creation : Database
after_creation = record db { jobs = ("new", row) ∷ []; created = 1 }

abbrev answer : DispatchResult
answer = in_flight (some (field_of "jobId" (str "new")))

creates : dispatch_action_node env run 5 mail ctx "n" db ≡ done answer after_creation
unfolding dispatch_action_node insert
creates = refl

dispatch_action_node-poll_action_node_example :
    NewJob env run 5 mail "new" answer after_creation
    × (poll_action_node env run 5 "n" mail
          (after_dispatch (node "n" (NodeData.action mail)) before answer).0.states
          after_creation
        ≡ poll_job env run 5 ErrorPolicy.ignore "n" row after_creation)
unfolding insert
dispatch_action_node-poll_action_node_example =
    dispatch_action_node-poll_action_node env run 5 (node "n" (NodeData.action mail)) mail "n"
      before answer db after_creation after_creation
      (after_dispatch (node "n" (NodeData.action mail)) before answer).0.states row refl creates
      refl (lookup-insert_self "new" row [])

abbrev cancelled_job : AutomationJob
cancelled_job = record job { status = JobStatus.cancelled }

poll_job-Routes_example :
    Ensures
      (Routes ErrorPolicy.ignore (node "n" (NodeData.action mail)) before)
      (poll_job env run 5 ErrorPolicy.ignore "n" cancelled_job db)
poll_job-Routes_example =
    poll_job-Routes env run 5 ErrorPolicy.ignore (node "n" (NodeData.action mail)) cancelled_job
      before db refl refl

abbrev child : AutomationRun
child = queued_run (child_of run ("b", "v2") end) "new"

abbrev after_child : Database
after_child = record db { runs = ("new", child) ∷ []; created = 1 }

abbrev child_answered : DispatchResult
child_answered = in_flight (some (field_of "childRunId" (str "new")))

creates_child : dispatch_child env run "child" none ctx db ≡ done child_answered after_child
unfolding dispatch_child find_active create_automation_run insert
creates_child = refl

dispatch_child-poll_child_example :
    NewChild run "child" (target ∷ []) "new" child_answered after_child
    × (poll_child "n"
          (after_dispatch
            (node "n" (NodeData.subautomation "child" none))
            before
            child_answered).0.states
          after_child
        ≡ done (child_answer "new" child) after_child)
unfolding insert
dispatch_child-poll_child_example =
    dispatch_child-poll_child env run (node "n" (NodeData.subautomation "child" none)) "child" none
      before child_answered db after_child after_child
      (after_dispatch (node "n" (NodeData.subautomation "child" none)) before
        child_answered).0.states
      child refl creates_child refl (lookup-insert_self "new" child [])

abbrev two : Expr
two = Expr.literal (some (arr (cons (num (pos 1)) (cons (num (pos 2)) nil))))

abbrev loop : LoopNodeData
loop = record {
  collection_expr = two;
  item_var = "it";
  body_node_ids = "n" ∷ [];
  max_iterations = some 5;
}

abbrev graph : AutomationGraph
graph = record { nodes = node "n" (NodeData.action mail) ∷ []; edges = [] }

abbrev begun : LoopState
begun = start_loop (num (pos 1) ∷ num (pos 2) ∷ [])

abbrev per_item : MapNodeData
per_item = record {
  collection_expr = two;
  item_var = "it";
  body_node_ids = "n" ∷ [];
  concurrency_limit = some 1;
  max_items = none;
}

abbrev slots : List Slot
slots = new_slot (num (pos 1)) ∷ new_slot (num (pos 2)) ∷ []

abbrev body : List AutomationNode
body = node "n" (NodeData.action mail) ∷ []

abbrev world : World
world = record { db = db; loops = []; maps = [] }

-- A loop and a map whose body, an end, is over at once, both started and with two items.
abbrev graph_now : AutomationGraph
graph_now = record {
  nodes =
      node "l" (NodeData.loop loop) ∷ node "m" (NodeData.map per_item) ∷ node "n" NodeData.end ∷ [];
  edges = [];
}

abbrev top : List AutomationNode
top = node "l" (NodeData.loop loop) ∷ node "m" (NodeData.map per_item) ∷ []

abbrev started : TickState
started = record {
  states = ("l", state NodeStatus.running) ∷ ("m", state NodeStatus.running) ∷ [];
  ctx = ctx;
}

abbrev world_now : World
world_now = record { db = db; loops = ("l", begun) ∷ []; maps = ("m", slots) ∷ [] }

abbrev bodies : String → List String
bodies id = "n" ∷ []

-- The tick runs both to their end.
both_end :
    Leaves
      (λ w. map slot_done (or_default [] (lookup "m" w.maps)) ≡ true ∷ true ∷ [])
      (tick_graph
        (dispatch_top_node env graph_now run 5)
        (poll_top_node env graph_now run 5)
        top
        []
        started
        world_now)
unfolding tick_graph compute_ready_nodes is_node_ready lookup insert poll_kind dispatch_kind
    poll_loop poll_map dispatch_body
both_end = refl

abbrev ignored : NodeState
ignored = record {
  status = NodeStatus.skipped;
  output = null;
  error = some (record { message = "boom"; policy = some "ignore" });
}

abbrev into_join : AutomationEdge
into_join = record { id = "e"; source = "n"; target = "j"; branch = none }

dispatch_join_ignored_example :
    (is_node_ready (node "j" (NodeData.join none)) (into_join ∷ []) (("n", ignored) ∷ [])
      ≡ some ready)
    × (dispatch_join none
          (node "j" (NodeData.join none))
          (into_join ∷ [])
          (("n", ignored) ∷ [])
          world
        ≡ done (DispatchResult.settled (join_settled none false)) world)
unfolding lookup
dispatch_join_ignored_example =
    dispatch_join_ignored (node "j" (NodeData.join none)) none (into_join ∷ []) into_join []
      (("n", ignored) ∷ []) world refl refl ((ignored, refl, refl, refl, refl), tt)
