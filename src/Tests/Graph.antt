-- ===== src/Tests/Graph.antt =====
-- src/lib/automation/executor on small graphs.
use provence.Prelude.{
  ℕ, ◌≡◌, ◌≢◌, ◌↔◌, ◌⊎◌, refl, ◌+◌, [], ◌∷◌, List, String, false, some, none, lookup, insert, All,
  arith, eq_iff,
}
use provence.Json.{null}
use provence.Workflow.VariableContext.{create_empty_variable_context}
use provence.Automation.Graph.{AutomationNode, AutomationEdge, NodeData}
use provence.Automation.RunState.{
  NodeStatus, NodeState, NodeStates, ready, wait, is_node_ready, edge_is_satisfied,
  compute_ready_nodes,
}
use provence.Automation.RunState.Keeps.{Keeps}
use provence.Automation.RunState.Waits.{IsSettledOrBlocked}
use provence.Automation.RunState.Edges.{is_node_ready_iff, join_any_stuck, MayRun}
use provence.Automation.Tick.{
  DispatchResult, PollResult, succeeded, suspend, Run, done, TickState, tick_graph,
}
use provence.Automation.Tick.Phases.{Ensures}
use provence.Automation.Tick.Laws.{tick_graph-Keeps, tick_graph_quiet}

abbrev node : String → NodeData → AutomationNode
node id d = record { id = id; data_of = d }

abbrev edge : String → String → AutomationEdge
edge a b = record { id = a; source = a; target = b; branch = none }

abbrev state : NodeStatus → NodeState
state s = record { status = s; output = null; error = none }

abbrev nodes : List AutomationNode
nodes = node "a" (NodeData.trigger "t" none) ∷ node "b" NodeData.end ∷ []

abbrev edges : List AutomationEdge
edges = edge "a" "b" ∷ []

abbrev start : TickState
start = record {
  states = ("a", state NodeStatus.pending) ∷ ("b", state NodeStatus.pending) ∷ [];
  ctx = create_empty_variable_context "o" "w" none;
}

-- Every node succeeds at once, and the world counts the calls.
abbrev succeed_now : AutomationNode → TickState → ℕ → Run ℕ DispatchResult
succeed_now n t w =
    done (DispatchResult.settled (record { status = succeeded; output = none; error = none }))
      (w + 1)

abbrev wait_now : AutomationNode → TickState → ℕ → Run ℕ DispatchResult
wait_now n t w = done (suspend 7) (w + 1)

abbrev poll_nothing : AutomationNode → TickState → ℕ → Run ℕ PollResult
poll_nothing n t w = done (PollResult.pending false) w

run_two :
    Ensures
      (λ r. r.0.states ≡ ("a", state NodeStatus.succeeded) ∷ ("b", state NodeStatus.succeeded) ∷ [])
      (tick_graph succeed_now poll_nothing nodes edges start 0)
unfolding tick_graph compute_ready_nodes is_node_ready lookup insert
run_two = refl

a_not_b : ◌≢◌ {A = String} "a" "b"
a_not_b = ground (arith, eq_iff "a" "b")

tick_graph-Keeps_example :
    Ensures
      (λ r. Keeps start.states r.0.states)
      (tick_graph succeed_now poll_nothing nodes edges start 0)
tick_graph-Keeps_example =
    tick_graph-Keeps succeed_now poll_nothing nodes edges start 0 ((a_not_b, tt), (tt, tt))

abbrev blocked : TickState
blocked = record start {
  states = ("a", state NodeStatus.running) ∷ ("b", state NodeStatus.pending) ∷ [];
}

tick_graph_quiet_example :
    Ensures
      (λ r.
        r.1.suspended ≡ none
        → r.1.progressed ≡ false
        → (r.0 ≡ blocked) × All (IsSettledOrBlocked edges blocked.states) nodes)
      (tick_graph succeed_now poll_nothing nodes edges blocked 0)
tick_graph_quiet_example =
    tick_graph_quiet succeed_now poll_nothing nodes edges blocked 0 ((a_not_b, tt), (tt, tt))

abbrev settled_states : NodeStates
settled_states = ("a", state NodeStatus.succeeded) ∷ ("x", state NodeStatus.skipped) ∷ []

is_node_ready_iff_example :
    (is_node_ready (node "b" NodeData.end) edges settled_states ≡ some ready)
    ↔ ((edges ≡ []) ⊎ MayRun edges settled_states)
unfolding lookup
is_node_ready_iff_example =
    is_node_ready_iff (node "b" NodeData.end) edges settled_states (λ h. h)
      ((state NodeStatus.succeeded, refl), tt)

join_any_stuck_example :
    is_node_ready (node "j" (NodeData.join none)) (edge "x" "j" ∷ []) settled_states ≡ some wait
unfolding lookup edge_is_satisfied
join_any_stuck_example =
    join_any_stuck (node "j" (NodeData.join none)) none (edge "x" "j") [] settled_states
      settled_states refl (λ e. cc) ((state NodeStatus.skipped, refl, refl, refl), tt)
      (λ id s found final. found)
