-- ===== src/Automation/Nodes/Top.antt =====
-- The nodes at the top of a graph: `dispatchTopNode` and `pollTopNode` of
-- src/lib/automation/executor/job-executor.ts. The world is the database with the progress of the
-- loops and maps of the run.
pub mod Invariant
pub mod Laws
pub mod Join
use provence.Prelude.{
  ℕ, zero, suc, ◌+◌, String, Bool, true, false, Option, none, some, List, [], ◌∷◌, Map, lookup,
  insert, if◌then◌else◌, str_eq,
}
use provence.Prelude.Int.{ℤ, pos_part}
use provence.Json.{Json, obj, str}
use provence.Workflow.Rule.{Expr}
use provence.Workflow.VariableContext.{VariableContext}
use provence.Workflow.Path.{scope_fields}
use provence.Workflow.Evaluator.{resolve_expr}
use provence.Automation.Graph.{AutomationNode, AutomationEdge, AutomationGraph, JoinMode, NodeData}
use provence.Automation.RunState.{NodeStatus, NodeState, NodeStates, incoming_of, some_edge}
use provence.Automation.Tick.{
  Settlement, Settled, DispatchResult, in_flight, suspend, PollResult, pending, Run, done, thrown,
  ◌>>=◌, TickState, type_error,
}
use provence.Automation.Nodes.{
  RunRef, Database, Environment, settle_with, field_of, dispatch_condition, dispatch_switch,
  dispatch_end, dispatch_action_node, poll_action_node,
}
use provence.Automation.Nodes.Loop.{LoopState, dispatch_loop, poll_loop}
use provence.Automation.Nodes.Parallel.{Slot, dispatch_map, poll_map}
use provence.Automation.Nodes.Child.{dispatch_child, poll_child}

pub record World : Type 0 where
  pub db : Database
  pub loops : Map LoopState
  pub maps : Map (List Slot)

-- A step on the database, as a step on the world.
abbrev pub lift : {A : Type 0} → Run Database A → World → Run World A
lift (done a db) w = done a (record w { db = db })
lift (thrown message db) w = thrown message (record w { db = db })

abbrev pub on_db : {A : Type 0} → (Database → Run Database A) → World → Run World A
on_db step w = lift (step w.db) w

abbrev pub save_loop : String → LoopState → World → World
save_loop id s w = record w { loops = insert id s w.loops }

abbrev pub save_map : String → List Slot → World → World
save_map id slots w = record w { maps = insert id slots w.maps }

abbrev pub has_succeeded : AutomationEdge → NodeState → Bool
has_succeeded edge state = elim state.status [ NodeStatus.succeeded ↦ true | _ ↦ false ]

abbrev pub mode_name : Option JoinMode → String
mode_name (some JoinMode.all) = "all"
mode_name _ = "any"

abbrev pub join_settled : Option JoinMode → Bool → Settled
join_settled mode satisfied = record {
  status = if satisfied then Settlement.succeeded else Settlement.skipped;
  output = some (field_of "mode" (str (mode_name mode)));
  error = none;
}

-- `incoming.length === 0 || incoming.some(…)`
unfoldable pub join_satisfied : List AutomationEdge → NodeStates → Option Bool
unfolding some_edge
join_satisfied [] states = some true
join_satisfied (edge ∷ incoming) states = some_edge has_succeeded (edge ∷ incoming) states

unfoldable pub dispatch_join :
    {W : Type 0}
    → Option JoinMode
    → AutomationNode
    → List AutomationEdge
    → NodeStates
    → W
    → Run W DispatchResult
unfolding join_satisfied
dispatch_join mode node edges states w = elim (join_satisfied (incoming_of node edges) states) [
  | none ↦ thrown type_error w
  | some satisfied ↦ done (DispatchResult.settled (join_settled mode satisfied)) w
]

module _ (e : Environment) where
  -- `String(value)`, of which `new Date` makes a time. A date that is none makes the write of the run
  -- throw, after nothing else; here the step throws. A time before 1970 is written as 0.
  abbrev text_value : Option Json → Option Json
  text_value none = some (str "undefined")
  text_value (some (str s)) = some (str s)
  text_value (some v) = some (str (e.host.text_of v))

  abbrev pub resume_by : {W : Type 0} → Option ℤ → W → Run W DispatchResult
  resume_by none w = thrown "Invalid Date" w
  resume_by (some time) w = done (suspend (pos_part time)) w

  -- A wait without a delay, or with a delay of 0, that has no `until` ends at once.
  unfoldable pub dispatch_wait :
      {W : Type 0} → ℕ → Option ℕ → Option Expr → VariableContext → W → Run W DispatchResult
  unfolding resolve_expr
  dispatch_wait now (some (suc delay)) until ctx w = done (suspend (now + suc delay)) w
  dispatch_wait now _ none ctx w = done (suspend now) w
  dispatch_wait now _ (some until) ctx w =
      resume_by (e.host.time_of (text_value (resolve_expr e.host ctx until))) w

  module _ (graph : AutomationGraph) (run : RunRef) (now : ℕ) where
    unfoldable pub dispatch_kind :
        NodeData → AutomationNode → TickState → World → Run World DispatchResult
    unfolding dispatch_condition dispatch_switch dispatch_join dispatch_wait dispatch_action_node
        dispatch_loop dispatch_map dispatch_child
    dispatch_kind (NodeData.trigger key filter) node t w =
        done (DispatchResult.settled (settle_with (some (obj (scope_fields t.ctx.context))))) w
    dispatch_kind (NodeData.condition rule) node t w = dispatch_condition e rule t.ctx w
    dispatch_kind (NodeData.switch cases) node t w = dispatch_switch e cases t.ctx w
    dispatch_kind (NodeData.join mode) node t w = dispatch_join mode node graph.edges t.states w
    dispatch_kind NodeData.end node t w = dispatch_end e t.ctx w
    dispatch_kind (NodeData.wait delay until) node t w = dispatch_wait now delay until t.ctx w
    dispatch_kind (NodeData.action d) node t w =
        on_db (dispatch_action_node e run now d t.ctx node.id) w
    dispatch_kind (NodeData.loop d) node t w = dispatch_loop e run now node.id d t.ctx w >>= λ s w'.
        done (in_flight none) (save_loop node.id s w')
    dispatch_kind (NodeData.map d) node t w = dispatch_map e run now d t.ctx w >>= λ slots w'.
        done (in_flight none) (save_map node.id slots w')
    dispatch_kind (NodeData.subautomation key input) node t w =
        on_db (dispatch_child e run key input t.ctx) w

    abbrev pub dispatch_top_node : AutomationNode → TickState → World → Run World DispatchResult
    dispatch_top_node node t w = dispatch_kind node.data_of node t w

    unfoldable pub poll_kind : NodeData → AutomationNode → TickState → World → Run World PollResult
    unfolding poll_action_node poll_loop poll_map poll_child
    poll_kind (NodeData.action d) node t w = on_db (poll_action_node e run now node.id d t.states) w
    poll_kind (NodeData.loop d) node t w = elim (lookup node.id w.loops) [
      | none ↦ done (pending false) w
      | some s ↦ on_db (poll_loop e run now node.id d graph t.ctx s) w >>= λ p w'.
          done p.0 (save_loop node.id p.1 w')
    ]
    poll_kind (NodeData.map d) node t w = elim (lookup node.id w.maps) [
      | none ↦ done (pending false) w
      | some slots ↦ on_db (poll_map e run now node.id d graph t.ctx slots) w >>= λ p w'.
          done p.0 (save_map node.id p.1 w')
    ]
    poll_kind (NodeData.subautomation key input) node t w = on_db (poll_child node.id t.states) w
    poll_kind _ node t w = done (pending false) w

    abbrev pub poll_top_node : AutomationNode → TickState → World → Run World PollResult
    poll_top_node node t w = poll_kind node.data_of node t w
