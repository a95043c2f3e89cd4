-- ===== src/Automation/Nodes/Loop.antt =====
-- Loop nodes: `dispatchLoopNode` and `pollLoopNode` of src/lib/automation/executor/job-executor.ts. The
-- body runs once per item, in order; a poll ticks the body of the current item. The progress of loops
-- and maps is kept beside the database, in the run's context, which a call that throws does not save.
pub mod Laws
use Prim.Native.String.{◌++◌}
use provence.Prelude.{
  ℕ, zero, suc, String, Bool, true, false, ◌&&◌, Option, none, some, List, [], ◌∷◌, ◌++◌ as append,
  Map, lookup, insert, length, select, ltb, leb, if◌then◌else◌,
}
use provence.Prelude.Int.{pos}
use provence.Json.{Json, Fields, num, arr, obj, end, field}
use provence.Workflow.VariableContext.{VariableContext}
use provence.Workflow.Template.{with_field}
use provence.Automation.Graph.{AutomationNode, AutomationEdge, AutomationGraph, LoopNodeData}
use provence.Automation.RunState.{NodeStates, is_subgraph_settled, subgraph_has_failure}
use provence.Automation.Tick.{
  DispatchResult, in_flight, PollResult, pending, Run, done, thrown, ◌>>=◌, TickResult, TickState,
  tick_graph,
}
use provence.Automation.Retry.{or_default}
use provence.Automation.Run.{is_member, fill, outputs_of}
use provence.Automation.Nodes.{
  RunRef, Database, Environment, settle_with, fail_with, json_items, resolve_collection,
}
use provence.Automation.Nodes.Body.{dispatch_body_node, poll_body_node}

pub record LoopState : Type 0 where
  pub items : List Json
  pub index : ℕ
  pub results : List Json
  pub sub : NodeStates

abbrev pub max_loop_iterations_default : ℕ
max_loop_iterations_default = 1000

-- `array[i]`
unfoldable pub nth {ℓ} : {A : Type ℓ} → ℕ → List A → Option A
nth i [] = none
nth zero (a ∷ xs) = some a
nth (suc i) (a ∷ xs) = nth i xs

abbrev pub start_loop : List Json → LoopState
start_loop items = record { items = items; index = 0; results = []; sub = [] }

abbrev pub body_nodes : List String → AutomationGraph → List AutomationNode
body_nodes ids graph = select (λ node. is_member node.id ids) graph.nodes

abbrev pub body_edges : List String → AutomationGraph → List AutomationEdge
body_edges ids graph =
    select (λ edge. is_member edge.source ids && is_member edge.target ids) graph.edges

-- The context of the body for one item.
abbrev pub item_context : String → Option Json → VariableContext → VariableContext
item_context item_var item ctx = record ctx { workflow = insert item_var item ctx.workflow }

-- `Object.fromEntries(bodyNodes.map(…))`
abbrev pub body_outputs : List AutomationNode → NodeStates → Json
body_outputs nodes states = obj (outputs_of nodes states)

-- `{ item, results }`
abbrev pub result_row : Option Json → Json → Json
result_row item outputs = obj (with_field "item" item (field "results" outputs end))

abbrev pub loop_output : LoopState → Json
loop_output s = obj (
    field "iterationCount" (num (pos (length s.results)))
      (field "results" (arr (json_items s.results)) end))

-- The answer to a poll, and the loop as it stands after it.
abbrev pub LoopPolled : Type 0
LoopPolled = PollResult × LoopState

-- What follows the tick of the current item's body.
unfoldable pub after_iteration :
    String → String → List AutomationNode → LoopState → TickState × TickResult → LoopPolled
unfolding is_subgraph_settled subgraph_has_failure outputs_of nth
after_iteration index_text id nodes s ticked =
    let states = ticked.0.states in
    if is_subgraph_settled nodes states
    then if subgraph_has_failure nodes states
      then (
        PollResult.settled (
            fail_with ("Itération " ++ index_text ++ " de la boucle \"" ++ id ++ "\" en échec.")
              none),
        record s { sub = states },
      )
      else (
        pending true,
        record {
          items = s.items;
          index = suc s.index;
          results =
              append s.results (result_row (nth s.index s.items) (body_outputs nodes states) ∷ []);
          sub = [];
        },
      )
    else (pending ticked.1.progressed, record s { sub = states })

module _ (e : Environment) (run : RunRef) (now : ℕ) where
  unfoldable pub dispatch_loop :
      {W : Type 0} → String → LoopNodeData → VariableContext → W → Run W LoopState
  unfolding resolve_collection
  dispatch_loop id d ctx w = resolve_collection e d.collection_expr ctx w >>= λ items w'.
      let limit = or_default max_loop_iterations_default d.max_iterations in
      if ltb limit (length items)
      then thrown
          ("La collection de la boucle \""
            ++ id
            ++ "\" dépasse le nombre maximal d'itérations autorisé ("
            ++ e.host.text_of (num (pos limit))
            ++ ").")
          w'
      else done (start_loop items) w'

  abbrev pub number_text : ℕ → String
  number_text n = e.host.text_of (num (pos n))

  -- One tick of the body for one item. The callbacks of the body read the states of the tick.
  unfoldable pub tick_body :
      String
      → ℕ
      → List AutomationNode
      → List AutomationEdge
      → NodeStates
      → VariableContext
      → Database
      → Run Database (TickState × TickResult)
  unfolding tick_graph fill
  tick_body id index nodes edges sub ctx db =
      tick_graph
        (λ node t db'.
          dispatch_body_node e run now node t.ctx
            (id ++ "::" ++ number_text index ++ "::" ++ node.id) db')
        (λ node t db'. poll_body_node e run now node t.states db') nodes edges
        (record { states = fill nodes sub; ctx = ctx }) db

  unfoldable pub poll_loop :
      String
      → LoopNodeData
      → AutomationGraph
      → VariableContext
      → LoopState
      → Database
      → Run Database LoopPolled
  unfolding tick_body after_iteration nth
  poll_loop id d graph ctx s db =
      let nodes = body_nodes d.body_node_ids graph in
      let edges = body_edges d.body_node_ids graph in
      if leb (length s.items) s.index
      then done (PollResult.settled (settle_with (some (loop_output s))), s) db
      else tick_body id s.index nodes edges s.sub
          (item_context d.item_var (nth s.index s.items) ctx) db
        >>= λ ticked db'. done (after_iteration (number_text s.index) id nodes s ticked) db'
