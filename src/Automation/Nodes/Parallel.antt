-- ===== src/Automation/Nodes/Parallel.antt =====
-- Map nodes: `dispatchMapNode` and `pollMapNode` of src/lib/automation/executor/job-executor.ts. The
-- bodies of several items run side by side, at most `concurrencyLimit` at a time. The source keeps
-- `items`, `subs`, `done` and `results` by index; here they are the columns of one list of slots.
pub mod Slots
pub mod Start
pub mod Laws
use Prim.Native.String.{◌++◌}
use provence.Prelude.{
  ℕ, zero, suc, ◌-◌, String, Bool, true, false, not, ◌&&◌, ◌||◌, Option, none, some, List, [], ◌∷◌,
  ◌++◌ as append, map, length, take, count_if, ltb, ◌==◌, if◌then◌else◌,
}
use provence.Json.{Json, Items, nil, cons, arr, or_null}
use provence.Workflow.VariableContext.{VariableContext}
use provence.Automation.Graph.{AutomationNode, AutomationEdge, AutomationGraph, MapNodeData}
use provence.Automation.RunState.{NodeStates, is_subgraph_settled, subgraph_has_failure}
use provence.Automation.Tick.{PollResult, pending, Run, done, ◌>>=◌, TickResult, TickState}
use provence.Automation.Retry.{or_default}
use provence.Automation.Nodes.{
  RunRef, Database, Environment, settle_with, fail_with, field_of, json_items, resolve_collection,
}
use provence.Automation.Nodes.Loop.{
  nth, body_nodes, body_edges, item_context, body_outputs, number_text, tick_body,
}

pub record Slot : Type 0 where
  pub item : Json
  pub sub : Option NodeStates
  pub is_done : Bool
  pub result : Option Json

abbrev pub new_slot : Json → Slot
new_slot item = record { item = item; sub = none; is_done = false; result = none }

abbrev pub is_started : Slot → Bool
is_started slot = elim slot.sub [ none ↦ false | some states ↦ true ]

abbrev pub is_active : Slot → Bool
is_active slot = is_started slot && not slot.is_done

abbrev pub slot_done : Slot → Bool
slot_done slot = slot.is_done

-- `active`: the items that are started and not done, by index.
unfoldable pub active_indices : List Slot → List ℕ
active_indices [] = []
active_indices (slot ∷ slots) =
    let later = map suc (active_indices slots) in if is_active slot then 0 ∷ later else later

-- The loop that starts items while there is room, with the indices of those that it starts.
unfoldable pub start_items : ℕ → List Slot → List Slot × List ℕ
start_items zero slots = (slots, [])
start_items (suc room) [] = ([], [])
start_items (suc room) (slot ∷ slots) =
    let (skipped, skipped_new) = start_items (suc room) slots in
    let (started, started_new) = start_items room slots in
    if is_started slot || slot.is_done
    then (slot ∷ skipped, map suc skipped_new)
    else (record slot { sub = some [] } ∷ started, 0 ∷ map suc started_new)

unfoldable pub update : ℕ → Slot → List Slot → List Slot
update i slot [] = []
update zero slot (old ∷ slots) = slot ∷ slots
update (suc i) slot (old ∷ slots) = old ∷ update i slot slots

abbrev pub result_of : Slot → Json
result_of slot = or_null slot.result

abbrev pub map_output : List Slot → Json
map_output slots = field_of "results" (arr (json_items (map result_of slots)))

abbrev pub all_done : List Slot → Bool
all_done slots = count_if slot_done slots == length slots

-- What the loop over the active items carries.
pub record Progress : Type 0 where
  pub slots : List Slot
  pub progressed : Bool
  pub failure : Option String

abbrev pub item_failure : String → String → String
item_failure index_text id = "Élément " ++ index_text ++ " du \"map\" \"" ++ id ++ "\" en échec."

-- What follows the tick of one item's body.
unfoldable pub after_item :
    String → String → ℕ → List AutomationNode → Slot → Progress → TickState × TickResult → Progress
unfolding is_subgraph_settled subgraph_has_failure update
after_item index_text id index nodes slot p ticked =
    let states = ticked.0.states in
    let ran = record slot { sub = some states } in
    let moved = p.progressed || ticked.1.progressed in
    if is_subgraph_settled nodes states
    then if subgraph_has_failure nodes states
      then record {
        slots = update index ran p.slots;
        progressed = moved;
        failure = some (item_failure index_text id);
      }
      else record {
        slots =
            update index (record ran { is_done = true; result = some (body_outputs nodes states) })
              p.slots;
        progressed = true;
        failure = none;
      }
    else record { slots = update index ran p.slots; progressed = moved; failure = none }

abbrev pub map_answer : Progress → PollResult
map_answer p = elim p.failure [
  | some message ↦ PollResult.settled (fail_with message none)
  | none ↦
      if all_done p.slots
      then PollResult.settled (settle_with (some (map_output p.slots)))
      else pending p.progressed
]

abbrev pub states_of : Slot → NodeStates
states_of slot = elim slot.sub [ none ↦ [] | some states ↦ states ]

-- `data.maxItems && items.length > data.maxItems`
abbrev cut : Option ℕ → List Json → List Json
cut none items = items
cut (some zero) items = items
cut (some (suc n)) items = if ltb (suc n) (length items) then take (suc n) items else items

module _ (e : Environment) (run : RunRef) (now : ℕ) where
  unfoldable pub dispatch_map : {W : Type 0} → MapNodeData → VariableContext → W → Run W (List Slot)
  unfolding resolve_collection
  dispatch_map d ctx w = resolve_collection e d.collection_expr ctx w >>= λ items w'.
      done (map new_slot (cut d.max_items items)) w'

  module _ (id : String) (d : MapNodeData) (graph : AutomationGraph) (ctx : VariableContext) where
    -- One round of the loop over the active items.
    unfoldable pub run_item : ℕ → Progress → Database → Run Database Progress
    unfolding nth tick_body after_item
    run_item index p db = elim (nth index p.slots) [
      | none ↦ done p db
      | some slot ↦
          let nodes = body_nodes d.body_node_ids graph in
          tick_body e run now id index nodes (body_edges d.body_node_ids graph) (states_of slot)
            (item_context d.item_var (some slot.item) ctx) db
          >>= λ ticked db'.
              done (after_item (number_text e run now index) id index nodes slot p ticked) db'
    ]

    -- `for (const index of active)`, which a failure ends.
    unfoldable pub run_items : List ℕ → Progress → Database → Run Database Progress
    unfolding run_item
    run_items [] p db = done p db
    run_items (index ∷ indices) p db = run_item index p db >>= λ p' db'. elim p'.failure [
      | some message ↦ done p' db'
      | none ↦ run_items indices p' db'
    ]

    -- With the slots as they stand after the poll.
    unfoldable pub poll_map : List Slot → Database → Run Database (PollResult × List Slot)
    unfolding active_indices start_items run_items
    poll_map slots db =
        let active = active_indices slots in
        let room = or_default (length slots) d.concurrency_limit - length active in
        let started = start_items room slots in
        if length slots == 0
        then done (PollResult.settled (settle_with (some (field_of "results" (arr nil)))), slots) db
        else if all_done slots
        then done (PollResult.settled (settle_with (some (map_output slots))), slots) db
        else run_items (append active started.1)
            (record { slots = started.0; progressed = false; failure = none }) db
          >>= λ p db'. done (map_answer p, p.slots) db'
