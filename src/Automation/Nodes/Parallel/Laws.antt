-- ===== src/Automation/Nodes/Parallel/Laws.antt =====
-- What polls do to the slots of a map node (src/lib/automation/executor/job-executor.ts,
-- `pollMapNode`): the bound on active items, and the results.
use provence.Prelude.{
  ℕ, ◌-◌, ◌≤◌, ◌≡◌, String, false, none, some, List, [], ◌∷◌, ◌++◌, map, length, count_if, All,
  All-append, ◌==◌, arith, Bool-cases, Option-cases, inl, inr,
}
use provence.Json.{Json}
use provence.Workflow.VariableContext.{VariableContext}
use provence.Automation.Graph.{AutomationNode, AutomationGraph, MapNodeData}
use provence.Automation.Tick.{PollResult, done}
use provence.Automation.Tick.Phases.{Ensures, Ensures-bind, Ensures-then, Ensures-map}
use provence.Automation.Retry.{or_default}
use provence.Automation.Nodes.{RunRef, Database, Environment, settle_with, resolve_collection}
use provence.Automation.Nodes.Loop.{body_nodes, body_edges, item_context, number_text, tick_body}
use provence.Automation.Nodes.Loop.Laws.{Succeeds}
use provence.Automation.Nodes.Parallel.{
  Slot, is_active, active_indices, start_items, Progress, after_item, run_item, run_items, poll_map,
  dispatch_map, new_slot, slot_done, states_of, map_output, map_answer, all_done,
}
use provence.Automation.Nodes.Parallel.Slots.{
  HasResult, StartedAt, item_of, After, After-refl, After-trans, after_item-After,
}
use provence.Automation.Nodes.Parallel.Start.{
  start_items-Started, active_indices-StartedAt, All-kept,
}

dispatched-HasResult :
    (nodes : List AutomationNode) (items : List Json) → All (HasResult nodes) (map new_slot items)
dispatched-HasResult nodes [] = tt
dispatched-HasResult nodes (item ∷ items) =
    (λ d. absurd (ground (arith, d)), dispatched-HasResult nodes items)

-- A poll leaves at most `limit` items active, each item that is done has its result, and the items are
-- the ones that were there. When the node succeeds, every item is done.
pub record MapPost (nodes : List AutomationNode) (limit : ℕ) (slots : List Slot)
    (r : PollResult × List Slot) : Type 0 where
  pub bounded : count_if is_active r.1 ≤ limit
  pub results : All (HasResult nodes) r.1
  pub items : map item_of r.1 ≡ map item_of slots
  pub success :
      Succeeds r.0
      → (count_if slot_done r.1 ≡ length r.1)
        × (r.0 ≡ PollResult.settled (settle_with (some (map_output r.1))))

module _ (e : Environment) (run : RunRef) (now : ℕ) (id : String) (d : MapNodeData)
    (graph : AutomationGraph) (ctx : VariableContext) where
  abbrev body : List AutomationNode
  body = body_nodes d.body_node_ids graph

  run_item-After :
      (index : ℕ) (p : Progress) (db : Database)
      → StartedAt p.slots index
      → Ensures (λ q. After body p.slots q.slots) (run_item e run now id d graph ctx index p db)
  unfolding run_item
  run_item-After index p db (slot, found, started) =
      rw (found, run_item)
        (Ensures-then (λ q. After body p.slots q.slots)
          (tick_body e run now id index (body_nodes d.body_node_ids graph)
            (body_edges d.body_node_ids graph) (states_of slot)
            (item_context d.item_var (some slot.item) ctx) db)
          (λ ticked db'.
            done
              (after_item (number_text e run now index) id index (body_nodes d.body_node_ids graph)
                slot p ticked)
              db')
          (λ ticked db'.
            after_item-After (number_text e run now index) id index
              (body_nodes d.body_node_ids graph) slot p ticked found started))

  run_items-After :
      (indices : List ℕ) (p : Progress) (db : Database)
      → All (StartedAt p.slots) indices
      → Ensures (λ q. After body p.slots q.slots) (run_items e run now id d graph ctx indices p db)
  unfolding run_items
  run_items-After [] p db h = After-refl body p.slots
  run_items-After (index ∷ indices) p db (h, hs) =
      Ensures-bind (λ q. After body p.slots q.slots) (λ q. After body p.slots q.slots)
        (run_item e run now id d graph ctx index p db) _ (run_item-After index p db h)
        (λ q db' a. elim (Option-cases q.failure) [
          | inr (message, failed) ↦ rw failed a
          | inl fine ↦ rw fine (
              Ensures-map (λ r. After body q.slots r.slots) (λ r. After body p.slots r.slots)
                (run_items e run now id d graph ctx indices q db')
                (run_items-After indices q db' (All-kept p.slots q.slots indices a.started hs))
                (λ r b. After-trans body p.slots q.slots r.slots a b))
        ])

  abbrev limit_of : List Slot → ℕ
  limit_of slots = or_default (length slots) d.concurrency_limit

  -- The results alone, whatever the bound.
  pub poll_map-HasResult :
      (slots : List Slot) (db : Database)
      → All (HasResult body) slots
      → Ensures (λ r. All (HasResult body) r.1) (poll_map e run now id d graph ctx slots db)
  unfolding poll_map
  poll_map-HasResult slots db results =
      let active = active_indices slots in
      let room = limit_of slots - length active in
      let started = start_items room slots in
      let begun = start_items-Started room slots in
      let first : Progress = record { slots = started.0; progressed = false; failure = none } in
      let indices = active ++ started.1 in
      let chosen =
        All-append (StartedAt started.0) active started.1
          (All-kept slots started.0 active begun.kept (active_indices-StartedAt slots))
          begun.chosen in
      elim (Bool-cases (length slots == 0)) [
        | inl empty ↦ rw empty results
        | inr some_there ↦ elim (Bool-cases (all_done slots)) [
          | inl over ↦ rw (some_there, over) results
          | inr left ↦
              rw (some_there, left)
                (Ensures-bind (λ q. After body started.0 q.slots) (λ r. All (HasResult body) r.1)
                  (run_items e run now id d graph ctx indices first db)
                  (λ q db'. done (map_answer q, q.slots) db')
                  (run_items-After indices first db chosen)
                  (λ q db' a. a.results (begun.results body results)))
        ]
      ]

module _ (e : Environment) (run : RunRef) (now : ℕ) where
  pub dispatch_map-HasResult :
      {W : Type 0} (nodes : List AutomationNode) (d : MapNodeData) (ctx : VariableContext) (w : W)
      → Ensures (All (HasResult nodes)) (dispatch_map e run now d ctx w)
  unfolding dispatch_map
  dispatch_map-HasResult nodes d ctx w =
      Ensures-then (All (HasResult nodes)) (resolve_collection e d.collection_expr ctx w) _
        (λ items w'. dispatched-HasResult nodes _)
