-- ===== src/Automation/Nodes/Loop/Laws.antt =====
-- The progress of loop nodes (src/lib/automation/executor/job-executor.ts, `pollLoopNode`).
use provence.Prelude.{
  ℕ, suc, ◌≤◌, ◌≡◌, refl, String, true, false, some, List, [], ◌∷◌, ◌++◌, ◌⊎◌, length, ltb, arith,
  Bool-cases, inl, inr,
}
use provence.Json.{Json}
use provence.Workflow.VariableContext.{VariableContext}
use provence.Automation.Graph.{AutomationNode, LoopNodeData}
use provence.Automation.RunState.{NodeStates, is_subgraph_settled, subgraph_has_failure}
use provence.Automation.Tick.{PollResult, pending, Settlement}
use provence.Automation.Tick.Phases.{Ensures, Ensures-then}
use provence.Automation.Retry.{or_default}
use provence.Automation.Nodes.{RunRef, Environment, settle_with, resolve_collection}
use provence.Automation.Nodes.Loop.{
  LoopState, LoopPolled, max_loop_iterations_default, start_loop, nth, body_outputs, result_row,
  loop_output, dispatch_loop,
}

-- A row for an item: the item with what the nodes of the body put out, in states in which the body is
-- settled and has not failed.
abbrev pub IsRow : List AutomationNode → Json → Json → Type 0
IsRow nodes item row =
    (states : NodeStates) × (is_subgraph_settled nodes states ≡ true)
    × (subgraph_has_failure nodes states ≡ false)
    × (row ≡ result_row (some item) (body_outputs nodes states))

-- `rows` are the results of some first items, in their order.
abbrev pub AreRows : List AutomationNode → List Json → List Json → Type 0
AreRows nodes [] items = Unit
AreRows nodes (row ∷ rows) [] = ⊥
AreRows nodes (row ∷ rows) (item ∷ items) = IsRow nodes item row × AreRows nodes rows items

-- One result per item that is over, and no item beyond the last.
pub record IsLoop (nodes : List AutomationNode) (s : LoopState) : Type 0 where
  pub counted : length s.results ≡ s.index
  pub rows : AreRows nodes s.results s.items

abbrev pub Succeeds : PollResult → Type 0
Succeeds (PollResult.settled s) = s.status ≡ Settlement.succeeded
Succeeds (pending progressed) = ⊥

-- What a poll makes of a loop: it stays a loop over the same items, at the same item or the next, and a
-- success has a result for every item.
pub record LoopPost (nodes : List AutomationNode) (s : LoopState) (p : LoopPolled) : Type 0 where
  pub loop : IsLoop nodes p.1
  pub items : p.1.items ≡ s.items
  pub moves : (p.1.index ≡ s.index) ⊎ (p.1.index ≡ suc s.index)
  pub success :
      Succeeds p.0
      → (length p.1.results ≡ length s.items)
        × (p.0 ≡ PollResult.settled (settle_with (some (loop_output p.1))))

-- The loop after its current item.
abbrev next_item : LoopState → Json → LoopState
next_item s outputs = record {
  items = s.items;
  index = suc s.index;
  results = s.results ++ (result_row (nth s.index s.items) outputs ∷ []);
  sub = [];
}

start_loop-IsLoop :
    (nodes : List AutomationNode) (items : List Json) → IsLoop nodes (start_loop items)
start_loop-IsLoop nodes items = record { counted = refl; rows = tt }

module _ (e : Environment) (run : RunRef) (now : ℕ) where
  -- A loop node that is dispatched without an exception starts at its first item, with no result,
  -- over the items of its collection, which are at most as many as its limit of iterations.
  pub dispatch_loop-IsLoop :
      {W : Type 0} (nodes : List AutomationNode) (id : String) (d : LoopNodeData)
      (ctx : VariableContext) (w : W)
      → Ensures
          (λ s.
            IsLoop nodes s
            × (s.index ≡ 0)
            × (length s.items ≤ or_default max_loop_iterations_default d.max_iterations))
          (dispatch_loop e run now id d ctx w)
  unfolding dispatch_loop
  dispatch_loop-IsLoop nodes id d ctx w =
      let limit = or_default max_loop_iterations_default d.max_iterations in
      Ensures-then _ (resolve_collection e d.collection_expr ctx w) _ (λ items w'.
        elim (Bool-cases (ltb limit (length items))) [
          | inl more ↦ rw more tt
          | inr fits ↦ rw fits (start_loop-IsLoop nodes items, refl, ground arith)
        ])
