-- ===== src/Automation/Nodes/Top/Invariant.antt =====
-- What the progress of the loops and maps of a run satisfies, and what the steps that save it keep
-- (src/lib/automation/executor/job-executor.ts, `dispatchTopNode` and `pollTopNode`).
use provence.Prelude.{
  ◌≡◌, sym, ◌∙◌, String, Bool, true, false, Option, none, some, List, Map, lookup, insert,
  lookup-insert, All, str_eq, if◌then◌else◌, eq_iff, subst, refl,
}
use provence.Automation.Graph.{AutomationNode, AutomationGraph, NodeData}
use provence.Automation.Tick.{in_flight, PollResult, Run, done, thrown, ◌>>=◌}
use provence.Automation.Tick.Phases.{Ensures}
use provence.Automation.Tick.World.{Leaves}
use provence.Automation.Nodes.{Database}
use provence.Automation.Nodes.Loop.{body_nodes, LoopState, LoopPolled}
use provence.Automation.Nodes.Loop.Laws.{IsLoop}
use provence.Automation.Nodes.Parallel.{Slot}
use provence.Automation.Nodes.Parallel.Slots.{HasResult}
use provence.Automation.Nodes.Top.{World, lift, save_loop, save_map}

-- Every value of a map has the property.
abbrev pub Each {ℓ} : {V : Type 0} → (String → V → Type ℓ) → Map V → Type ℓ
Each P m = (id : String) (v : _) → lookup id m ≡ some v → P id v

one_of :
    {V : Type 0} (P : V → Type 0) (b : Bool) (v u : V) (o : Option V)
    → (if b then some v else o) ≡ some u
    → (b ≡ true → P v)
    → (o ≡ some u → P u)
    → P u
one_of P true v u o e h k = let same : v ≡ u = cc in rw (sym same) (h refl)
one_of P false v u o e h k = k e

insert-Each :
    {V : Type 0} (P : String → V → Type 0) (id : String) (v : V) (m : Map V)
    → P id v
    → Each P m
    → Each P (insert id v m)
insert-Each P id v m h k other u found =
    one_of (P other) (str_eq id other) v u (lookup other m)
      (sym (lookup-insert id other v m) ∙ found) (λ b. subst (λ x. P x v) ((eq_iff id other).0 b) h)
      (k other u)

abbrev pub SameBody : (String → List String) → String → NodeData → Type 0
SameBody bodies id (NodeData.map d) = bodies id ≡ d.body_node_ids
SameBody bodies id (NodeData.loop d) = bodies id ≡ d.body_node_ids
SameBody bodies id _ = Unit

-- `bodies` gives the body of each loop and map, by its identifier.
abbrev pub HasBody : (String → List String) → AutomationNode → Type 0
HasBody bodies node = SameBody bodies node.id node.data_of

-- The nodes of the body that is noted for an identifier.
abbrev pub body_of : AutomationGraph → (String → List String) → String → List AutomationNode
body_of graph bodies id = body_nodes (bodies id) graph

-- Every loop has one result per item that is over, and every item of a map that is done has its result:
-- what the body put out.
pub record IsWorld (graph : AutomationGraph) (bodies : String → List String) (w : World)
    : Type 0 where
  pub loops : Each (λ id. IsLoop (body_of graph bodies id)) w.loops
  pub maps : Each (λ id. All (HasResult (body_of graph bodies id))) w.maps

module _ (graph : AutomationGraph) (bodies : String → List String) where
  pub lift-IsWorld :
      {A : Type 0} (m : Run Database A) (w : World)
      → IsWorld graph bodies w
      → Leaves (IsWorld graph bodies) (lift m w)
  lift-IsWorld (done a db) w h = record { loops = h.loops; maps = h.maps }
  lift-IsWorld (thrown message db) w h = record { loops = h.loops; maps = h.maps }

  save_loop-IsWorld :
      (id : String) (s : LoopState) (w : World)
      → IsLoop (body_of graph bodies id) s
      → IsWorld graph bodies w
      → IsWorld graph bodies (save_loop id s w)
  save_loop-IsWorld id s w k h = record {
    loops = insert-Each (λ id. IsLoop (body_of graph bodies id)) id s w.loops k h.loops;
    maps = h.maps;
  }

  save_map-IsWorld :
      (id : String) (slots : List Slot) (w : World)
      → All (HasResult (body_of graph bodies id)) slots
      → IsWorld graph bodies w
      → IsWorld graph bodies (save_map id slots w)
  save_map-IsWorld id slots w k h = record {
    loops = h.loops;
    maps = insert-Each (λ id. All (HasResult (body_of graph bodies id))) id slots w.maps k h.maps;
  }

  -- The steps that save what they return.
  pub saved_loop :
      (id : String) (m : Run Database LoopPolled) (w : World)
      → Ensures (λ p. IsLoop (body_of graph bodies id) p.1) m
      → IsWorld graph bodies w
      → Leaves (IsWorld graph bodies) (lift m w >>= λ p w'. done p.0 (save_loop id p.1 w'))
  saved_loop id (done p db) w k h =
      save_loop-IsWorld id p.1 (record w { db = db }) k (lift-IsWorld (done p db) w h)
  saved_loop id (thrown message db) w k h = lift-IsWorld {A = LoopPolled} (thrown message db) w h

  pub saved_map :
      (id : String) (m : Run Database (PollResult × List Slot)) (w : World)
      → Ensures (λ p. All (HasResult (body_of graph bodies id)) p.1) m
      → IsWorld graph bodies w
      → Leaves (IsWorld graph bodies) (lift m w >>= λ p w'. done p.0 (save_map id p.1 w'))
  saved_map id (done p db) w k h =
      save_map-IsWorld id p.1 (record w { db = db }) k (lift-IsWorld (done p db) w h)
  saved_map id (thrown message db) w k h =
      lift-IsWorld {A = PollResult × List Slot} (thrown message db) w h

  pub started_loop :
      (id : String) (m : Run World LoopState)
      → Ensures (IsLoop (body_of graph bodies id)) m
      → Leaves (IsWorld graph bodies) m
      → Leaves (IsWorld graph bodies) (m >>= λ s w'. done (in_flight none) (save_loop id s w'))
  started_loop id (done s w) k h = save_loop-IsWorld id s w k h
  started_loop id (thrown message w) k h = h

  pub started_map :
      (id : String) (m : Run World (List Slot))
      → Ensures (All (HasResult (body_of graph bodies id))) m
      → Leaves (IsWorld graph bodies) m
      → Leaves (IsWorld graph bodies) (m >>= λ s w'. done (in_flight none) (save_map id s w'))
  started_map id (done s w) k h = save_map-IsWorld id s w k h
  started_map id (thrown message w) k h = h
