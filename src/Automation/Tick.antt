-- ===== src/Automation/Tick.antt =====
-- src/lib/automation/executor/tick-graph.ts. `dispatch` and `poll` are callbacks that act on a world
-- `W` (the database and the rest of a run's state) and may throw; a callback reads the states and the
-- context as they stand at its call.
pub mod Phases
pub mod Laws
pub mod World
use provence.Prelude.{
  ℕ, zero, suc, String, Bool, true, false, ◌||◌, Option, none, some, List, [], ◌∷◌, lookup, insert,
}
use provence.Json.{Json, null, or_null}
use provence.Workflow.VariableContext.{VariableContext}
use provence.Automation.Graph.{AutomationNode, AutomationEdge}
use provence.Automation.RunState.{NodeStatus, NodeError, NodeState, NodeStates, compute_ready_nodes}

pub data Settlement : Type 0 where
  succeeded failed skipped : Settlement

abbrev pub status_of : Settlement → NodeStatus
status_of succeeded = NodeStatus.succeeded
status_of failed = NodeStatus.failed
status_of skipped = NodeStatus.skipped

pub record Settled : Type 0 where
  pub status : Settlement
  pub output : Option Json
  pub error : Option NodeError

pub data DispatchResult : Type 0 where
  settled : Settled → DispatchResult
  in_flight : Option Json → DispatchResult
  suspend : ℕ → DispatchResult

pub data PollResult : Type 0 where
  settled : Settled → PollResult
  pending : Bool → PollResult

-- What a step that acts on the world returns, or throws.
pub data Run (W A : Type 0) : Type 0 where
  done : A → W → Run W A
  thrown : String → W → Run W A

infixl 5 ◌>>=◌
abbrev pub ◌>>=◌ : {W A B : Type 0} → Run W A → (A → W → Run W B) → Run W B
done a w >>= f = f a w
thrown message w >>= f = thrown message w

pub record Suspended : Type 0 where
  pub node_id : String
  pub resume_at : ℕ

pub record TickResult : Type 0 where
  pub suspended : Option Suspended
  pub progressed : Bool

abbrev pub max_tick_generations_per_call : ℕ
max_tick_generations_per_call = 200

-- What `tickGraph` changes of its arguments.
pub record TickState : Type 0 where
  pub states : NodeStates
  pub ctx : VariableContext

abbrev pub set_state : String → NodeState → TickState → TickState
set_state id state t = record t { states = insert id state t.states }

-- `if (status === "SUCCEEDED") ctx.results[node.id] = output`
abbrev pub set_result : String → Settlement → Option Json → TickState → TickState
set_result id succeeded output t = record t {
  ctx = record t.ctx { results = insert id output t.ctx.results };
}
set_result id _ output t = t

abbrev pub settle : String → Settled → TickState → TickState
settle id s t = set_result id s.status s.output (
    set_state id
      (record { status = status_of s.status; output = or_null s.output; error = s.error }) t)

-- What the loop does with the answer to a poll.
abbrev pub after_poll : AutomationNode → TickState → PollResult → TickState × Bool
after_poll node t (PollResult.settled s) = (settle node.id s t, true)
after_poll node t (PollResult.pending progressed) = (t, progressed)

abbrev pub is_running : Option NodeState → Bool
is_running none = false
is_running (some state) = elim state.status [ NodeStatus.running ↦ true | _ ↦ false ]

abbrev pub state_in : NodeStatus → Option Json → NodeState
state_in status output = record { status = status; output = or_null output; error = none }

-- The state after a dispatch, and the suspension that ends the call.
abbrev pub after_dispatch :
    AutomationNode → TickState → DispatchResult → TickState × Option Suspended
after_dispatch node t (DispatchResult.settled s) = (settle node.id s t, none)
after_dispatch node t (in_flight output) =
    (set_state node.id (state_in NodeStatus.running output) t, none)
after_dispatch node t (suspend resume_at) = (
  set_state node.id (state_in NodeStatus.waiting none) t,
  some (record { node_id = node.id; resume_at = resume_at }),
)

abbrev pub is_cons : List AutomationNode → Bool
is_cons [] = false
is_cons (node ∷ nodes) = true

pub record Generation : Type 0 where
  pub after : TickState
  pub suspended : Option Suspended
  pub progressed : Bool

abbrev pub type_error : String
type_error = "TypeError"

module _ {W : Type 0} (dispatch : AutomationNode → TickState → W → Run W DispatchResult)
    (poll : AutomationNode → TickState → W → Run W PollResult) where
  pub poll_one : AutomationNode → TickState → W → Run W (TickState × Bool)
  poll_one node t w = elim (is_running (lookup node.id t.states)) [
    | true ↦ poll node t w >>= λ polled w'. done (after_poll node t polled) w'
    | false ↦ done (t, false) w
  ]

  unfoldable pub poll_nodes : List AutomationNode → TickState → W → Run W (TickState × Bool)
  poll_nodes [] t w = done (t, false) w
  poll_nodes (node ∷ nodes) t w = poll_one node t w >>= λ first w'.
      poll_nodes nodes first.0 w' >>= λ rest w''. done (rest.0, first.1 || rest.1) w''

  -- The ready nodes, one after another; the first that suspends ends the call.
  unfoldable pub dispatch_nodes :
      List AutomationNode → TickState → W → Run W (TickState × Option Suspended)
  dispatch_nodes [] t w = done (t, none) w
  dispatch_nodes (node ∷ nodes) t w = dispatch node t w >>= λ dispatched w'.
      let (t', suspended) = after_dispatch node t dispatched in
      elim suspended [ none ↦ dispatch_nodes nodes t' w' | some s ↦ done (t', some s) w' ]

  module _ (nodes : List AutomationNode) (edges : List AutomationEdge) where
    -- One round of the `while` loop. Every ready node that does not suspend is progress.
    unfoldable pub generation : TickState → W → Run W Generation
    unfolding poll_one poll_nodes dispatch_nodes
    generation t w = poll_nodes nodes t w >>= λ polled w'.
        elim (compute_ready_nodes nodes edges polled.0.states) [
          | none ↦ thrown type_error w'
          | some (ready, skipped_any, states) ↦
              dispatch_nodes ready (record polled.0 { states = states }) w' >>= λ dispatched w''.
              done
                (record {
                  after = dispatched.0;
                  suspended = dispatched.1;
                  progressed = polled.1 || skipped_any || is_cons ready;
                })
                w''
        ]

    -- What the `while` loop does after a generation: `next` runs the following ones.
    abbrev pub continue_with :
        (TickState → W → Run W (TickState × TickResult))
        → Bool
        → Generation
        → W
        → Run W (TickState × TickResult)
    continue_with next ever g w = elim g.suspended [
      | some s ↦ done (g.after, record { suspended = some s; progressed = true }) w
      | none ↦ elim g.progressed [
        | true ↦ next g.after w
        | false ↦ done (g.after, record { suspended = none; progressed = ever }) w
      ]
    ]

    -- The loop, with the number of generations that are left.
    unfoldable pub tick_from : ℕ → Bool → TickState → W → Run W (TickState × TickResult)
    tick_from zero ever t w = done (t, record { suspended = none; progressed = ever }) w
    tick_from (suc left) ever t w =
        generation t w >>= λ g w'. continue_with (λ t' w''. tick_from left true t' w'') ever g w'

    unfoldable pub tick_graph : TickState → W → Run W (TickState × TickResult)
    unfolding generation tick_from
    tick_graph t w = tick_from max_tick_generations_per_call false t w
