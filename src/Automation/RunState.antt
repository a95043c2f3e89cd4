-- ===== src/Automation/RunState.antt =====
-- src/lib/automation/executor/run-state.ts: which nodes of a graph can be dispatched. A `get(…)!` on
-- a node with no state throws; that is the `none` of the functions into `Option`.
pub mod Keeps
pub mod Ready
pub mod Edges
pub mod Waits
use provence.Prelude.{
  String, Bool, true, false, ◌&&◌, ◌||◌, Option, none, some, List, [], ◌∷◌, ◌++◌, Map, lookup,
  insert, every, any, select, if◌then◌else◌, str_eq,
}
use provence.Json.{Json, null, str, get_property}
use provence.Automation.Graph.{
  AutomationNode, AutomationEdge, NodeData, JoinMode, ErrorPolicy, kind_of,
}

pub data NodeStatus : Type 0 where
  pending running waiting succeeded failed skipped : NodeStatus

pub record NodeError : Type 0 where
  pub message : String
  pub policy : Option String

pub record NodeState : Type 0 where
  pub status : NodeStatus
  pub output : Json
  pub error : Option NodeError

abbrev pub NodeStates : Type 0
NodeStates = Map NodeState

-- `TERMINAL_NODE_STATUSES.has(status)`
abbrev pub is_terminal : NodeStatus → Bool
is_terminal succeeded = true
is_terminal failed = true
is_terminal skipped = true
is_terminal _ = false

abbrev pub is_pending : NodeStatus → Bool
is_pending pending = true
is_pending _ = false

-- `!edge.branch`: the branch is absent, or an empty text.
abbrev pub is_blank : Option String → Bool
is_blank none = true
is_blank (some branch) = str_eq branch ""

abbrev pub has_policy : String → Option NodeError → Bool
has_policy kind none = false
has_policy kind (some error) = elim error.policy [ none ↦ false | some policy ↦ str_eq policy kind ]

-- `a === b` for a property of a stored value and an edge's branch that is not blank.
abbrev same_branch : Option Json → Option String → Bool
same_branch (some (str a)) (some b) = str_eq a b
same_branch _ _ = false

abbrev pub is_branch : String → Option String → Bool
is_branch name none = false
is_branch name (some branch) = str_eq branch name

unfoldable pub satisfied_by : NodeStatus → AutomationEdge → NodeState → Bool
satisfied_by succeeded edge source =
    is_blank edge.branch || same_branch (get_property "branch" (some source.output)) edge.branch
satisfied_by skipped edge source = has_policy "ignore" source.error && is_blank edge.branch
satisfied_by failed edge source =
    has_policy "alternative_branch" source.error && is_branch "error" edge.branch
satisfied_by _ edge source = false

unfoldable pub edge_is_satisfied : AutomationEdge → NodeState → Bool
unfolding satisfied_by
edge_is_satisfied edge source = satisfied_by source.status edge source

pub data Readiness : Type 0 where
  ready wait skip : Readiness

-- `incoming.every(…)` and `incoming.some(…)`, for a test of an edge and the state of its source. They
-- stop at the first edge that settles the answer.
unfoldable pub every_edge :
    (AutomationEdge → NodeState → Bool) → List AutomationEdge → NodeStates → Option Bool
every_edge test [] states = some true
every_edge test (edge ∷ edges) states = elim (lookup edge.source states) [
  | none ↦ none
  | some state ↦ if test edge state then every_edge test edges states else some false
]

unfoldable pub some_edge :
    (AutomationEdge → NodeState → Bool) → List AutomationEdge → NodeStates → Option Bool
some_edge test [] states = some false
some_edge test (edge ∷ edges) states = elim (lookup edge.source states) [
  | none ↦ none
  | some state ↦ if test edge state then some true else some_edge test edges states
]

abbrev pub source_is_terminal : AutomationEdge → NodeState → Bool
source_is_terminal edge state = is_terminal state.status

abbrev pub source_is_satisfied : AutomationEdge → NodeState → Bool
source_is_satisfied edge state = is_terminal state.status && edge_is_satisfied edge state

infixl 5 ◌>>=◌
abbrev pub ◌>>=◌ {ℓ κ} : {A : Type ℓ} {B : Type κ} → Option A → (A → Option B) → Option B
none >>= f = none
some a >>= f = f a

abbrev pub ready_if : Readiness → Bool → Readiness
ready_if other true = ready
ready_if other false = other

-- A node with incoming edges that is no `join`.
unfoldable pub inner_ready : List AutomationEdge → NodeStates → Option Readiness
inner_ready incoming states = do
  all_terminal ← every_edge source_is_terminal incoming states
  let satisfied = some_edge edge_is_satisfied incoming states
  if all_terminal then (satisfied >>= λ b. some (ready_if skip b)) else some wait

-- `mode ?? "any"`
unfoldable pub join_ready : Option JoinMode → List AutomationEdge → NodeStates → Option Readiness
join_ready (some JoinMode.all) incoming states =
    every_edge source_is_terminal incoming states >>= λ b. some (ready_if wait b)
join_ready _ incoming states =
    some_edge source_is_satisfied incoming states >>= λ b. some (ready_if wait b)

unfoldable pub ready_by : NodeData → List AutomationEdge → NodeStates → Option Readiness
ready_by (NodeData.join mode) incoming states = join_ready mode incoming states
ready_by _ incoming states = inner_ready incoming states

unfoldable pub is_node_ready : AutomationNode → List AutomationEdge → NodeStates → Option Readiness
unfolding ready_by inner_ready join_ready every_edge some_edge edge_is_satisfied
is_node_ready node [] states = some ready
is_node_ready node (edge ∷ incoming) states = ready_by node.data_of (edge ∷ incoming) states

abbrev pub incoming_of : AutomationNode → List AutomationEdge → List AutomationEdge
incoming_of node edges = select (λ edge. str_eq edge.target node.id) edges

abbrev pub skipped_state : NodeState
skipped_state = record { status = skipped; output = null; error = none }

-- One round of the loop of `computeReadyNodes`: the node's outcome, `none` if it is not pending.
abbrev pub outcome_at :
    AutomationNode → List AutomationEdge → NodeStates → Option NodeState → Option (Option Readiness)
outcome_at node edges states none = some none
outcome_at node edges states (some state) =
    if is_pending state.status
    then (is_node_ready node (incoming_of node edges) states >>= λ r. some (some r))
    else some none

abbrev pub push_ready :
    Option Readiness → AutomationNode → List AutomationNode → List AutomationNode
push_ready (some ready) node nodes = node ∷ nodes
push_ready _ node nodes = nodes

abbrev pub is_skip : Option Readiness → Bool
is_skip (some skip) = true
is_skip _ = false

abbrev pub mark : Option Readiness → AutomationNode → NodeStates → NodeStates
mark (some skip) node states = insert node.id skipped_state states
mark _ node states = states

unfoldable pub compute_ready_nodes :
    List AutomationNode
    → List AutomationEdge
    → NodeStates
    → Option (List AutomationNode × Bool × NodeStates)
compute_ready_nodes [] edges states = some ([], false, states)
compute_ready_nodes (node ∷ nodes) edges states =
    outcome_at node edges states (lookup node.id states) >>= λ outcome.
    compute_ready_nodes nodes edges (mark outcome node states) >>= λ rest.
    some (push_ready outcome node rest.0, is_skip outcome || rest.1, rest.2)

-- `nodeStates.get(node.id)?.status`
abbrev pub has_status : (NodeStatus → Bool) → AutomationNode → NodeStates → Bool
has_status test node states = elim (lookup node.id states) [
  | none ↦ test pending
  | some state ↦ test state.status
]

unfoldable pub is_subgraph_settled : List AutomationNode → NodeStates → Bool
is_subgraph_settled nodes states = every (λ node. has_status is_terminal node states) nodes

abbrev pub is_failed : NodeStatus → Bool
is_failed failed = true
is_failed _ = false

unfoldable pub subgraph_has_failure : List AutomationNode → NodeStates → Bool
subgraph_has_failure nodes states = any (λ node. has_status is_failed node states) nodes

abbrev body_of : NodeData → List String
body_of (NodeData.loop d) = d.body_node_ids
body_of (NodeData.map d) = d.body_node_ids
body_of _ = []

-- The set is the list of its members, in the order in which they are added.
unfoldable pub collect_subordinate_node_ids : List AutomationNode → List String
collect_subordinate_node_ids [] = []
collect_subordinate_node_ids (node ∷ nodes) =
    body_of node.data_of ++ collect_subordinate_node_ids nodes

unfoldable pub default_error_policy : ErrorPolicy
default_error_policy = ErrorPolicy.stop
