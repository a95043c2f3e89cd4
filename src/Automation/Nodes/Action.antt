-- ===== src/Automation/Nodes/Action.antt =====
-- Action nodes and their jobs (src/lib/automation/executor/job-executor.ts, `dispatchActionNode` and
-- `pollActionNode`).
use provence.Prelude.{
  ◌∙◌, ℕ, ◌≡◌, refl, ap, String, Bool, true, false, not, ◌&&◌, ◌||◌, none, some, lookup,
  lookup-insert_self, arith, Bool-cases, inl, inr, str_eq, eq_refl,
}
use provence.Json.{Json, get_property, get_field, or_null, str}
use provence.Workflow.VariableContext.{VariableContext}
use provence.Automation.Graph.{ErrorPolicy, kind_of, ActionNodeData, AutomationNode, AutomationEdge}
use provence.Automation.RunState.{
  NodeStatus, NodeState, NodeStates, edge_is_satisfied, satisfied_by, is_failed, has_policy,
  is_blank, is_branch,
}
use provence.Automation.Tick.{
  after_dispatch, DispatchResult, in_flight, PollResult, Settled, done, TickState, settle, state_in,
  status_of,
}
use provence.Automation.Tick.Phases.{Ensures, Ensures-then, settle-states}
use provence.Automation.Tick.World.{Gives, Gives-at}
use provence.Automation.Run.{is_halting_failure, pending_state}
use provence.Automation.Job.{AutomationJob, JobStatus}
use provence.Automation.Nodes.{
  RunRef, Database, Environment, field_of, text_property, dispatch_action_node, poll_action_node,
  new_job, resolved_input, poll_job, policy_of, is_success, is_final_job, settlement_by,
  apply_policy, error_message,
}

-- The state that a node has from its dispatch names the row.
pub text_property-field_of :
    (key id : String) → str_eq id "" ≡ false → text_property key (field_of key (str id)) ≡ some id
unfolding text_property get_property get_field
text_property-field_of key id h = rw (eq_refl key) (rw h refl)

-- The state that an answer "in flight" gives the node.
pub in_flight-state :
    (node : AutomationNode) (t : TickState) (r : DispatchResult) (output : Json)
    → r ≡ in_flight (some output)
    → lookup node.id (after_dispatch node t r).0.states
      ≡ some (state_in NodeStatus.running (some output))
in_flight-state node t r output h =
    rw h (lookup-insert_self node.id (state_in NodeStatus.running (some output)) t.states)

module _ (e : Environment) (run : RunRef) (now : ℕ) where
  poll_action_node-state_in :
      (node_id id : String) (d : ActionNodeData) (db : Database) (states : NodeStates)
      (job : AutomationJob)
      → str_eq id "" ≡ false
      → lookup node_id states
        ≡ some (state_in NodeStatus.running (some (field_of "jobId" (str id))))
      → lookup id db.jobs ≡ some job
      → poll_action_node e run now node_id d states db
        ≡ poll_job e run now (policy_of d.on_error) node_id job db
  unfolding poll_action_node
  poll_action_node-state_in node_id id d db states job h at row =
      rw (at, poll_action_node) (rw (text_property-field_of "jobId" id h) (rw row refl))

  -- The answer of a dispatch, which names the row that it has created.
  abbrev pub NewJob : ActionNodeData → String → DispatchResult → Database → Type 0
  NewJob d id r db =
      (r ≡ in_flight (some (field_of "jobId" (str id))))
      × ((created : AutomationJob) × (lookup id db.jobs ≡ some created)
          × (created.status ≡ JobStatus.queued)
          × (created.automation_run_id ≡ some run.id)
          × (created.job_type ≡ d.job_type))

  dispatch_action_node-NewJob :
      (job_node_id : String) (d : ActionNodeData) (ctx : VariableContext) (db : Database)
      → Gives
          (NewJob d (e.fresh_id db.created))
          (dispatch_action_node e run now d ctx job_node_id db)
  unfolding dispatch_action_node
  dispatch_action_node-NewJob job_node_id d ctx db =
      let id = e.fresh_id db.created in
      let job = new_job e run now d (resolved_input e d.input ctx) job_node_id id in
      elim (Bool-cases (str_eq d.job_type "")) [
        | inl untyped ↦ rw (untyped, dispatch_action_node) tt
        | inr typed ↦
            rw (typed, dispatch_action_node)
              (refl, (job, lookup-insert_self id job db.jobs, refl, refl, refl))
      ]

  -- The dispatch of an action node that does not throw, under an identifier that is not empty, creates
  -- a row that is queued, for its run and with its type. As long as the node's state is the one that the
  -- dispatch gives it, a poll with the row under its identifier, in whatever condition, answers by it.
  pub dispatch_action_node-poll_action_node :
      (node : AutomationNode) (d : ActionNodeData) (job_node_id : String) (t : TickState)
      (r : DispatchResult) (db db' later : Database) (states : NodeStates) (job : AutomationJob)
      → str_eq (e.fresh_id db.created) "" ≡ false
      → dispatch_action_node e run now d t.ctx job_node_id db ≡ done r db'
      → lookup node.id states ≡ lookup node.id (after_dispatch node t r).0.states
      → lookup (e.fresh_id db.created) later.jobs ≡ some job
      → NewJob d (e.fresh_id db.created) r db'
        × (poll_action_node e run now node.id d states later
            ≡ poll_job e run now (policy_of d.on_error) node.id job later)
  dispatch_action_node-poll_action_node node d job_node_id t r db db' later states job h given at
        row =
      let id = e.fresh_id db.created in
      let new =
        Gives-at (NewJob d id) (dispatch_action_node e run now d t.ctx job_node_id db) r db'
          (dispatch_action_node-NewJob job_node_id d t.ctx db) given in
      (
        new,
        poll_action_node-state_in node.id id d later states job h
            (at ∙ in_flight-state node t r (field_of "jobId" (str id)) new.0) row,
      )

abbrev pub is_ignore : ErrorPolicy → Bool
is_ignore ErrorPolicy.ignore = true
is_ignore _ = false

abbrev pub is_alternative : ErrorPolicy → Bool
is_alternative ErrorPolicy.alternative_branch = true
is_alternative _ = false

abbrev pub left_by : Settled → NodeState
left_by s = record { status = status_of s.status; output = or_null s.output; error = s.error }

-- The edges that a failed job leaves satisfied, by the node's error policy.
edge_is_satisfied-settlement_by :
    (policy : ErrorPolicy) (message : String) (edge : AutomationEdge)
    → edge_is_satisfied edge (left_by (settlement_by policy message)) ≡ (
        (is_ignore policy && is_blank edge.branch)
        || (is_alternative policy && is_branch "error" edge.branch))
unfolding edge_is_satisfied satisfied_by kind_of
edge_is_satisfied-settlement_by ErrorPolicy.stop message edge = refl
edge_is_satisfied-settlement_by ErrorPolicy.retry message edge = refl
edge_is_satisfied-settlement_by ErrorPolicy.ignore message edge = ground arith
edge_is_satisfied-settlement_by ErrorPolicy.alternative_branch message edge = refl
edge_is_satisfied-settlement_by ErrorPolicy.notify message edge = refl
edge_is_satisfied-settlement_by ErrorPolicy.escalate_director message edge = refl

halting_by :
    (node : AutomationNode) (states : NodeStates) (state : NodeState)
    → lookup node.id states ≡ some state
    → is_halting_failure states node
      ≡ (is_failed state.status && not (has_policy "alternative_branch" state.error))
unfolding is_halting_failure
halting_by node states state h =
    ap
      (λ found.
        let state : NodeState = elim found [ none ↦ pending_state | some s ↦ s ] in
        is_failed state.status && not (has_policy "alternative_branch" state.error))
      h

-- The run halts unless the policy is to ignore or to take the other branch.
is_halting_failure-settlement_by :
    (policy : ErrorPolicy) (message : String) (node : AutomationNode) (states : NodeStates)
    → lookup node.id states ≡ some (left_by (settlement_by policy message))
    → is_halting_failure states node ≡ (not (is_ignore policy) && not (is_alternative policy))
unfolding kind_of
is_halting_failure-settlement_by ErrorPolicy.stop message node states h = halting_by node states _ h
is_halting_failure-settlement_by ErrorPolicy.retry message node states h =
    halting_by node states _ h
is_halting_failure-settlement_by ErrorPolicy.ignore message node states h =
    halting_by node states _ h
is_halting_failure-settlement_by ErrorPolicy.alternative_branch message node states h =
    halting_by node states _ h
is_halting_failure-settlement_by ErrorPolicy.notify message node states h =
    halting_by node states _ h
is_halting_failure-settlement_by ErrorPolicy.escalate_director message node states h =
    halting_by node states _ h

settle-lookup :
    (id : String) (s : Settled) (t : TickState)
    → lookup id (settle id s t).states ≡ some (left_by s)
settle-lookup id s t = rw (settle-states id s t) (lookup-insert_self id (left_by s) t.states)

-- What a failed job makes of its node: the poll settles it; an edge out of it is satisfied exactly
-- where the policy says so, and it halts the run for every policy but the two.
abbrev pub Routes : ErrorPolicy → AutomationNode → TickState → PollResult → Type 0
Routes policy node t r =
    (s : Settled) × (r ≡ PollResult.settled s)
    × ((edge : AutomationEdge)
        → edge_is_satisfied edge (left_by s) ≡ (
            (is_ignore policy && is_blank edge.branch)
            || (is_alternative policy && is_branch "error" edge.branch)))
    × (is_halting_failure (settle node.id s t).states node
        ≡ (not (is_ignore policy) && not (is_alternative policy)))

module _ (e : Environment) (run : RunRef) (now : ℕ) where
  -- The poll of a node whose job has ended other than by success either throws or settles the node, so
  -- that its edges and the run follow its error policy: an edge is satisfied where the policy is to
  -- ignore the error and the edge has no branch, or where the policy is the alternative branch and the
  -- edge is the branch "error"; under every other policy the node halts the run.
  pub poll_job-Routes :
      (policy : ErrorPolicy) (node : AutomationNode) (job : AutomationJob) (t : TickState)
      (db : Database)
      → is_final_job job.status ≡ true
      → is_success job.status ≡ false
      → Ensures (Routes policy node t) (poll_job e run now policy node.id job db)
  unfolding poll_job
  poll_job-Routes policy node job t db final bad =
      let s = settlement_by policy (error_message job) in
      rw (bad, final)
        (Ensures-then (Routes policy node t)
          (apply_policy e run now policy node.id (error_message job) db)
          (λ _ db'. done (PollResult.settled s) db')
          (λ _ db'. (
            s,
            refl,
            (λ edge. edge_is_satisfied-settlement_by policy (error_message job) edge),
            is_halting_failure-settlement_by policy (error_message job) node
                (settle node.id s t).states (settle-lookup node.id s t),
          )))
