-- ===== src/Automation/Nodes.antt =====
-- What `dispatch` and `poll` do for the kinds of nodes: src/lib/automation/executor/job-executor.ts.
-- This module has the tables that they act on, the action node and the branching nodes; the modules
-- below have the bodies of loops and maps, sub-automations, and the choice by kind. Logs are left out.
pub mod Body
pub mod Action
pub mod Loop
pub mod Parallel
pub mod Child
pub mod Top
use Prim.Native.String.{◌++◌}
use provence.Prelude.{
  ℕ, zero, suc, String, Bool, true, false, Option, none, some, List, [], ◌∷◌, Map, lookup, insert,
  if◌then◌else◌, str_eq,
}
use provence.Prelude.Int.{pos}
use provence.Json.{
  Json, Items, Fields, bool, str, arr, obj, nil, cons, end, field, get_property, or_null,
}
use provence.Workflow.Rule.{Expr, Rule}
use provence.Workflow.VariableContext.{Scope, VariableContext}
use provence.Workflow.Path.{scope_fields}
use provence.Workflow.Evaluator.{Host, resolve_expr, evaluate_rule}
use provence.Workflow.Template.{resolve_fields}
use provence.Automation.Graph.{ErrorPolicy, kind_of, ActionNodeData, RetryPolicy, SwitchCase}
use provence.Automation.RunState.{NodeError, NodeState, NodeStates, default_error_policy}
use provence.Automation.Tick.{
  Settlement, Settled, DispatchResult, in_flight, PollResult, pending, Run, done, thrown, ◌>>=◌,
  type_error,
}
use provence.Automation.Retry.{default_retry_policy, or_default}
use provence.Automation.Job.{JobStatus, AutomationJob}
use provence.Automation.Run.{AutomationRun}

pub record RunRef : Type 0 where
  pub id : String
  pub organization_id : String
  pub workspace_id : String
  pub automation_id : String
  pub created_by_id : Option String

pub record Notification : Type 0 where
  pub organization_id : String
  pub kind : String
  pub title : String
  pub body : String
  pub link : String

pub data AutomationStatus : Type 0 where
  draft active paused archived : AutomationStatus

pub record Automation : Type 0 where
  pub id : String
  pub workspace_id : Option String
  pub key : String
  pub status : AutomationStatus
  pub active_version_id : Option String

-- The tables. `created` counts the rows created so far; identifiers are made from it.
pub record Database : Type 0 where
  pub jobs : Map AutomationJob
  pub runs : Map AutomationRun
  pub automations : List Automation
  pub notifications : List Notification
  pub created : ℕ

-- What the executor calls. `agents` are src/lib/agents: the active director of a workspace, if any,
-- the creation of its run, which may throw, and that run, whose exceptions are dropped. `run_refused`
-- is the exception of the organization's quota, if any.
pub record Agents : Type 0 where
  pub find_director : String → Database → Option String
  pub create_agent_run : String → Json → Database → Run Database String
  pub execute_agent_run : String → Database → Database

pub record Environment : Type 0 where
  pub host : Host
  pub stringify : Option Json → String
  pub fresh_id : ℕ → String
  pub agents : Agents
  pub run_refused : String → Database → Option String

abbrev pub validation_error : String
validation_error = "ValidationError"

abbrev pub not_found_error : String
not_found_error = "NotFoundError"

-- A step that throws where the value is missing.
abbrev pub or_throw : {W A : Type 0} → Option A → String → W → Run W A
or_throw none message w = thrown message w
or_throw (some a) message w = done a w

abbrev pub settle_with : Option Json → Settled
settle_with output = record { status = Settlement.succeeded; output = output; error = none }

abbrev pub fail_with : String → Option String → Settled
fail_with message policy = record {
  status = Settlement.failed;
  output = none;
  error = some (record { message = message; policy = policy });
}

abbrev pub field_of : String → Json → Json
field_of key v = obj (field key v end)

-- `(output as { key?: string } | null)?.key`, where a text that is empty counts as missing.
abbrev text_or_none : Option Json → Option String
text_or_none (some (str s)) = if str_eq s "" then none else some s
text_or_none v = none

unfoldable pub text_property : String → Json → Option String
text_property key output = text_or_none (get_property key (some output))

abbrev pub json_items : List Json → Items
json_items [] = nil
json_items (v ∷ vs) = cons v (json_items vs)

abbrev pub list_of : Items → List Json
list_of nil = []
list_of (cons v vs) = v ∷ list_of vs

abbrev pub array_of : Option Json → Option (List Json)
array_of (some (arr vs)) = some (list_of vs)
array_of v = none

abbrev branch_of : Bool → String
branch_of true = "true"
branch_of false = "false"

abbrev max_attempts_of : Option RetryPolicy → ℕ
max_attempts_of none = or_default 1 default_retry_policy.max_attempts
max_attempts_of (some policy) =
    or_default (or_default 1 default_retry_policy.max_attempts) policy.max_attempts

-- `TERMINAL_JOB_STATUSES.has(status)`
abbrev pub is_final_job : JobStatus → Bool
is_final_job JobStatus.succeeded = true
is_final_job JobStatus.failed = true
is_final_job JobStatus.cancelled = true
is_final_job JobStatus.timed_out = true
is_final_job JobStatus.dead_lettered = true
is_final_job _ = false

abbrev pub is_success : JobStatus → Bool
is_success JobStatus.succeeded = true
is_success _ = false

unfoldable pub status_name : JobStatus → String
status_name JobStatus.queued = "QUEUED"
status_name JobStatus.claimed = "CLAIMED"
status_name JobStatus.running = "RUNNING"
status_name JobStatus.waiting = "WAITING"
status_name JobStatus.succeeded = "SUCCEEDED"
status_name JobStatus.failed = "FAILED"
status_name JobStatus.cancelled = "CANCELLED"
status_name JobStatus.timed_out = "TIMED_OUT"
status_name JobStatus.dead_lettered = "DEAD_LETTERED"

unfoldable pub error_message : AutomationJob → String
unfolding status_name
error_message job = elim job.error [
  | some message ↦ message
  | none ↦ "Job \"" ++ job.id ++ "\" en échec (" ++ status_name job.status ++ ")."
]

abbrev pub settlement_by : ErrorPolicy → String → Settled
settlement_by ErrorPolicy.ignore message = record {
  status = Settlement.skipped;
  output = none;
  error = some (record { message = message; policy = some "ignore" });
}
settlement_by policy message = fail_with message (some (kind_of policy))

abbrev pub policy_of : Option ErrorPolicy → ErrorPolicy
policy_of none = default_error_policy
policy_of (some policy) = policy

module _ (e : Environment) where
  unfoldable pub resolve_collection : {W : Type 0} → Expr → VariableContext → W → Run W (List Json)
  unfolding resolve_expr
  resolve_collection collection ctx w =
      let value = resolve_expr e.host ctx collection in
      or_throw (array_of value)
        ("L'expression de collection ne résout pas vers un tableau (valeur : "
          ++ e.stringify value
          ++ ").")
        w

  -- `resolveActionInput(data.input ?? {}, ctx)`
  abbrev pub resolved_input : Option Fields → VariableContext → Fields
  resolved_input none ctx = end
  resolved_input (some input) ctx = resolve_fields e.host ctx input

  unfoldable pub dispatch_condition :
      {W : Type 0} → Rule → VariableContext → W → Run W DispatchResult
  unfolding evaluate_rule
  dispatch_condition rule ctx w = or_throw (evaluate_rule e.host ctx rule) "Error" w >>= λ b w'.
      done
        (DispatchResult.settled (
          settle_with
            (some (obj (field "result" (bool b) (field "branch" (str (branch_of b)) end))))))
        w'

  -- `data.cases.find(…)`: rules are evaluated up to the first that holds.
  unfoldable pub find_case : List SwitchCase → VariableContext → Option String
  unfolding evaluate_rule
  find_case [] ctx = some "default"
  find_case (c ∷ cases) ctx =
      let later = find_case cases ctx in
      elim (evaluate_rule e.host ctx c.rule) [
        | none ↦ none
        | some holds ↦ if holds then some c.branch else later
      ]

  unfoldable pub dispatch_switch :
      {W : Type 0} → List SwitchCase → VariableContext → W → Run W DispatchResult
  unfolding find_case
  dispatch_switch cases ctx w = or_throw (find_case cases ctx) "Error" w >>= λ branch w'.
      done (DispatchResult.settled (settle_with (some (field_of "branch" (str branch))))) w'

  -- `{ ...ctx.results }`
  abbrev pub dispatch_end : {W : Type 0} → VariableContext → W → Run W DispatchResult
  dispatch_end ctx w =
      done (DispatchResult.settled (settle_with (some (obj (scope_fields ctx.results))))) w

  module _ (run : RunRef) (now : ℕ) where
    -- The row that the action node creates; the other columns have the table's defaults.
    unfoldable pub new_job : ActionNodeData → Fields → String → String → AutomationJob
    unfolding default_retry_policy
    new_job d input job_node_id id = record {
      id = id;
      organization_id = run.organization_id;
      workspace_id = run.workspace_id;
      automation_id = some run.automation_id;
      automation_run_id = some run.id;
      node_id = some job_node_id;
      job_type = d.job_type;
      status = JobStatus.queued;
      priority = elim d.priority [ none ↦ pos 0 | some p ↦ p ];
      input = obj input;
      attempt = 0;
      max_attempts = max_attempts_of d.retry_policy;
      retry_policy = d.retry_policy;
      lock_key = d.lock_key;
      concurrency_key = d.concurrency_key;
      concurrency_limit = d.concurrency_limit;
      rate_limit_key = d.rate_limit_key;
      timeout_ms = d.timeout_ms;
      scheduled_at = now;
      claimed_at = none;
      claimed_by = none;
      started_at = none;
      finished_at = none;
      duration_ms = none;
      output = none;
      error = none;
      created_by_id = run.created_by_id;
    }

    unfoldable pub dispatch_action_node :
        ActionNodeData → VariableContext → String → Database → Run Database DispatchResult
    unfolding new_job
    dispatch_action_node d ctx job_node_id db =
        let id = e.fresh_id db.created in
        let job = new_job d (resolved_input d.input ctx) job_node_id id in
        if str_eq d.job_type ""
        then thrown ("Le noeud action \"" ++ job_node_id ++ "\" n'a pas de type de job.") db
        else done (in_flight (some (field_of "jobId" (str id))))
            (record db { jobs = insert id job db.jobs; created = suc db.created })

    unfoldable pub notify_failure : String → String → Database → Database
    notify_failure node_id message db = record db {
      notifications =
          record {
            organization_id = run.organization_id;
            kind = "automation_error";
            title = "Échec de l'automatisation (noeud \"" ++ node_id ++ "\")";
            body = message;
            link = "/automations/runs/" ++ run.id;
          }
          ∷ db.notifications;
    }

    unfoldable pub escalation_input : String → String → Json
    escalation_input node_id message = obj (
        field "objective"
          (str (
            "Résoudre l'échec de l'automatisation (run \"" ++ run.id ++ "\", noeud \"" ++ node_id
            ++ "\") : " ++ message))
          (field "automationRunId" (str run.id) (field "nodeId" (str node_id) end)))

    unfoldable pub escalate : String → String → Database → Run Database Unit
    unfolding escalation_input
    escalate node_id message db = elim (e.agents.find_director run.workspace_id db) [
      | none ↦ done tt db
      | some director ↦
          e.agents.create_agent_run director (escalation_input node_id message) db
          >>= λ agent_run db'. done tt (e.agents.execute_agent_run agent_run db')
    ]

    -- What the node's error policy does beside settling the node.
    unfoldable pub apply_policy : ErrorPolicy → String → String → Database → Run Database Unit
    unfolding notify_failure escalate
    apply_policy ErrorPolicy.notify node_id message db = done tt (notify_failure node_id message db)
    apply_policy ErrorPolicy.escalate_director node_id message db = escalate node_id message db
    apply_policy _ node_id message db = done tt db

    -- The node's answer, by the row of its job.
    unfoldable pub poll_job :
        ErrorPolicy → String → AutomationJob → Database → Run Database PollResult
    unfolding error_message apply_policy kind_of
    poll_job policy node_id job db =
        let failed = apply_policy policy node_id (error_message job) db >>= λ _ db'.
        done (PollResult.settled (settlement_by policy (error_message job))) db' in
        if is_success job.status
        then done (PollResult.settled (settle_with (some (or_null job.output)))) db
        else if is_final_job job.status
        then failed
        else done (pending false) db

    unfoldable pub poll_action_node :
        String → ActionNodeData → NodeStates → Database → Run Database PollResult
    unfolding text_property poll_job default_error_policy
    poll_action_node node_id d states db = elim (lookup node_id states) [
      | none ↦ thrown type_error db
      | some state ↦ elim (text_property "jobId" state.output) [
        | none ↦ done (pending false) db
        | some id ↦ elim (lookup id db.jobs) [
          | none ↦ thrown not_found_error db
          | some job ↦ poll_job (policy_of d.on_error) node_id job db
        ]
      ]
    ]
