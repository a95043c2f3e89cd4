-- ===== src/Automation/Nodes/Child.antt =====
-- Sub-automations: `dispatchSubautomationNode` and `pollSubautomationNode` of
-- src/lib/automation/executor/job-executor.ts, with `createAutomationRun` of
-- src/lib/automation/registry/automation-service.ts. Columns of the run that nothing here reads are
-- left out.
pub mod Laws
use Prim.Native.String.{◌++◌}
use provence.Prelude.{
  ℕ, suc, String, Bool, true, false, ◌&&◌, Option, none, some, List, [], ◌∷◌, lookup, insert,
  if◌then◌else◌, str_eq,
}
use provence.Json.{Fields, end, field, str, or_null}
use provence.Workflow.VariableContext.{Scope, VariableContext}
use provence.Automation.RunState.{NodeStates}
use provence.Automation.Tick.{
  DispatchResult, in_flight, PollResult, pending, Run, done, thrown, ◌>>=◌, type_error,
}
use provence.Automation.Run.{RunStatus, RunTrigger, AutomationRun}
use provence.Automation.Nodes.{
  RunRef, AutomationStatus, Automation, Database, Environment, not_found_error, settle_with,
  fail_with, field_of, text_property, resolved_input,
}

abbrev pub scope_of : Fields → Scope
scope_of end = []
scope_of (field key v fields) = (key, some v) ∷ scope_of fields

-- The parameters of `createAutomationRun` that a sub-automation gives.
pub record NewRun : Type 0 where
  pub organization_id : String
  pub workspace_id : String
  pub automation_id : String
  pub automation_version_id : String
  pub input : Fields
  pub trigger : RunTrigger
  pub parent_run_id : String

-- The child that a sub-automation asks for, with its automation and version.
abbrev pub child_of : RunRef → String × String → Fields → NewRun
child_of run target input = record {
  organization_id = run.organization_id;
  workspace_id = run.workspace_id;
  automation_id = target.0;
  automation_version_id = target.1;
  input = input;
  trigger = RunTrigger.automation;
  parent_run_id = run.id;
}

abbrev pub queued_run : NewRun → String → AutomationRun
queued_run p id = record {
  id = id;
  organization_id = p.organization_id;
  workspace_id = p.workspace_id;
  automation_id = p.automation_id;
  automation_version_id = p.automation_version_id;
  trigger = p.trigger;
  created_by_id = none;
  parent_run_id = some p.parent_run_id;
  status = RunStatus.queued;
  attempt = 0;
  started_at = none;
  finished_at = none;
  resume_at = none;
  input = some (scope_of p.input);
  output = none;
  error = none;
  variables = [];
  node_states = [];
}

abbrev pub is_active : AutomationStatus → Bool
is_active AutomationStatus.active = true
is_active _ = false

abbrev pub is_text : String → Option String → Bool
is_text s none = false
is_text s (some t) = str_eq t s

-- `prisma.automation.findFirst({ where: { workspaceId, key, status: "ACTIVE" } })`
unfoldable pub find_active : String → String → List Automation → Option Automation
find_active workspace_id key [] = none
find_active workspace_id key (a ∷ automations) =
    if is_text workspace_id a.workspace_id && str_eq a.key key && is_active a.status
    then some a
    else find_active workspace_id key automations

-- `target?.activeVersionId`, where an empty text counts as none.
abbrev pub version_in : String → Option String → Option (String × String)
version_in id none = none
version_in id (some version) = if str_eq version "" then none else some (id, version)

abbrev pub version_of : Option Automation → Option (String × String)
version_of none = none
version_of (some a) = version_in a.id a.active_version_id

unfoldable pub run_status_name : RunStatus → String
run_status_name RunStatus.queued = "QUEUED"
run_status_name RunStatus.running = "RUNNING"
run_status_name RunStatus.waiting = "WAITING"
run_status_name RunStatus.succeeded = "SUCCEEDED"
run_status_name RunStatus.failed = "FAILED"
run_status_name RunStatus.cancelled = "CANCELLED"
run_status_name RunStatus.timed_out = "TIMED_OUT"

abbrev pub child_failure : String → RunStatus → String
child_failure id status =
    "Automatisation enfant \"" ++ id ++ "\" en échec (" ++ run_status_name status ++ ")."

-- The answer by the row of the child run.
unfoldable pub child_answer : String → AutomationRun → PollResult
unfolding run_status_name
child_answer id child = elim child.status [
  | RunStatus.succeeded ↦ PollResult.settled (settle_with (some (or_null child.output)))
  | RunStatus.failed ↦ PollResult.settled (fail_with (child_failure id RunStatus.failed) none)
  | RunStatus.cancelled ↦ PollResult.settled (fail_with (child_failure id RunStatus.cancelled) none)
  | RunStatus.timed_out ↦ PollResult.settled (fail_with (child_failure id RunStatus.timed_out) none)
  | _ ↦ pending false
]

unfoldable pub poll_child : String → NodeStates → Database → Run Database PollResult
unfolding text_property child_answer
poll_child node_id states db = elim (lookup node_id states) [
  | none ↦ thrown type_error db
  | some state ↦ elim (text_property "childRunId" state.output) [
    | none ↦ done (pending false) db
    | some id ↦ elim (lookup id db.runs) [
      | none ↦ thrown not_found_error db
      | some child ↦ done (child_answer id child) db
    ]
  ]
]

module _ (e : Environment) where
  unfoldable pub create_automation_run : NewRun → Database → Run Database String
  create_automation_run p db = elim (e.run_refused p.organization_id db) [
    | some message ↦ thrown message db
    | none ↦
        let id = e.fresh_id db.created in
        done id (record db { runs = insert id (queued_run p id) db.runs; created = suc db.created })
  ]

  unfoldable pub dispatch_child :
      RunRef → String → Option Fields → VariableContext → Database → Run Database DispatchResult
  unfolding find_active create_automation_run
  dispatch_child run key input ctx db =
      elim (version_of (find_active run.workspace_id key db.automations)) [
        | none ↦ thrown ("Aucune automatisation active trouvée pour la clé \"" ++ key ++ "\".") db
        | some target ↦
            create_automation_run (child_of run target (resolved_input e input ctx)) db
            >>= λ id db'. done (in_flight (some (field_of "childRunId" (str id)))) db'
      ]
