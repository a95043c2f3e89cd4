-- ===== src/Tests/Run.antt =====
-- An advance of a small run (src/lib/automation/executor/job-executor.ts).
use provence.Prelude.{
  ℕ, ◌+◌, ◌≡◌, ◌≢◌, refl, String, false, none, some, [], ◌∷◌, Memᴰ, lookup, insert, arith, eq_iff,
}
use provence.Json.{null}
use provence.Automation.Graph.{AutomationNode, AutomationGraph, NodeData}
use provence.Automation.RunState.{NodeStatus, NodeState, compute_ready_nodes, is_node_ready}
use provence.Automation.Tick.{DispatchResult, PollResult, succeeded, Run, done, TickState}
use provence.Automation.Tick.Phases.{Ensures}
use provence.Automation.Run.{
  RunStatus, RunTrigger, AutomationRun, top_nodes, resumed_state, advance_automation_run,
}
use provence.Automation.Run.States.{KeepsSettled}
use provence.Automation.Run.Laws.{
  Verdict, advance_automation_run-KeepsSettled, advance_automation_run-Verdict, advance_ends_waits,
}

abbrev node : String → NodeData → AutomationNode
node id d = record { id = id; data_of = d }

abbrev pause : AutomationNode
pause = node "b" (NodeData.wait (some 60) none)

abbrev graph : AutomationGraph
graph = record {
  nodes = node "a" (NodeData.trigger "t" none) ∷ pause ∷ [];
  edges = record { id = "e"; source = "a"; target = "b"; branch = none } ∷ [];
}

abbrev pub state : NodeStatus → NodeState
state s = record { status = s; output = null; error = none }

-- The run is suspended until 60, and its first node has succeeded.
abbrev pub suspended_run : AutomationRun
suspended_run = record {
  id = "r";
  organization_id = "o";
  workspace_id = "w";
  automation_id = "a";
  automation_version_id = "v";
  trigger = RunTrigger.manual;
  created_by_id = none;
  parent_run_id = none;
  status = RunStatus.waiting;
  attempt = 1;
  started_at = some 0;
  finished_at = none;
  resume_at = some 60;
  input = none;
  output = none;
  error = none;
  variables = [];
  node_states = ("a", state NodeStatus.succeeded) ∷ ("b", state NodeStatus.waiting) ∷ [];
}

abbrev dispatch : AutomationNode → TickState → ℕ → Run ℕ DispatchResult
dispatch n t w =
    done (DispatchResult.settled (record { status = succeeded; output = none; error = none })) w

abbrev poll : AutomationNode → TickState → ℕ → Run ℕ PollResult
poll n t w = done (PollResult.pending false) w

abbrev save : AutomationRun → ℕ → ℕ
save run w = w + 1

ends_at_ten :
    Ensures
      (λ run. run.status ≡ RunStatus.succeeded)
      (advance_automation_run dispatch poll save graph 10 suspended_run 0)
unfolding advance_automation_run compute_ready_nodes is_node_ready lookup insert
ends_at_ten = refl

ids_differ : ◌≢◌ {A = String} "a" "b"
ids_differ = ground (arith, eq_iff "a" "b")

advance_automation_run-KeepsSettled_example :
    Ensures
      (λ run. KeepsSettled suspended_run.node_states run.node_states)
      (advance_automation_run dispatch poll save graph 10 suspended_run 0)
advance_automation_run-KeepsSettled_example =
    advance_automation_run-KeepsSettled dispatch poll save graph 10 suspended_run 0
      ((ids_differ, tt), (tt, tt)) refl

advance_automation_run-Verdict_example :
    Ensures
      (λ run. Verdict run.status (top_nodes graph) run.node_states)
      (advance_automation_run dispatch poll save graph 10 suspended_run 0)
advance_automation_run-Verdict_example =
    advance_automation_run-Verdict dispatch poll save graph 10 suspended_run 0
      ((ids_differ, tt), (tt, tt)) refl

advance_ends_waits_example :
    Ensures
      (λ run. lookup "b" run.node_states ≡ some resumed_state)
      (advance_automation_run dispatch poll save graph 10 suspended_run 0)
unfolding lookup top_nodes
advance_ends_waits_example =
    advance_ends_waits dispatch poll save graph 10 suspended_run 0 pause
      ((ids_differ, tt), (tt, tt)) refl (Memᴰ.tail (Memᴰ.head refl)) refl (state NodeStatus.waiting)
      refl refl
