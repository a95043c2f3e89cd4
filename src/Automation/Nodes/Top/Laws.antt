-- ===== src/Automation/Nodes/Top/Laws.antt =====
-- The progress of loops and maps over a run (src/lib/automation/executor/job-executor.ts,
-- `dispatchTopNode` and `pollTopNode`), and the join nodes.
use provence.Workflow.Rule.{Rule}
use provence.Workflow.VariableContext.{VariableContext}
use provence.Automation.Nodes.Top.{World}
