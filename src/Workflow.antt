-- ===== src/Workflow.antt =====
-- The Workflow Engine (src/lib/workflows), as far as the Automation Engine shares it.
pub mod Rule
pub mod Path
pub mod Evaluator
pub mod VariableContext
pub mod Template
pub mod Cron
