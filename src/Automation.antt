-- ===== src/Automation.antt =====
-- The Automation Engine (src/lib/automation).
pub mod Graph
pub mod RunState
pub mod Tick
pub mod Circuit
pub mod Lock
pub mod Retry
pub mod TokenBucket
pub mod Concurrency
pub mod Run
pub mod Job
pub mod Validation
pub mod Queue
pub mod Cancel
pub mod Nodes
pub mod Scheduler
