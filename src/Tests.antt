-- ===== src/Tests.antt =====
-- Runs on concrete inputs, and the theorems applied to them.
mod RateLimit
mod Circuit
mod Lock
mod Graph
mod Rules
mod Retry
mod Concurrency
mod Run
mod Job
mod Validation
mod Queue
mod Cancel
mod Template
mod Nodes
mod Scheduler
mod Scoring
